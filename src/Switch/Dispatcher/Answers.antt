-- ===== src/Switch/Dispatcher/Answers.antt =====
-- When the dispatcher answers, and with what header.
use swbt_daemon.Common.{
  ℕ, ◌≤◌, ◌≡◌, ◌≢◌, refl, ◌⊎◌, inl, inr, Option, none, some, arith, true, is_null, Bool-cases,
  if_both,
}
use swbt_daemon.Common.Buffer.{Buffer}
use swbt_daemon.Switch.State.{ControllerState}
use swbt_daemon.Switch.Report.{ReportOptions}
use swbt_daemon.Switch.Subcommand.{OutputReport, subcommand_is_known}
use swbt_daemon.Switch.Reply.{
  ReplyResult, SubcommandReply, build_subcommand_reply, write_reply, write_header,
}
use swbt_daemon.Switch.Reply.Layout.{write_reply_below}
use swbt_daemon.Switch.PlayerLights.{PlayerLights}
use swbt_daemon.Switch.Dispatcher.{
  Config, DispatchResult, Handled, Response, ok, no_action, reply, build_reply, simple_ack,
  request_device_info, trigger_buttons_elapsed, set_mcu_config, spi_read, spi_read_request,
  answer_read, set_player_lights, get_player_lights, dispatch_by_id, dispatch_into, dispatch,
  reset_response, written_into, unsupported,
}

-- An answer: the result is OK exactly when there is a report to send, which has 50 bytes, the reply
-- id and the subcommand id; otherwise the action is NONE and the size 0.
abbrev pub IsAnswer : ℕ → DispatchResult → Response → Type 0
IsAnswer n result r =
    ((result ≡ ok)
      × (r.action ≡ reply)
      × (r.report_size ≡ 50)
      × (r.report 0 ≡ 0x21)
      × (r.report 14 ≡ n))
    ⊎ ((result ≢ ok) × (r.action ≡ no_action) × (r.report_size ≡ 0))

-- What the builder leaves in the response's array.
built_cases :
    (s : Option ControllerState) (o : Option ReportOptions) (r : SubcommandReply) (out : Buffer)
    → let b = build_subcommand_reply s o (some r) (some out) 50 in
      ((b.result ≡ ReplyResult.ok)
        × (b.written ≡ 50)
        × (written_into out b.out 0 ≡ 0x21)
        × (written_into out b.out 14 ≡ r.subcommand_id))
      ⊎ (b.result ≢ ReplyResult.ok)
unfolding build_subcommand_reply
built_cases none o r out = inr (ground arith)
built_cases (some s) none r out = inr (ground arith)
built_cases (some s) (some o) r out = ground (
  arith,
  write_reply_below s o r out 0 (omega arith),
  write_reply_below s o r out 14 (omega arith),
  start,
  name,
)
  where
    start : write_header s o r out 0 ≡ 0x21
    start = unfold write_header in refl

    name : write_header s o r out 14 ≡ r.subcommand_id
    name = unfold write_header in refl

build_reply-IsAnswer :
    (config : Config) (response : Response) (ack n : ℕ) (bytes : Option Buffer) (len : ℕ)
    → let (result, r) = build_reply config response ack n bytes len in IsAnswer n result r
unfolding build_reply
build_reply-IsAnswer config response ack n bytes len = ground (
  arith,
  built_cases config.state config.report_options
      (record { ack = ack; subcommand_id = n; bytes = bytes; data_len = len }) response.report,
)

module _ (config : Config) (output : OutputReport) (response : Response) where
  -- A clean response, as the dispatcher passes on.
  abbrev IsClean : Type 0
  IsClean = (response.action ≡ no_action) × (response.report_size ≡ 0)

  abbrev Answers : DispatchResult × Response → Type 0
  Answers h = IsAnswer output.subcommand_id h.0 h.1

  simple_ack-Answers : Answers (simple_ack config output response)
  unfolding simple_ack
  simple_ack-Answers = build_reply-IsAnswer config response _ _ _ _

  request_device_info-Answers : IsClean → Answers (request_device_info config output response)
  unfolding request_device_info
  request_device_info-Answers h = elim (Bool-cases (is_null config.device_info)) [
    | inl e ↦ rw e (ground arith)
    | inr e ↦ rw e (build_reply-IsAnswer config response _ _ _ _)
  ]

  trigger_buttons_elapsed-Answers : Answers (trigger_buttons_elapsed config output response)
  unfolding trigger_buttons_elapsed
  trigger_buttons_elapsed-Answers = build_reply-IsAnswer config response _ _ _ _

  set_mcu_config-Answers : Answers (set_mcu_config config output response)
  unfolding set_mcu_config
  set_mcu_config-Answers = build_reply-IsAnswer config response _ _ _ _

  spi_read_request-Answers :
      (bytes : Buffer) → IsClean → Answers (spi_read_request config output response bytes)
  unfolding spi_read_request answer_read
  spi_read_request-Answers bytes h = grind (arith, build_reply-IsAnswer)

  spi_read-Answers : IsClean → Answers (spi_read config output response)
  unfolding spi_read
  spi_read-Answers h = grind (arith, spi_read_request-Answers)

  get_player_lights-Answers : IsClean → Answers (get_player_lights config output response)
  unfolding get_player_lights
  get_player_lights-Answers h = grind (arith, build_reply-IsAnswer)

set_player_lights-Answers :
    (config : Config) (output : OutputReport) (response : Response)
    → IsClean config output response
    → Answers config output response (set_player_lights config output response).0
unfolding set_player_lights
set_player_lights-Answers config output response h = grind (arith, build_reply-IsAnswer)

unsupported-Answers :
    (config : Config) (output : OutputReport) (response : Response)
    → IsClean config output response
    → Answers config output response (unsupported, response)
unsupported-Answers config output response h = ground arith

dispatch_by_id-Answers :
    (config : Config) (output : OutputReport) (response : Response)
    → IsClean config output response
    → Answers config output response (dispatch_by_id config output response).0
unfolding dispatch_by_id
dispatch_by_id-Answers config output response h =
    let P = λ (x : Handled × Option PlayerLights). Answers config output response x.0 in
    if_both P _ (request_device_info-Answers config output response h) (
      if_both P _ (trigger_buttons_elapsed-Answers config output response) (
        if_both P _ (set_mcu_config-Answers config output response) (
          if_both P _ (simple_ack-Answers config output response) (
            if_both P _ (spi_read-Answers config output response h) (
              if_both P _ (set_player_lights-Answers config output response h) (
                if_both P _ (get_player_lights-Answers config output response h)
                  (unsupported-Answers config output response h)))))))

-- What a dispatch of an output report, `none` for NULL, may leave.
abbrev pub IsOutcome : Option OutputReport → DispatchResult → Response → Type 0
IsOutcome none result r = (result ≢ ok) × (r.action ≡ no_action) × (r.report_size ≡ 0)
IsOutcome (some output) result r = IsAnswer output.subcommand_id result r

-- Every dispatch into a response is an answer: OK exactly when there is a report of 50 bytes with
-- the reply id and the subcommand id to send, and on every refusal (a configuration or an output
-- report that is NULL, no subcommand, an unsupported, malformed or failed command) the response is
-- reset to no action and size 0.
pub dispatch-IsAnswer :
    (config : Option Config) (output : Option OutputReport) (response : Response)
    → let (result, r, _) = dispatch config output (some response) in
      (r' : Response) × (r ≡ some r') × IsOutcome output result r'
unfolding dispatch dispatch_into
dispatch-IsAnswer none none response = (_, refl, ground arith)
dispatch-IsAnswer none (some output) response = (_, refl, ground arith)
dispatch-IsAnswer (some config) none response = (_, refl, ground arith)
dispatch-IsAnswer (some config) (some output) response = (
  _,
  refl,
  ground (
    arith,
    dispatch_by_id-Answers config output (reset_response response)
        (unfold reset_response in (refl, refl)),
  ),
)

-- A subcommand that the dispatcher supports is one that the protocol knows.
pub dispatch-supported_known :
    (config : Config) (output : OutputReport) (response : Response)
    → ((dispatch_by_id config output response).0.0 ≡ unsupported)
      ⊎ (subcommand_is_known output.subcommand_id ≡ true)
unfolding dispatch_by_id subcommand_is_known
dispatch-supported_known config output response = ground arith

-- A reply with data that fits is built.
pub build_reply-ok :
    (config : Config) (s : ControllerState) (o : ReportOptions) (response : Response)
    (ack n len : ℕ) (bytes : Buffer)
    → config.state ≡ some s
    → config.report_options ≡ some o
    → len ≤ 35
    → build_reply config response ack n (some bytes) len ≡ (
      ok,
      record {
        action = reply;
        report =
            write_reply s o
              (record { ack = ack; subcommand_id = n; bytes = some bytes; data_len = len })
              response.report;
        report_size = 50;
      },
    )
unfolding build_reply build_subcommand_reply
build_reply-ok config s o response ack n len bytes es eo h = ground arith
