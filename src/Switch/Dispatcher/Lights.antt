-- ===== src/Switch/Dispatcher/Lights.antt =====
-- The player lights across the dispatcher.
use swbt_daemon.Common.{◌≤◌, ◌≡◌, ◌≢◌, refl, ◌⊎◌, some, arith, ltb, if◌then◌else◌}
use swbt_daemon.Common.Buffer.{Buffer, store}
use swbt_daemon.Switch.State.{ControllerState}
use swbt_daemon.Switch.Report.{ReportOptions}
use swbt_daemon.Switch.Subcommand.{OutputReport}
use swbt_daemon.Switch.Reply.{SubcommandReply, ack_code}
use swbt_daemon.Switch.Reply.Layout.{write_reply_data}
use swbt_daemon.Switch.PlayerLights.{PlayerLights, apply_raw, apply_set, get_reply_data}
use swbt_daemon.Switch.Dispatcher.Answers.{build_reply-ok}
use swbt_daemon.Switch.Dispatcher.{
  Config, Response, ok, malformed_subcommand, build_reply, set_player_lights, get_player_lights,
  dispatch_by_id,
}

-- Only the set command changes the lights.
pub dispatch-lights_kept :
    (config : Config) (output : OutputReport) (response : Response)
    → output.subcommand_id ≢ 0x30
    → (dispatch_by_id config output response).1 ≡ config.player_lights
unfolding dispatch_by_id
dispatch-lights_kept config output response h = ground arith

-- A set command with a payload stores its first byte; one without (a NULL pointer or length 0) is
-- malformed and keeps the lights.
pub dispatch-set_lights :
    (config : Config) (lights : PlayerLights) (output : OutputReport) (response : Response)
    (payload : Buffer)
    → config.player_lights ≡ some lights
    → output.subcommand_id ≡ 0x30
    → output.subcommand_data ≡ some payload
    → let ((result, r), lights') = dispatch_by_id config output response in
      (lights' ≡ some (if ltb output.subcommand_data_len 1 then lights else apply_raw (payload 0)))
      × ((1 ≤ output.subcommand_data_len)
          ⊎ ((result ≡ malformed_subcommand) × (r.report ≡ response.report)))
unfolding dispatch_by_id set_player_lights apply_set
dispatch-set_lights config lights output response payload el en ed = ground arith

get_lights-eq :
    (config : Config) (lights : PlayerLights) (output : OutputReport) (response : Response)
    → config.player_lights ≡ some lights
    → output.subcommand_id ≡ 0x31
    → dispatch_by_id config output response ≡ (
      build_reply config response 0xB0 output.subcommand_id (some (store (λ _. 0) 0 lights.raw)) 1,
      some lights,
    )
unfolding dispatch_by_id get_player_lights get_reply_data ack_code
get_lights-eq config lights output response el en = ground arith

-- A get command answers with the byte that was last set.
pub dispatch-get_lights :
    (config : Config) (s : ControllerState) (o : ReportOptions) (lights : PlayerLights)
    (output : OutputReport) (response : Response)
    → config.state ≡ some s
    → config.report_options ≡ some o
    → config.player_lights ≡ some lights
    → output.subcommand_id ≡ 0x31
    → let ((result, r), lights') = dispatch_by_id config output response in
      (result ≡ ok) × (r.report 15 ≡ lights.raw) × (lights' ≡ some lights)
dispatch-get_lights config s o lights output response es eo el en =
    let bytes = store (λ _. 0) 0 lights.raw in
    let sent : SubcommandReply = record {
      ack = 0xB0;
      subcommand_id = output.subcommand_id;
      bytes = some bytes;
      data_len = 1;
    } in
    rw
      (
        get_lights-eq config lights output response el en,
        build_reply-ok config s o response 0xB0 output.subcommand_id 1 bytes es eo (omega arith),
      )
      (refl, write_reply_data s o sent response.report 0 (omega arith), refl)
