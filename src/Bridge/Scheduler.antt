-- ===== src/Bridge/Scheduler.antt =====
-- The schedule of the input reports: swbt/btstack_bridge/input_report_scheduler.h and
-- input_report_scheduler.c. The scheduler is updated in place and is a value; the guards against a
-- NULL scheduler, which no caller passes, are left out. The send callback is a function of what it
-- is called with, `none` for NULL; each call of it is recorded in `sent`, which the source has not.
pub mod Ticks
use swbt_daemon.Common.{
  ℕ, ◌+◌, Bool, true, false, ◌&&◌, ◌||◌, not, Option, none, some, List, ◌∷◌, ltb, leb, ◌==◌,
  if◌then◌else◌, is_null, u8, u64,
}
use swbt_daemon.Common.Buffer.{Buffer, fill}
use swbt_daemon.Common.Int.{ℤ, pos, negsuc}
use swbt_daemon.Switch.State.{ControllerState}
use swbt_daemon.Switch.Report.{
  ReportOptions, ReportResult, Built, standard_full_size, build_standard_full_report,
}

-- `swbt_btstack_input_report_result_t`.
pub data InputResult : Type 0 where
  ok not_due stopped invalid_argument build_failed send_failed : InputResult

-- `swbt_btstack_input_report_send_callback_t`, with its context.
abbrev pub SendReport : Type 0
SendReport = ℕ → Buffer → ℕ → ℤ

-- `swbt_btstack_input_report_scheduler_config_t`.
pub record SchedulerConfig : Type 0 where
  pub report_period_us : ℕ
  pub report_options : ReportOptions

-- `swbt_btstack_input_report_scheduler_start_options_t`.
pub record StartOptions : Type 0 where
  pub hid_cid : ℕ
  pub now_us : ℕ

-- What one call of the send callback was given: the connection, the report and its size.
pub record Sent : Type 0 where
  pub hid_cid : ℕ
  pub report : Buffer
  pub size : ℕ

-- `swbt_btstack_input_report_scheduler_t`; `scratch` is an array of 49 bytes. `sent` is the record
-- of the callback's calls so far, the last one first.
pub record Scheduler : Type 0 where
  pub send_callback : Option SendReport
  pub report_period_us : ℕ
  pub report_options : ReportOptions
  pub hid_cid : ℕ
  pub running : Bool
  pub next_deadline_us : ℕ
  pub timer : ℕ
  pub scratch : Buffer
  pub sent : List Sent

unfoldable pub is_valid : Scheduler → Bool
is_valid s = not (is_null s.send_callback) && ltb 0 s.report_period_us

unfoldable pub advance : Scheduler → ℕ → Scheduler
advance s now_us =
    let next_deadline = u64 (s.next_deadline_us + s.report_period_us) in
    record s {
      next_deadline_us =
          if leb next_deadline now_us then u64 (now_us + s.report_period_us) else next_deadline;
    }

-- `swbt_btstack_input_report_scheduler_init`.
unfoldable pub init :
    Scheduler → Option SendReport → Option SchedulerConfig → InputResult × Scheduler
init s none config = (invalid_argument, s)
init s (some send_callback) none = (invalid_argument, s)
init s (some send_callback) (some config) =
    if config.report_period_us == 0 then (invalid_argument, s) else (
      ok,
      record {
        send_callback = some send_callback;
        report_period_us = config.report_period_us;
        report_options = config.report_options;
        hid_cid = 0;
        running = false;
        next_deadline_us = 0;
        timer = config.report_options.timer;
        scratch = fill s.scratch 0 standard_full_size (λ _. 0);
        sent = s.sent;
      },
    )

-- `swbt_btstack_input_report_scheduler_start`.
unfoldable pub start : Scheduler → StartOptions → InputResult × Scheduler
unfolding is_valid
start s options = if not (is_valid s) then (invalid_argument, s) else (
  ok,
  record s {
    hid_cid = options.hid_cid;
    running = true;
    next_deadline_us = u64 (options.now_us + s.report_period_us);
    timer = s.report_options.timer;
  },
)

-- `swbt_btstack_input_report_scheduler_stop`.
unfoldable pub stop : Scheduler → Scheduler
stop s = record s { running = false; hid_cid = 0 }

-- After the send: the deadline moves in any case, the timer only when the report was sent.
unfoldable pub after_send : Scheduler → ℕ → ℤ → InputResult × Scheduler
unfolding advance
after_send s now_us (pos n) =
    if n == 0
    then (ok, record (advance s now_us) { timer = u8 (s.timer + 1) })
    else (send_failed, advance s now_us)
after_send s now_us (negsuc n) = (send_failed, advance s now_us)

-- The array after the builder's call.
abbrev pub scratch_after : Buffer → Option Buffer → Buffer
scratch_after before none = before
scratch_after before (some after) = after

-- A call of the send callback: what it answers, and the scheduler with the call recorded.
unfoldable pub call_send : Scheduler → SendReport → ℕ → Buffer → ℕ → ℤ × Scheduler
call_send s send_callback hid_cid report size =
    let call : Sent = record { hid_cid = hid_cid; report = report; size = size } in
    (send_callback hid_cid report size, record s { sent = call ∷ s.sent })

-- A tick that is due.
unfoldable pub send_due : Scheduler → SendReport → ℕ → ControllerState → InputResult × Scheduler
unfolding after_send call_send
send_due s send_callback now_us state =
    let options = record (s.report_options) { timer = s.timer } in
    let built =
      build_standard_full_report (some state) (some options) (some s.scratch) standard_full_size in
    let scratch = scratch_after s.scratch built.out in
    let s' = record s { scratch = scratch } in
    elim built.result [
      | ReportResult.ok ↦
          let (code, called) = call_send s' send_callback s.hid_cid scratch built.written in
          after_send called now_us code
      | _ ↦ (build_failed, s')
    ]

-- `swbt_btstack_input_report_scheduler_tick`.
unfoldable pub tick : Scheduler → ℕ → Option ControllerState → InputResult × Scheduler
unfolding send_due
tick s now_us none = (invalid_argument, s)
tick s now_us (some state) = elim s.send_callback [
  | none ↦ (invalid_argument, s)
  | some send_callback ↦
      if s.report_period_us == 0
      then (invalid_argument, s)
      else if not s.running
      then (stopped, s)
      else if ltb now_us s.next_deadline_us
      then (not_due, s)
      else send_due s send_callback now_us state
]
