-- ===== src/Bridge/Timer.antt =====
-- The loop of the input reports: swbt/btstack_bridge/input_report_timer_adapter.h and
-- input_report_timer_adapter.c. The adapter is updated in place and is a value; the guards against
-- a NULL adapter are left out. The backend is a parameter: what its clock answers is an argument of
-- the operation that asks it, the effective sender is a function, and the calls are recorded, the
-- last one first.
pub mod Send
pub mod Handlers
pub mod Holdoff
pub mod Neutral
use swbt_daemon.Common.{
  ℕ, ◌+◌, ◌-◌, ◌*◌, ◌/◌, ◌^◌, Bool, true, false, Option, none, some, List, [], ◌∷◌, ltb, leb, ◌==◌,
  if◌then◌else◌, not, u64,
}
use swbt_daemon.Common.Buffer.{Buffer}
use swbt_daemon.Bridge.ReplyQueue
use swbt_daemon.Bridge.ReplyQueue.{ReplyQueue, QueueItem, QueueResult}
use swbt_daemon.Bridge.Scheduler
use swbt_daemon.Bridge.Scheduler.{Scheduler, SchedulerConfig, StartOptions, InputResult, SendReport}
use swbt_daemon.Switch.Report.{ReportOptions}

abbrev pub reply_periodic_holdoff_us : ℕ
reply_periodic_holdoff_us = 300000

-- `swbt_btstack_input_report_timer_result_t`.
pub data TimerResult : Type 0 where
  ok not_due stopped pending invalid_argument scheduler_error reply_queue_error : TimerResult

-- The calls of the backend and of the observer.
pub data Effect : Type 0 where
  set_timer : ℕ → Effect
  remove_timer : Effect
  request_can_send_now : ℕ → Effect
  sent : ℕ → Buffer → ℕ → Effect
  observed : ℕ → Bool → Effect

-- `swbt_btstack_input_report_timer_adapter_t`; `sender` is `hid_sender`, or the backend's function
-- where that is NULL.
pub record TimerAdapter : Type 0 where
  pub sender : SendReport
  pub has_observer : Bool
  pub scheduler : Scheduler
  pub reply_queue : ReplyQueue
  pub hid_cid : ℕ
  pub initialized : Bool
  pub running : Bool
  pub timer_pending : Bool
  pub can_send_pending : Bool
  pub neutral_send_pending : Bool
  pub periodic_holdoff_until_us : ℕ
  pub effects : List Effect

abbrev pub effect : Effect → TimerAdapter → TimerAdapter
effect e a = record a { effects = e ∷ a.effects }

unfoldable pub delay_ms_until : ℕ → ℕ → ℕ
delay_ms_until now_us deadline_us =
    if leb deadline_us now_us
    then 0
    else (let delay_ms = u64 (deadline_us - now_us + 999) / 1000 in
        if ltb (2 ^ 32 - 1) delay_ms then 2 ^ 32 - 1 else delay_ms)

unfoldable pub map_scheduler_result : InputResult → TimerResult
map_scheduler_result InputResult.ok = ok
map_scheduler_result InputResult.not_due = not_due
map_scheduler_result InputResult.stopped = stopped
map_scheduler_result _ = scheduler_error

unfoldable pub map_reply_queue_result : QueueResult → TimerResult
map_reply_queue_result QueueResult.ok = ok
map_reply_queue_result QueueResult.empty = not_due
map_reply_queue_result _ = reply_queue_error

unfoldable pub notify_report_tick : TimerAdapter → ℕ → InputResult → TimerAdapter
notify_report_tick a now_us InputResult.ok =
    if a.has_observer then effect (observed now_us true) a else a
notify_report_tick a now_us InputResult.send_failed =
    if a.has_observer then effect (observed now_us false) a else a
notify_report_tick a now_us _ = a

-- The later of the holdoff and the deadline.
abbrev pub scheduled_deadline_us : TimerAdapter → ℕ
scheduled_deadline_us a =
    if ltb a.scheduler.next_deadline_us a.periodic_holdoff_until_us
    then a.periodic_holdoff_until_us
    else a.scheduler.next_deadline_us

-- `schedule_next_timer`, whose result is always OK.
unfoldable pub schedule_next_timer : TimerAdapter → ℕ → TimerAdapter
unfolding delay_ms_until
schedule_next_timer a now_us =
    record (effect (set_timer (delay_ms_until now_us (scheduled_deadline_us a))) a) {
      timer_pending = true;
    }

unfoldable pub cancel_pending_timer : TimerAdapter → TimerAdapter
cancel_pending_timer a =
    if a.timer_pending then record (effect remove_timer a) { timer_pending = false } else a

unfoldable pub holdoff_periodic_after_reply : TimerAdapter → ℕ → TimerAdapter
unfolding cancel_pending_timer schedule_next_timer
holdoff_periodic_after_reply a now_us =
    let held = record a {
      periodic_holdoff_until_us = u64 (now_us + reply_periodic_holdoff_us);
      can_send_pending = false;
    } in
    schedule_next_timer (cancel_pending_timer held) now_us

-- The time of the backend in microseconds; the 32 bits of `time_ms` leave room for the product.
abbrev pub now_us : ℕ → ℕ
now_us time_ms = time_ms * 1000

-- `{0}` of the three types below.
abbrev pub zero_item : QueueItem
zero_item = record { hid_cid = 0; report = λ _. 0; report_size = 0 }

abbrev pub zero_options : ReportOptions
zero_options = record { timer = 0; battery_connection = 0; vibrator_report = 0 }

abbrev pub zero_scheduler : Scheduler
zero_scheduler = record {
  send_callback = none;
  report_period_us = 0;
  report_options = zero_options;
  hid_cid = 0;
  running = false;
  next_deadline_us = 0;
  timer = 0;
  scratch = λ _. 0;
  sent = [];
}

-- `swbt_btstack_input_report_timer_adapter_init`. `scheduler_send_callback` reads the adapter when
-- it is called, so a tick sets it again.
unfoldable pub init : SendReport → Bool → SchedulerConfig → SendReport → TimerResult × TimerAdapter
unfolding ReplyQueue.init Scheduler.init
init sender has_observer scheduler_config scheduler_send_callback =
    let (result, scheduler) =
      Scheduler.init zero_scheduler (some scheduler_send_callback) (some scheduler_config) in
    let a : TimerAdapter = record {
      sender = sender;
      has_observer = has_observer;
      scheduler = scheduler;
      reply_queue = ReplyQueue.init (record { items = λ _. zero_item; head = 0; count = 0 });
      hid_cid = 0;
      initialized = false;
      running = false;
      timer_pending = false;
      can_send_pending = false;
      neutral_send_pending = false;
      periodic_holdoff_until_us = 0;
      effects = [];
    } in
    elim result [
      | InputResult.ok ↦ (ok, record a { initialized = true })
      | _ ↦ (invalid_argument, a)
    ]

-- `swbt_btstack_input_report_timer_adapter_start`.
unfoldable pub start : TimerAdapter → StartOptions → TimerResult × TimerAdapter
unfolding schedule_next_timer map_scheduler_result Scheduler.start
start a options =
    if not a.initialized
    then (invalid_argument, a)
    else (let (result, scheduler) = Scheduler.start a.scheduler options in
        elim result [
          | InputResult.ok ↦ (
            ok,
            schedule_next_timer
                (record a {
                  scheduler = scheduler;
                  hid_cid = options.hid_cid;
                  running = true;
                  timer_pending = false;
                  can_send_pending = false;
                  periodic_holdoff_until_us = 0;
                  neutral_send_pending = false;
                })
                options.now_us,
          )
          | other ↦ (map_scheduler_result other, record a { scheduler = scheduler })
        ])
