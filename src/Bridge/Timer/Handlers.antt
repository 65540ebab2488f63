-- ===== src/Bridge/Timer/Handlers.antt =====
-- The events that the adapter handles, and its stop:
-- swbt/btstack_bridge/input_report_timer_adapter.c.
use swbt_daemon.Common.{ℕ, Bool, true, false, ◌||◌, not, Option, some, ltb, if◌then◌else◌}
use swbt_daemon.Common.Buffer.{Buffer}
use swbt_daemon.Switch.State.{ControllerState}
use swbt_daemon.Switch.Report.{standard_full_size}
use swbt_daemon.Bridge.ReplyQueue
use swbt_daemon.Bridge.ReplyQueue.{QueueResult, QueueItem, send_next, enqueue}
use swbt_daemon.Bridge.Scheduler
use swbt_daemon.Bridge.Scheduler.{Scheduler, InputResult, tick}
use swbt_daemon.Bridge.Timer.{
  TimerAdapter, TimerResult, ok, not_due, stopped, pending, invalid_argument, effect,
  request_can_send_now, now_us, schedule_next_timer, cancel_pending_timer,
  holdoff_periodic_after_reply, map_scheduler_result, map_reply_queue_result, notify_report_tick,
}
use swbt_daemon.Bridge.Timer.Send.{send_hidp_input_report, send_callback, send_neutral_report}

-- `swbt_btstack_input_report_timer_adapter_on_timer`.
unfoldable pub on_timer : TimerAdapter → ℕ → TimerResult × TimerAdapter
unfolding schedule_next_timer
on_timer a time_ms =
    if not a.running
    then (stopped, a)
    else if ltb (now_us time_ms) a.periodic_holdoff_until_us
    then (ok, schedule_next_timer (record a { timer_pending = false }) (now_us time_ms))
    else (
      ok,
      effect (request_can_send_now a.hid_cid)
          (record a { timer_pending = false; can_send_pending = true }),
    )

-- The branch of `on_can_send_now` for a neutral report that waits.
abbrev pub on_neutral : TimerResult × TimerAdapter → ℕ → TimerResult × TimerAdapter
on_neutral (ok, a) time_ms = (
  ok,
  schedule_next_timer
      (cancel_pending_timer (record a {
        neutral_send_pending = false;
        can_send_pending = false;
        periodic_holdoff_until_us = 0;
      }))
      (now_us time_ms),
)
on_neutral (other, a) time_ms = (other, effect (request_can_send_now a.hid_cid) a)

-- The adapter after the queue called `reply_queue_send_callback` for the item at its head.
abbrev pub reply_called : TimerAdapter → QueueItem → TimerAdapter
reply_called a item = (send_hidp_input_report a item.hid_cid item.report item.report_size).1

-- The branch of `on_can_send_now` for the replies that wait; `can_send_pending` is false after the
-- holdoff is set.
unfoldable pub on_reply : TimerAdapter → ℕ → TimerResult × TimerAdapter
unfolding send_callback holdoff_periodic_after_reply map_reply_queue_result send_next
on_reply a time_ms =
    let (result, queue) = send_next a.reply_queue (some (send_callback a)) in
    let called = reply_called a (a.reply_queue.items a.reply_queue.head) in
    let a' = record called { reply_queue = queue } in
    elim result [
      | QueueResult.ok ↦
          let held = holdoff_periodic_after_reply a' (now_us time_ms) in
          (
            ok,
            if ltb 0 held.reply_queue.count || held.can_send_pending
                then effect (request_can_send_now held.hid_cid) held
                else held,
          )
      | QueueResult.send_failed ↦ (map_reply_queue_result QueueResult.send_failed, a')
      | other ↦ (map_reply_queue_result other, record a { reply_queue = queue })
    ]

-- Whether a tick called `scheduler_send_callback`.
abbrev pub was_sent : InputResult → Bool
was_sent InputResult.ok = true
was_sent InputResult.send_failed = true
was_sent _ = false

-- The adapter after a tick that called `scheduler_send_callback` with the full report in `scratch`.
-- A full report does not share the timer, so the scheduler is the one that the tick leaves.
abbrev pub after_tick : TimerAdapter → InputResult → Scheduler → TimerAdapter
after_tick a result scheduler =
    let called =
      (send_hidp_input_report a a.scheduler.hid_cid scheduler.scratch standard_full_size).1 in
    record (if was_sent result then called else a) { scheduler = scheduler }

-- The end of `on_can_send_now`: a tick with the state of the provider.
unfoldable pub on_tick : TimerAdapter → ℕ → ControllerState → TimerResult × TimerAdapter
unfolding tick send_callback notify_report_tick schedule_next_timer map_scheduler_result
on_tick a time_ms state =
    let ticking = record (a.scheduler) { send_callback = some (send_callback a) } in
    let (result, scheduler) = tick ticking (now_us time_ms) (some state) in
    let notified = notify_report_tick (after_tick a result scheduler) (now_us time_ms) result in
    let a' = record notified { can_send_pending = false } in
    elim result [
      | InputResult.ok ↦
          (ok, schedule_next_timer (record a' { periodic_holdoff_until_us = 0 }) (now_us time_ms))
      | other ↦ (map_scheduler_result other, a')
    ]

-- `swbt_btstack_input_report_timer_adapter_on_can_send_now`; `state` is what the provider answers.
unfoldable pub on_can_send_now : TimerAdapter → ℕ → ControllerState → TimerResult × TimerAdapter
unfolding send_neutral_report schedule_next_timer cancel_pending_timer on_reply on_tick
on_can_send_now a time_ms state =
    if not a.running
    then (stopped, a)
    else if a.neutral_send_pending
    then on_neutral (send_neutral_report a) time_ms
    else if ltb 0 a.reply_queue.count
    then on_reply a time_ms
    else if not a.can_send_pending
    then (not_due, a)
    else if ltb (now_us time_ms) a.periodic_holdoff_until_us
    then (ok, schedule_next_timer (record a { can_send_pending = false }) (now_us time_ms))
    else on_tick a time_ms state

-- `swbt_btstack_input_report_timer_adapter_enqueue_subcommand_reply`.
unfoldable pub enqueue_subcommand_reply :
    TimerAdapter → ℕ → Option Buffer → ℕ → TimerResult × TimerAdapter
unfolding map_reply_queue_result enqueue
enqueue_subcommand_reply a hid_cid report report_size =
    if not a.initialized
    then (invalid_argument, a)
    else if not a.running
    then (stopped, a)
    else (let (result, queue) = enqueue a.reply_queue hid_cid report report_size in
        let a' = record a { reply_queue = queue } in
        elim result [
          | QueueResult.ok ↦ (ok, effect (request_can_send_now hid_cid) a')
          | other ↦ (map_reply_queue_result other, a')
        ])

abbrev pub after_neutral_now : TimerResult × TimerAdapter → TimerResult × TimerAdapter
after_neutral_now (ok, a) = (ok, record a { neutral_send_pending = false })
after_neutral_now (other, a) =
    (pending, effect (request_can_send_now a.hid_cid) (record a { neutral_send_pending = true }))

-- `swbt_btstack_input_report_timer_adapter_send_neutral_now`.
unfoldable pub send_neutral_now : TimerAdapter → TimerResult × TimerAdapter
unfolding send_neutral_report
send_neutral_now a =
    if not a.running then (stopped, a) else after_neutral_now (send_neutral_report a)

-- `swbt_btstack_input_report_timer_adapter_stop`.
unfoldable pub stop : TimerAdapter → TimerAdapter
unfolding cancel_pending_timer ReplyQueue.init Scheduler.stop
stop a =
    let cancelled = cancel_pending_timer a in
    record cancelled {
      can_send_pending = false;
      neutral_send_pending = false;
      periodic_holdoff_until_us = 0;
      running = false;
      reply_queue = ReplyQueue.init a.reply_queue;
      scheduler = Scheduler.stop a.scheduler;
    }
