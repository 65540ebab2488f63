-- ===== src/Bridge/Timer/Holdoff.antt =====
-- The pause of the periodic reports after a reply, as the two events of the loop keep it.
use swbt_daemon.Common.{ℕ, ◌+◌, ◌*◌, ◌^◌, ◌≤◌, ◌<◌, ◌≡◌, ◌⊎◌, true, false, ◌∷◌, arith}
use swbt_daemon.Switch.State.{ControllerState}
use swbt_daemon.Bridge.Timer.{
  TimerAdapter, set_timer, now_us, delay_ms_until, scheduled_deadline_us, schedule_next_timer,
}
use swbt_daemon.Bridge.Timer.Handlers.{on_timer, on_can_send_now}

delay_reaches :
    (now deadline until : ℕ)
    → until ≤ deadline
    → until ≤ now + 300000
    → deadline + 999 < 2 ^ 64
    → until ≤ now + delay_ms_until now deadline * 1000
unfolding delay_ms_until
delay_reaches now deadline until b near k = ground arith

deadline_covers : (a : TimerAdapter) → a.periodic_holdoff_until_us ≤ scheduled_deadline_us a
deadline_covers a = ground arith

-- Before the end of the pause, with no reply and no neutral report waiting, neither event of the
-- loop sends a report or asks the stack for a turn to send: the scheduler, the queue and the end of
-- the pause stay, and nothing is called but the timer, which is set so that it does not expire
-- before the pause ends. A turn that nobody waits for changes nothing at all. The pause is at most
-- the 300 milliseconds that a reply sets, and deadlines stay below 2 ^ 64 - 999.
pub quiet_in_holdoff :
    (a : TimerAdapter) (time_ms : ℕ) (state : ControllerState)
    → a.running ≡ true
    → a.neutral_send_pending ≡ false
    → a.reply_queue.count ≡ 0
    → now_us time_ms < a.periodic_holdoff_until_us
    → a.periodic_holdoff_until_us ≤ now_us time_ms + 300000
    → a.scheduler.next_deadline_us + 999 < 2 ^ 64
    → a.periodic_holdoff_until_us + 999 < 2 ^ 64
    → let woken = (on_timer a time_ms).1 in
      let turned = (on_can_send_now a time_ms state).1 in
      let delay = delay_ms_until (now_us time_ms) (scheduled_deadline_us a) in
      (a.periodic_holdoff_until_us ≤ now_us time_ms + delay * 1000)
      × (woken.scheduler ≡ a.scheduler)
      × (woken.reply_queue ≡ a.reply_queue)
      × (woken.periodic_holdoff_until_us ≡ a.periodic_holdoff_until_us)
      × (woken.effects ≡ set_timer delay ∷ a.effects)
      × (woken.timer_pending ≡ true)
      × (((a.can_send_pending ≡ false) × (turned ≡ a))
          ⊎ ((a.can_send_pending ≡ true) × (turned ≡ record woken { can_send_pending = false })))
unfolding on_timer on_can_send_now schedule_next_timer
quiet_in_holdoff a time_ms state r n q h near k k' = (
  delay_reaches (now_us time_ms) (scheduled_deadline_us a) a.periodic_holdoff_until_us
      (deadline_covers a) near (ground arith),
  ground arith,
  ground arith,
  ground arith,
  ground arith,
  ground arith,
  ground arith,
)
