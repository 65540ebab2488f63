-- ===== src/Bridge/Timer/Neutral.antt =====
-- A neutral report that waits for its turn, in the timer adapter.
use swbt_daemon.Common.{
  ap, ◌∙◌, sym, subst, inl, inr, ◌==◌, ℕ, zero, suc, ◌+◌, ◌%◌, ◌≡◌, ◌≢◌, ◌⊎◌, refl, true, false,
  if◌then◌else◌, ltb, ◌∷◌, arith,
}
use swbt_daemon.Common.Buffer.{Buffer}
use swbt_daemon.Common.Int.{ℤ, pos, negsuc}
use swbt_daemon.Switch.State.{ControllerState, neutral}
use swbt_daemon.Switch.Report.{ReportOptions, write_report, build_standard_full_report}
use swbt_daemon.Bridge.Timer.{
  TimerAdapter, TimerResult, ok, scheduler_error, sent, set_timer, remove_timer,
  request_can_send_now, effect, now_us, delay_ms_until, schedule_next_timer, cancel_pending_timer,
}
use swbt_daemon.Bridge.Timer.Send.{
  uses_shared_timer, hidp_message, shared_timer_after, next_timer, after_neutral,
  send_hidp_input_report, send_neutral_report,
}
use swbt_daemon.Bridge.Timer.Handlers.{on_neutral, on_can_send_now}

abbrev neutral_scratch : TimerAdapter → Buffer
neutral_scratch a =
    write_report neutral (record (a.scheduler.report_options) { timer = a.scheduler.timer })
      a.scheduler.scratch

-- The message of the neutral report that an adapter sends next.
abbrev pub neutral_message : TimerAdapter → Buffer
neutral_message a = hidp_message a.scheduler.timer (neutral_scratch a) 49

abbrev neutral_sent : TimerAdapter → TimerAdapter
neutral_sent a = record (effect (sent a.hid_cid (neutral_message a) 50) a) {
  scheduler = record (a.scheduler) { scratch = neutral_scratch a };
}

full_report-id :
    (state : ControllerState) (options : ReportOptions) (out : Buffer)
    → write_report state options out 0 ≡ 0x30
unfolding write_report
full_report-id state options out = refl

timer_kept : (answer : ℤ) (timer : ℕ) → shared_timer_after false answer timer ≡ timer
timer_kept (pos n) timer = ground arith
timer_kept (negsuc n) timer = refl

full_report-unshared : (report : Buffer) → report 0 ≡ 0x30 → uses_shared_timer report 49 ≡ false
full_report-unshared report h = ground arith

timer_unshared :
    (report : Buffer)
    → report 0 ≡ 0x30
    → (answer : ℤ) (timer : ℕ)
    → shared_timer_after (uses_shared_timer report 49) answer timer ≡ timer
timer_unshared report h answer timer = rw (full_report-unshared report h) (timer_kept answer timer)

-- A full report leaves the timer to the scheduler.
send_full :
    (a : TimerAdapter) (hid_cid : ℕ) (report : Buffer)
    → report 0 ≡ 0x30
    → let message = hidp_message a.scheduler.timer report 49 in
      send_hidp_input_report a hid_cid report 49
      ≡ (a.sender hid_cid message 50, effect (sent hid_cid message 50) a)
unfolding send_hidp_input_report
send_full a hid_cid report h =
    ap (with_timer (a.sender hid_cid message 50))
      (timer_unshared report h (a.sender hid_cid message 50) a.scheduler.timer)
  where
    message : Buffer
    message = hidp_message a.scheduler.timer report 49

    with_timer : ℤ → ℕ → ℤ × TimerAdapter
    with_timer answer timer = (
      answer,
      record (effect (sent hid_cid message 50) a) {
        scheduler = record (a.scheduler) { timer = timer };
      },
    )

send_neutral_report-eq :
    (a : TimerAdapter)
    → send_neutral_report a
      ≡ after_neutral (a.sender a.hid_cid (neutral_message a) 50, neutral_sent a)
unfolding send_neutral_report build_standard_full_report
send_neutral_report-eq a = ap after_neutral (
    send_full (record a { scheduler = record (a.scheduler) { scratch = neutral_scratch a } })
      a.hid_cid (neutral_scratch a)
      (full_report-id neutral (record (a.scheduler.report_options) { timer = a.scheduler.timer })
        a.scheduler.scratch))

turn-neutral :
    (a : TimerAdapter) (time_ms : ℕ) (state : ControllerState)
    → a.running ≡ true
    → a.neutral_send_pending ≡ true
    → on_can_send_now a time_ms state ≡ on_neutral (send_neutral_report a) time_ms
unfolding on_can_send_now
turn-neutral a time_ms state r n = ground arith

cancel-eq :
    (b : TimerAdapter)
    → cancel_pending_timer b ≡ record b {
      timer_pending = false;
      effects = if b.timer_pending then remove_timer ∷ b.effects else b.effects;
    }
unfolding cancel_pending_timer
cancel-eq b = ground arith

suc_not_zero : (k : ℕ) → (suc k == 0) ≡ false
suc_not_zero k = ground arith

no_pause : (next_deadline : ℕ) → ltb next_deadline 0 ≡ false
no_pause next_deadline = ground arith

unfoldable neutral_done : TimerAdapter → ℕ → ℕ → TimerAdapter
neutral_done b now deadline = record b {
  neutral_send_pending = false;
  can_send_pending = false;
  periodic_holdoff_until_us = 0;
  timer_pending = true;
  effects =
      set_timer (delay_ms_until now deadline)
      ∷ (if b.timer_pending then remove_timer ∷ b.effects else b.effects);
}

on_neutral-ok :
    (b : TimerAdapter) (time_ms : ℕ)
    → on_neutral (ok, b) time_ms
      ≡ (ok, neutral_done b (now_us time_ms) b.scheduler.next_deadline_us)
unfolding schedule_next_timer neutral_done
on_neutral-ok b time_ms =
    ap (λ c. (ok, schedule_next_timer c (now_us time_ms)))
      (cancel-eq (record b {
        neutral_send_pending = false;
        can_send_pending = false;
        periodic_holdoff_until_us = 0;
      }))
    ∙ ap
        (λ late.
          (ok, neutral_done b (now_us time_ms) (if late then 0 else b.scheduler.next_deadline_us)))
        (no_pause b.scheduler.next_deadline_us)

after_neutral-refused :
    (k : ℕ) (b : TimerAdapter) → after_neutral (pos (suc k), b) ≡ (scheduler_error, b)
after_neutral-refused k b =
    ap (λ taken. if taken then (ok, next_timer b) else (scheduler_error, b)) (suc_not_zero k)

-- What a turn makes of a neutral report that waits, by the answer of the stack.
abbrev pub NeutralTurn : TimerAdapter → ℕ → ℤ → TimerResult × TimerAdapter → Type 0
NeutralTurn a time_ms answer (result, a') =
    let out = sent a.hid_cid (neutral_message a) 50 ∷ a.effects in
    let delay = delay_ms_until (now_us time_ms) a.scheduler.next_deadline_us in
    (a'.reply_queue ≡ a.reply_queue)
    × (((answer ≡ pos 0)
          × (result ≡ ok)
          × (a'.neutral_send_pending ≡ false)
          × (a'.periodic_holdoff_until_us ≡ 0)
          × (a'.scheduler.timer ≡ (a.scheduler.timer + 1) % 256)
          × (a'.timer_pending ≡ true)
          × (a'.effects ≡ set_timer delay ∷ (if a.timer_pending then remove_timer ∷ out else out)))
        ⊎ ((answer ≢ pos 0)
            × (result ≡ scheduler_error)
            × (a'.neutral_send_pending ≡ true)
            × (a'.effects ≡ request_can_send_now a.hid_cid ∷ out)))

-- The turn to send goes to a neutral report that waits, before every reply and every periodic
-- report: the adapter sends it once, to its channel, and the queue of replies stays. When the stack
-- takes it, the neutral report waits no longer, the pause after a reply ends, the timer byte goes
-- up by one, modulo 256, and the timer is set anew for the next deadline; otherwise the neutral
-- report still waits and another turn was asked for.
pub neutral_first :
    (a : TimerAdapter) (time_ms : ℕ) (state : ControllerState)
    → a.running ≡ true
    → a.neutral_send_pending ≡ true
    → NeutralTurn a time_ms
        (a.sender a.hid_cid (neutral_message a) 50)
        (on_can_send_now a time_ms state)
neutral_first a time_ms state r n =
    rw (turn-neutral a time_ms state r n)
      (rw (send_neutral_report-eq a) (by_answer (a.sender a.hid_cid (neutral_message a) 50)))
  where
    by_answer :
        (answer : ℤ)
        → NeutralTurn a time_ms answer (on_neutral (after_neutral (answer, neutral_sent a)) time_ms)
    by_answer (pos zero) =
        subst (NeutralTurn a time_ms (pos 0))
          (sym (on_neutral-ok (next_timer (neutral_sent a)) time_ms))
          (unfold neutral_done in (refl, inl (refl, refl, refl, refl, refl, refl, refl)))
    by_answer (pos (suc k)) =
        subst (NeutralTurn a time_ms (pos (suc k)))
          (sym (ap (λ b. on_neutral b time_ms) (after_neutral-refused k (neutral_sent a))))
          (refl, inr (ground arith, refl, n, refl))
    by_answer (negsuc k) = (refl, inr (ground arith, refl, n, refl))
