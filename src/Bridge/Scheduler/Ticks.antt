-- ===== src/Bridge/Scheduler/Ticks.antt =====
-- What a tick of the schedule sends, and when the next one is due.
use swbt_daemon.Common.{
  ◌∙◌, ℕ, ◌+◌, ◌%◌, ◌^◌, ◌≤◌, ◌<◌, ◌≡◌, ◌≢◌, refl, ◌⊎◌, true, false, some, ◌∷◌, if◌then◌else◌,
  arith,
}
use swbt_daemon.Common.Buffer.{Buffer}
use swbt_daemon.Common.Int.{ℤ, pos, negsuc}
use swbt_daemon.Switch.State.{ControllerState}
use swbt_daemon.Switch.Report.{write_report, build_standard_full_report}
use swbt_daemon.Bridge.Scheduler.{
  Scheduler, Sent, call_send, SendReport, ok, not_due, stopped, send_failed, tick, send_due,
  after_send,
}

-- The one call of the callback that a due tick makes.
abbrev pub call_of : Scheduler → Buffer → Sent
call_of s report = record { hid_cid = s.hid_cid; report = report; size = 49 }

abbrev called : Scheduler → Buffer → Scheduler
called s report = record s { scratch = report; sent = call_of s report ∷ s.sent }

send_due-eq :
    (s : Scheduler) (send : SendReport) (now_us : ℕ) (state : ControllerState)
    → let report = write_report state (record (s.report_options) { timer = s.timer }) s.scratch in
      send_due s send now_us state ≡ after_send (called s report) now_us (send s.hid_cid report 49)
unfolding send_due call_send build_standard_full_report
send_due-eq s send now_us state = refl

tick-send_due :
    (s : Scheduler) (send : SendReport) (now_us : ℕ) (state : ControllerState)
    → s.send_callback ≡ some send
    → 1 ≤ s.report_period_us
    → s.running ≡ true
    → s.next_deadline_us ≤ now_us
    → tick s now_us (some state) ≡ send_due s send now_us state
unfolding tick
tick-send_due s send now_us state c p r h = ground arith

tick-due :
    (s : Scheduler) (send : SendReport) (now_us : ℕ) (state : ControllerState)
    → s.send_callback ≡ some send
    → 1 ≤ s.report_period_us
    → s.running ≡ true
    → s.next_deadline_us ≤ now_us
    → let report = write_report state (record (s.report_options) { timer = s.timer }) s.scratch in
      tick s now_us (some state) ≡ after_send (called s report) now_us (send s.hid_cid report 49)
tick-due s send now_us state c p r h =
    tick-send_due s send now_us state c p r h ∙ send_due-eq s send now_us state

-- A tick at or after the deadline of a running schedule hands the report of the state, with the
-- schedule's timer byte, its 49 bytes and the connection to the callback, in one call and no more.
-- The next deadline lies after now by at most one
-- period, or is exactly one period after the last when that is still ahead; the timer byte goes up
-- by one, modulo 256, exactly when the callback returned 0. Times stay below 2 ^ 64.
pub tick_sends :
    (s : Scheduler) (send : SendReport) (now_us : ℕ) (state : ControllerState)
    → s.send_callback ≡ some send
    → 1 ≤ s.report_period_us
    → s.running ≡ true
    → s.next_deadline_us ≤ now_us
    → now_us + s.report_period_us < 2 ^ 64
    → let report = write_report state (record (s.report_options) { timer = s.timer }) s.scratch in
      let code = send s.hid_cid report 49 in
      let (result, s') = tick s now_us (some state) in
      (((result ≡ ok) × (code ≡ pos 0) × (s'.timer ≡ (s.timer + 1) % 256))
        ⊎ ((result ≡ send_failed) × (code ≢ pos 0) × (s'.timer ≡ s.timer)))
      × (s'.scratch ≡ report)
      × (s'.sent ≡ call_of s report ∷ s.sent)
      × (s'.running ≡ true)
      × (now_us < s'.next_deadline_us)
      × (s'.next_deadline_us ≤ now_us + s.report_period_us)
      × ((s'.next_deadline_us ≡ s.next_deadline_us + s.report_period_us)
          ⊎ ((s.next_deadline_us + s.report_period_us ≤ now_us)
              × (s'.next_deadline_us ≡ now_us + s.report_period_us)))
tick_sends s send now_us state c p r h k = rw (tick-due s send now_us state c p r h) (
    by_code (
      send s.hid_cid (write_report state (record (s.report_options) { timer = s.timer }) s.scratch)
        49))
  where
    by_code :
        (code : ℤ)
        → let report =
            write_report state (record (s.report_options) { timer = s.timer }) s.scratch in
          let (result, s') = after_send (called s report) now_us code in
          (((result ≡ ok) × (code ≡ pos 0) × (s'.timer ≡ (s.timer + 1) % 256))
            ⊎ ((result ≡ send_failed) × (code ≢ pos 0) × (s'.timer ≡ s.timer)))
          × (s'.scratch ≡ report)
          × (s'.sent ≡ call_of s report ∷ s.sent)
          × (s'.running ≡ true)
          × (now_us < s'.next_deadline_us)
          × (s'.next_deadline_us ≤ now_us + s.report_period_us)
          × ((s'.next_deadline_us ≡ s.next_deadline_us + s.report_period_us)
              ⊎ ((s.next_deadline_us + s.report_period_us ≤ now_us)
                  × (s'.next_deadline_us ≡ now_us + s.report_period_us)))
    by_code (pos n) = unfold after_send in ground arith
    by_code (negsuc n) = unfold after_send in ground arith

-- Before the deadline, or when stopped, a tick sends nothing and changes nothing.
pub tick_waits :
    (s : Scheduler) (send : SendReport) (now_us : ℕ) (state : ControllerState)
    → s.send_callback ≡ some send
    → 1 ≤ s.report_period_us
    → (s.running ≡ false) ⊎ (now_us < s.next_deadline_us)
    → tick s now_us (some state) ≡ (if s.running then not_due else stopped, s)
unfolding tick
tick_waits s send now_us state c p h = ground arith
