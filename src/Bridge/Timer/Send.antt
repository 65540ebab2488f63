-- ===== src/Bridge/Timer/Send.antt =====
-- The reports that the adapter sends: the send functions of
-- swbt/btstack_bridge/input_report_timer_adapter.c.
use swbt_daemon.Common.{ℕ, ◌+◌, Bool, ◌&&◌, ◌||◌, some, ltb, ◌==◌, if◌then◌else◌, u8}
use swbt_daemon.Common.Buffer.{Buffer, store, fill}
use swbt_daemon.Common.Int.{ℤ, pos, negsuc}
use swbt_daemon.Switch.State.{neutral}
use swbt_daemon.Switch.Report.{ReportResult, Built, standard_full_size, build_standard_full_report}
use swbt_daemon.Switch.Reply.{reply_report_size}
use swbt_daemon.Bridge.Scheduler.{scratch_after}
use swbt_daemon.Bridge.Timer.{TimerAdapter, TimerResult, ok, scheduler_error, sent, effect}

abbrev pub hidp_input_report_header : ℕ
hidp_input_report_header = 0xA1

-- Whether a report carries the timer that the replies share with the periodic reports.
abbrev pub uses_shared_timer : Buffer → ℕ → Bool
uses_shared_timer report report_size = ltb 1 report_size && report 0 == 0x21

-- The message of a report.
unfoldable pub hidp_message : ℕ → Buffer → ℕ → Buffer
hidp_message timer report report_size =
    let message = fill (store (λ _. 0) 0 hidp_input_report_header) 1 report_size report in
    if uses_shared_timer report report_size then store message 2 timer else message

-- The timer after a send.
abbrev pub shared_timer_after : Bool → ℤ → ℕ → ℕ
shared_timer_after shared (pos n) timer = if n == 0 && shared then u8 (timer + 1) else timer
shared_timer_after shared (negsuc n) timer = timer

-- `send_hidp_input_report`.
unfoldable pub send_hidp_input_report : TimerAdapter → ℕ → Buffer → ℕ → ℤ × TimerAdapter
unfolding hidp_message
send_hidp_input_report a hid_cid report report_size =
    if report_size == 0 || ltb reply_report_size report_size
    then (negsuc 0, a)
    else (let message = hidp_message a.scheduler.timer report report_size in
        let answer = a.sender hid_cid message (report_size + 1) in
        let timer =
          shared_timer_after (uses_shared_timer report report_size) answer a.scheduler.timer in
        (
          answer,
          record (effect (sent hid_cid message (report_size + 1)) a) {
            scheduler = record (a.scheduler) { timer = timer };
          },
        ))

-- `scheduler_send_callback` and `reply_queue_send_callback`: what they answer.
unfoldable pub send_callback : TimerAdapter → ℕ → Buffer → ℕ → ℤ
unfolding send_hidp_input_report
send_callback a hid_cid report report_size = (send_hidp_input_report a hid_cid report report_size).0

abbrev pub next_timer : TimerAdapter → TimerAdapter
next_timer a = record a { scheduler = record (a.scheduler) { timer = u8 (a.scheduler.timer + 1) } }

-- The end of `send_neutral_report`, by the answer of the sender.
abbrev pub after_neutral : ℤ × TimerAdapter → TimerResult × TimerAdapter
after_neutral (pos n, a) = if n == 0 then (ok, next_timer a) else (scheduler_error, a)
after_neutral (negsuc n, a) = (scheduler_error, a)

abbrev pub send_built : TimerAdapter → Built ReportResult → TimerResult × TimerAdapter
send_built a built =
    let scratch = scratch_after a.scheduler.scratch built.out in
    let a' = record a { scheduler = record (a.scheduler) { scratch = scratch } } in
    elim built.result [
      | ReportResult.ok ↦ after_neutral (send_hidp_input_report a' a.hid_cid scratch built.written)
      | _ ↦ (scheduler_error, a')
    ]

-- `send_neutral_report`.
unfoldable pub send_neutral_report : TimerAdapter → TimerResult × TimerAdapter
unfolding send_hidp_input_report
send_neutral_report a =
    let options = record (a.scheduler.report_options) { timer = a.scheduler.timer } in
    send_built a (
      build_standard_full_report (some neutral) (some options) (some a.scheduler.scratch)
        standard_full_size)
