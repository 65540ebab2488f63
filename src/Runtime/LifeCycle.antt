-- ===== src/Runtime/LifeCycle.antt =====
-- The order of the backend's calls over the life of a host: swbt/runtime/host.c.
use swbt_daemon.Common.{
  ℕ, ◌≡◌, Bool, true, false, ◌&&◌, ◌||◌, not, Option, none, some, List, [], ◌∷◌, arith,
}
use swbt_daemon.Common.Int.{ℤ}
use swbt_daemon.Switch.DeviceInfo.{DeviceInfo}
use swbt_daemon.Switch.Subcommand.{OutputReport}
use swbt_daemon.Switch.Dispatcher.{Response, Action, no_action, reply}
use swbt_daemon.Domain.App.{Domain, DomainResult}
use swbt_daemon.Domain.Records.{handle_output_report}
use swbt_daemon.Runtime.{
  Call, hid_register, hid_stop, output_handler_start, output_handler_stop, report_timer_start,
  report_timer_stop, report_timer_send_neutral_now, subcommand_reply_enqueue, Host, store_neutral,
  stop_timer, stop_handler, stop_hid, stop, start_timer, start, send_neutral_now, enqueue_reply,
  enqueue_response, chosen_info, on_output_report,
}

-- Whether a part is up after the calls, the last one first.
abbrev pub hid_up : List Call → Bool
hid_up [] = false
hid_up (hid_register true ∷ cs) = true
hid_up (hid_stop ∷ cs) = false
hid_up (c ∷ cs) = hid_up cs

abbrev pub handler_up : List Call → Bool
handler_up [] = false
handler_up (output_handler_start ∷ cs) = true
handler_up (output_handler_stop ∷ cs) = false
handler_up (c ∷ cs) = handler_up cs

abbrev pub timer_up : List Call → Bool
timer_up [] = false
timer_up (report_timer_start true ∷ cs) = true
timer_up (report_timer_stop ∷ cs) = false
timer_up (c ∷ cs) = timer_up cs

-- Whether a call may follow the calls before it: the parts come up one on top of the other and go
-- down in the opposite order, and nothing is stopped that is not up.
abbrev pub allowed : Call → List Call → Bool
allowed (hid_register done) cs = not (hid_up cs)
allowed hid_stop cs = hid_up cs && not (handler_up cs)
allowed output_handler_start cs = hid_up cs && not (handler_up cs)
allowed output_handler_stop cs = handler_up cs && not (timer_up cs)
allowed (report_timer_start done) cs = handler_up cs && not (timer_up cs)
allowed report_timer_stop cs = timer_up cs
allowed report_timer_send_neutral_now cs = timer_up cs
allowed (subcommand_reply_enqueue cid report size) cs = true

abbrev pub all_allowed : List Call → Bool
all_allowed [] = true
all_allowed (c ∷ cs) = allowed c cs && all_allowed cs

-- A host whose flags tell which parts are up, all of them while it runs and none otherwise, and
-- whose calls were allowed.
pub record IsOrderly (host : Host) : Type 0 where
  pub hid_flag : host.hid_registered ≡ host.running
  pub handler_flag : host.output_handler_started ≡ host.running
  pub timer_flag : host.report_timer_started ≡ host.running
  pub hid_known : hid_up host.calls ≡ host.running
  pub handler_known : handler_up host.calls ≡ host.running
  pub timer_known : timer_up host.calls ≡ host.running
  pub initialized_first : (host.initialized || not host.running) ≡ true
  pub calls_allowed : all_allowed host.calls ≡ true

stop-IsOrderly : (host : Host) → IsOrderly host → IsOrderly (stop host)
unfolding stop store_neutral stop_timer stop_handler stop_hid
stop-IsOrderly host h = record {
  hid_flag = ground arith;
  handler_flag = ground arith;
  timer_flag = ground arith;
  hid_known = ground arith;
  handler_known = ground arith;
  timer_known = ground arith;
  initialized_first = ground arith;
  calls_allowed = ground arith;
}

pub start-IsOrderly :
    (host : Host) (hid timer : ℤ) → IsOrderly host → IsOrderly (start host hid timer).1
unfolding start start_timer stop store_neutral stop_timer stop_handler stop_hid
start-IsOrderly host hid timer h = record {
  hid_flag = ground arith;
  handler_flag = ground arith;
  timer_flag = ground arith;
  hid_known = ground arith;
  handler_known = ground arith;
  timer_known = ground arith;
  initialized_first = ground arith;
  calls_allowed = ground arith;
}

send_neutral_now-IsOrderly :
    (host : Host) (answer : ℤ) → IsOrderly host → IsOrderly (send_neutral_now host answer).1
unfolding send_neutral_now store_neutral
send_neutral_now-IsOrderly host answer h = record {
  hid_flag = ground arith;
  handler_flag = ground arith;
  timer_flag = ground arith;
  hid_known = ground arith;
  handler_known = ground arith;
  timer_known = ground arith;
  initialized_first = ground arith;
  calls_allowed = ground arith;
}

with_app-IsOrderly :
    (host : Host) (app : Option Domain) → IsOrderly host → IsOrderly (record host { app = app })
with_app-IsOrderly host app h = record {
  hid_flag = h.hid_flag;
  handler_flag = h.handler_flag;
  timer_flag = h.timer_flag;
  hid_known = h.hid_known;
  handler_known = h.handler_known;
  timer_known = h.timer_known;
  initialized_first = h.initialized_first;
  calls_allowed = h.calls_allowed;
}

response-IsOrderly :
    (host : Host) (cid : ℕ) (response : Response) (action : Action)
    → IsOrderly host
    → IsOrderly (enqueue_response cid response action host)
response-IsOrderly host cid response no_action h = h
response-IsOrderly host cid response reply h = record {
  hid_flag = h.hid_flag;
  handler_flag = h.handler_flag;
  timer_flag = h.timer_flag;
  hid_known = h.hid_known;
  handler_known = h.handler_known;
  timer_known = h.timer_known;
  initialized_first = h.initialized_first;
  calls_allowed = h.calls_allowed;
}

reply-IsOrderly :
    (host : Host) (cid : ℕ) (result : DomainResult) (response : Option Response)
    → IsOrderly host
    → IsOrderly (enqueue_reply cid result response host)
reply-IsOrderly host cid DomainResult.ok none h = h
reply-IsOrderly host cid DomainResult.ok (some response) h =
    response-IsOrderly host cid response response.action h
reply-IsOrderly host cid DomainResult.invalid_argument response h = h
reply-IsOrderly host cid DomainResult.owner_busy response h = h
reply-IsOrderly host cid DomainResult.not_owner response h = h
reply-IsOrderly host cid DomainResult.stale_sequence response h = h

-- What the owner of a host and its backend's events do with it.
pub data Step : Type 0 where
  starts : ℤ → ℤ → Step
  stops : Step
  sends_neutral : ℤ → Step
  gets_report : ℕ → OutputReport → Option (ℤ × DeviceInfo) → ℕ → Response → Step

abbrev pub do_step : Host → Step → Host
do_step host (starts hid timer) = (start host hid timer).1
do_step host stops = stop host
do_step host (sends_neutral answer) = (send_neutral_now host answer).1
do_step host (gets_report cid report info at memory) =
    on_output_report host cid report info at memory

step-IsOrderly : (host : Host) (s : Step) → IsOrderly host → IsOrderly (do_step host s)
unfolding on_output_report
step-IsOrderly host (starts hid timer) h = start-IsOrderly host hid timer h
step-IsOrderly host stops h = stop-IsOrderly host h
step-IsOrderly host (sends_neutral answer) h = send_neutral_now-IsOrderly host answer h
step-IsOrderly host (gets_report cid report info at memory) h =
    let handled =
      handle_output_report host.app (some report) (some host.report_options)
        (some (chosen_info host.device_info info)) at (some memory) in
    reply-IsOrderly (record host { app = handled.1 }) cid (handled.0) (handled.2)
      (with_app-IsOrderly host (handled.1) h)

abbrev pub do_steps : Host → List Step → Host
do_steps host [] = host
do_steps host (s ∷ ss) = do_steps (do_step host s) ss

-- However a host is started and stopped, whatever its backend answers and in whatever order: its
-- flags tell which parts of the backend are up, which are all of them or none, and every call of
-- the backend was allowed by those before it.
pub steps-IsOrderly : (host : Host) (ss : List Step) → IsOrderly host → IsOrderly (do_steps host ss)
steps-IsOrderly host [] h = h
steps-IsOrderly host (s ∷ ss) h = steps-IsOrderly (do_step host s) ss (step-IsOrderly host s h)
