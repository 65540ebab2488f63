-- ===== src/Runtime/Failure.antt =====
-- A start that fails: swbt/runtime/host.c.
use swbt_daemon.Common.{◌≡◌, refl, ◌∙◌, Bool, true, false, not, if◌then◌else◌, arith}
use swbt_daemon.Common.Int.{ℤ}
use swbt_daemon.Runtime.{
  HostResult, ok, backend, invalid_argument, hid_register, report_timer_start, Host, call, succeeds,
  registered, stop, start_timer, start,
}
use swbt_daemon.Runtime.LifeCycle.{IsOrderly, hid_up, handler_up, timer_up, start-IsOrderly}

stop-running : (host : Host) → host.initialized ≡ true → (stop host).running ≡ false
unfolding stop
stop-running host i = ground arith

start_timer-running :
    (host : Host) (timer : ℤ)
    → host.initialized ≡ true
    → (start_timer host timer).0 ≡ backend
    → (start_timer host timer).1.running ≡ false
unfolding start_timer
start_timer-running host timer i e = by_answer (succeeds timer) e
  where
    called : Host
    called = call (report_timer_start (succeeds timer)) host

    started : Host
    started = record called { report_timer_started = true; running = true }

    outcome : Bool → HostResult × Host
    outcome done = if done then (ok, started) else (backend, stop called)

    by_answer : (done : Bool) → (outcome done).0 ≡ backend → (outcome done).1.running ≡ false
    by_answer true e' = ground arith
    by_answer false e' = stop-running called i

start_fails-running :
    (host : Host) (hid timer : ℤ)
    → (start host hid timer).0 ≡ backend
    → (start host hid timer).1.running ≡ false
unfolding start
start_fails-running host hid timer e =
    by_tests host.initialized host.running (succeeds hid) refl refl e
  where
    outcome : Bool → Bool → Bool → HostResult × Host
    outcome i r s =
        if not i
        then (invalid_argument, host)
        else if r
        then (ok, host)
        else if s
        then start_timer (registered host) timer
        else (backend, call (hid_register false) host)

    by_tests :
        (i r s : Bool)
        → host.initialized ≡ i
        → host.running ≡ r
        → (outcome i r s).0 ≡ backend
        → (outcome i r s).1.running ≡ false
    by_tests false r s ei er e' = ground arith
    by_tests true true s ei er e' = ground arith
    by_tests true false true ei er e' = start_timer-running (registered host) timer ei e'
    by_tests true false false ei er e' = er

-- A start that fails leaves nothing up: the host does not run, and by its calls no part is up.
pub start_fails :
    (host : Host) (hid timer : ℤ)
    → IsOrderly host
    → (start host hid timer).0 ≡ backend
    → ((start host hid timer).1.running ≡ false)
      × (hid_up (start host hid timer).1.calls ≡ false)
      × (handler_up (start host hid timer).1.calls ≡ false)
      × (timer_up (start host hid timer).1.calls ≡ false)
start_fails host hid timer h e =
    let idle = start_fails-running host hid timer e in
    let orderly = start-IsOrderly host hid timer h in
    (idle, orderly.hid_known ∙ idle, orderly.handler_known ∙ idle, orderly.timer_known ∙ idle)
