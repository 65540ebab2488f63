-- ===== src/Domain/Calls/Counting.antt =====
-- Every submitted state is counted once, as accepted or as rejected.
use swbt_daemon.Common.{ℕ, ◌+◌, ◌%◌, ◌^◌, ◌≡◌, Option, none, some, arith, List, [], ◌∷◌}
use swbt_daemon.Support.Metrics
use swbt_daemon.Support.Metrics.{Metrics, SendResult}
use swbt_daemon.Domain.Lease
use swbt_daemon.Domain.App.{Domain, RevokeReason, release, disconnect}
use swbt_daemon.Domain.App
use swbt_daemon.Domain.Records
use swbt_daemon.Domain.Calls.{
  Call, acquire, set_state, revoke, set_daemon_status, set_daemon_lifecycle, set_hardware_approval,
  set_hardware_status, record_report_tick, record_state_update_rejected, record_rumble,
  handle_output_report, step, run,
}

-- The updates that have been judged.
abbrev pub judged : Domain → ℕ
judged app = app.metrics.snapshot.ipc_state_accepted + app.metrics.snapshot.ipc_state_rejected

-- The updates that a call brings: a state from a client, or a refusal recorded from outside.
abbrev pub brings : Call → ℕ
brings (set_state client (some s) n) = 1
brings record_state_update_rejected = 1
brings _ = 0

abbrev pub brought : List Call → ℕ
brought [] = 0
brought (c ∷ cs) = brings c + brought cs

-- The count after a call, modulo the width of the counters.
abbrev pub Counts : ℕ → Option Domain → Type 0
Counts n none = ⊥
Counts n (some app) = judged app % 2 ^ 64 ≡ n % 2 ^ 64

step-Counts : (app : Domain) (c : Call) → Counts (judged app + brings c) (step (some app) c).1
unfolding step
step-Counts app (acquire client) = unfold App.acquire in ground arith
step-Counts app (set_state client none n) = unfold App.set_state in ground arith
step-Counts app (set_state client (some s) n) =
    unfold App.set_state Metrics.record_state_update_accepted Metrics.record_state_update_rejected
      Lease.accept_sequence Lease.snapshot in
    ground arith
step-Counts app (revoke release client) = unfold App.revoke in ground arith
step-Counts app (revoke disconnect client) = unfold App.revoke in ground arith
step-Counts app (revoke _ client) = unfold App.revoke in ground arith
step-Counts app (set_daemon_status none) = unfold Records.set_daemon_status in ground arith
step-Counts app (set_daemon_status (some s)) = unfold Records.set_daemon_status in ground arith
step-Counts app (set_daemon_lifecycle s) = unfold Records.set_daemon_lifecycle in ground arith
step-Counts app (set_hardware_approval s) = unfold Records.set_hardware_approval in ground arith
step-Counts app (set_hardware_status none) = unfold Records.set_hardware_status in ground arith
step-Counts app (set_hardware_status (some s)) = unfold Records.set_hardware_status in ground arith
step-Counts app (record_report_tick now r) =
    unfold Records.record_report_tick Metrics.record_report_tick in ground arith
step-Counts app record_state_update_rejected =
    unfold Records.record_state_update_rejected Metrics.record_state_update_rejected in ground arith
step-Counts app (record_rumble none at) = unfold Records.record_rumble in ground arith
step-Counts app (record_rumble (some p) at) = unfold Records.record_rumble in ground arith
step-Counts app (handle_output_report output options info at response) =
    unfold Records.handle_output_report in ground arith

-- After any calls the accepted and the rejected updates together are those judged before and those
-- that the calls brought, modulo 2 ^ 64: no submitted state is lost or counted twice.
pub run-Counts :
    (cs : List Call) (app : Domain) → Counts (judged app + brought cs) (run (some app) cs)
unfolding run
run-Counts [] app = ground arith
run-Counts (c ∷ cs) app =
    from_step (step (some app) c).1 (step-Counts app c) (λ app'. run-Counts cs app')
  where
    from_step :
        (next : Option Domain)
        → Counts (judged app + brings c) next
        → ((app' : Domain) → Counts (judged app' + brought cs) (run (some app') cs))
        → Counts (judged app + brought (c ∷ cs)) (run next cs)
    from_step none s rest = absurd s
    from_step (some app') s rest = finish (run (some app') cs) (rest app')
      where
        finish :
            (o : Option Domain)
            → Counts (judged app' + brought cs) o
            → Counts (judged app + brought (c ∷ cs)) o
        finish none t = t
        finish (some app'') t = omega arith
