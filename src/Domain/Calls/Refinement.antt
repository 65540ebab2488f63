-- ===== src/Domain/Calls/Refinement.antt =====
-- The domain's contract: one holder of the lease and one controller state. What each call does to
-- these is stated here without the lease's fields, and the domain implements it.
use swbt_daemon.Common.{
  ℕ, ◌≡◌, refl, ◌&&◌, ltb, leb, ◌==◌, if◌then◌else◌, Option, none, some, arith, List, [], ◌∷◌,
}
use swbt_daemon.Switch.State.{ControllerState, neutral}
use swbt_daemon.Domain.Lease.{Lease}
use swbt_daemon.Domain.Lease
use swbt_daemon.Domain.Lease.Ownership.{Holder, holder, IsValid}
use swbt_daemon.Domain.App.{
  Domain, DomainResult, RevokeReason, ok, invalid_argument, owner_busy, not_owner, stale_sequence,
  release, disconnect, heartbeat_timeout, shutdown, other,
}
use swbt_daemon.Domain.App
use swbt_daemon.Domain.Records
use swbt_daemon.Domain.Calls.{
  Call, acquire, set_state, revoke, set_daemon_status, set_daemon_lifecycle, set_hardware_approval,
  set_hardware_status, record_report_tick, record_state_update_rejected, record_rumble,
  handle_output_report, step,
}

-- What a client can tell of the domain: who holds it, with its last sequence, and the state that
-- is sent to the console.
pub record View : Type 0 where
  pub held : Holder
  pub state : ControllerState

abbrev pub view : Domain → View
view app = record { held = holder app.lease; state = app.state }

abbrev pub free : View
free = record { held = none; state = neutral }

-- Ending a client's lease: its holder's end frees the controller, any other changes nothing.
abbrev pub end_of : View → ℕ → Holder → View
end_of v client none = v
end_of v client (some (owner, last)) = if owner == client then free else v

-- Whoever is first gets the lease.
abbrev pub after_acquire : View → ℕ → Holder → View
after_acquire v client none = record v { held = some (client, 0) }
after_acquire v client (some (owner, last)) = v

-- Only the holder sets the state, with a sequence that does not go back.
abbrev pub after_set : View → ℕ → ControllerState → ℕ → Holder → View
after_set v client s n none = v
after_set v client s n (some (owner, last)) =
    if owner == client && leb last n then record { held = some (owner, n); state = s } else v

-- What a call does.
abbrev pub spec : View → Call → View
spec v (acquire client) = after_acquire v client v.held
spec v (set_state client none n) = v
spec v (set_state client (some s) n) = after_set v client s n v.held
spec v (revoke release client) = end_of v client v.held
spec v (revoke disconnect client) = end_of v client v.held
spec v (revoke heartbeat_timeout client) = end_of v client v.held
spec v (revoke shutdown client) = free
spec v (revoke other client) = v
spec v _ = v

abbrev pub spec_run : View → List Call → View
spec_run v [] = v
spec_run v (c ∷ cs) = spec_run (spec v c) cs

-- What the calls about the lease and the state answer; the others answer for themselves.
abbrev pub answer_to_end : ℕ → Holder → DomainResult
answer_to_end client none = not_owner
answer_to_end client (some (owner, last)) = if owner == client then ok else not_owner

abbrev pub answer_to_acquire : ℕ → Holder → DomainResult
answer_to_acquire client none = ok
answer_to_acquire client (some (owner, last)) = if owner == client then ok else owner_busy

abbrev pub answer_to_set : ℕ → ℕ → Holder → DomainResult
answer_to_set client n none = not_owner
answer_to_set client n (some (owner, last)) =
    if owner == client then (if ltb n last then stale_sequence else ok) else not_owner

abbrev pub answer : View → Call → DomainResult → DomainResult
answer v (acquire client) given = answer_to_acquire client v.held
answer v (set_state client none n) given = invalid_argument
answer v (set_state client (some s) n) given = answer_to_set client n v.held
answer v (revoke release client) given = answer_to_end client v.held
answer v (revoke disconnect client) given = ok
answer v (revoke heartbeat_timeout client) given = ok
answer v (revoke shutdown client) given = ok
answer v (revoke other client) given = invalid_argument
answer v _ given = given

-- The domain exists, shows the view, and its lease is valid.
abbrev pub Shows : View → Option Domain → Type 0
Shows v none = ⊥
Shows v (some app) = (view app ≡ v) × IsValid app.lease

-- Every call of a domain with a valid lease does to its view what the contract says, answers what
-- the contract says, and leaves the lease valid.
pub step_refines :
    (app : Domain) (c : Call)
    → IsValid app.lease
    → let (result, app') = step (some app) c in
      Shows (spec (view app) c) app' × (result ≡ answer (view app) c result)
unfolding step
step_refines app (acquire client) v = unfold App.acquire Lease.acquire in ground arith
step_refines app (set_state client none n) v = unfold App.set_state in ground arith
step_refines app (set_state client (some s) n) v =
    unfold App.set_state Lease.accept_sequence Lease.snapshot in ground arith
step_refines app (revoke release client) v = unfold App.revoke Lease.release in ground arith
step_refines app (revoke disconnect client) v =
    unfold App.revoke Lease.revoke_if_owner in ground arith
step_refines app (revoke heartbeat_timeout client) v =
    unfold App.revoke Lease.revoke_if_owner in ground arith
step_refines app (revoke shutdown client) v = unfold App.revoke Lease.revoke in ground arith
step_refines app (revoke other client) v = unfold App.revoke in ground arith
step_refines app (set_daemon_status none) v = unfold Records.set_daemon_status in ((refl, v), refl)
step_refines app (set_daemon_status (some s)) v =
    unfold Records.set_daemon_status in ((refl, v), refl)
step_refines app (set_daemon_lifecycle s) v =
    unfold Records.set_daemon_lifecycle in ((refl, v), refl)
step_refines app (set_hardware_approval s) v =
    unfold Records.set_hardware_approval in ((refl, v), refl)
step_refines app (set_hardware_status none) v =
    unfold Records.set_hardware_status in ((refl, v), refl)
step_refines app (set_hardware_status (some s)) v =
    unfold Records.set_hardware_status in ((refl, v), refl)
step_refines app (record_report_tick now r) v =
    unfold Records.record_report_tick in ((refl, v), refl)
step_refines app record_state_update_rejected v =
    unfold Records.record_state_update_rejected in ((refl, v), refl)
step_refines app (record_rumble none at) v = unfold Records.record_rumble in ((refl, v), refl)
step_refines app (record_rumble (some p) at) v = unfold Records.record_rumble in ((refl, v), refl)
step_refines app (handle_output_report output options info at response) v =
    unfold Records.handle_output_report in ground arith
