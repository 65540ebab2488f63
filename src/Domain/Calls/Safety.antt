-- ===== src/Domain/Calls/Safety.antt =====
-- What no sequence of calls can break.
use swbt_daemon.Common.{
  ℕ, ◌≤◌, ◌≡◌, ◌≢◌, refl, sym, ap, subst, ◌⊎◌, inl, inr, true, false, ◌&&◌, leb, Bool-cases, ◌==◌,
  Option, none, some, arith, List, [], ◌∷◌,
}
use swbt_daemon.Switch.State.{ControllerState, neutral}
use swbt_daemon.Switch.Spi
use swbt_daemon.Switch.SpiSeed
use swbt_daemon.Switch.SpiSeed.Apply.{apply-all_or_nothing}
use swbt_daemon.Domain.Lease
use swbt_daemon.Domain.Lease.Ownership.{Holder, IsValid}
use swbt_daemon.Domain.App.{
  Domain, ok, release, disconnect, heartbeat_timeout, shutdown, other, create, init, init_spi,
  initial, init_result, kept,
}
use swbt_daemon.Domain.Calls.{
  Call, acquire, set_state, revoke, set_daemon_status, set_daemon_lifecycle, set_hardware_approval,
  set_hardware_status, record_report_tick, record_state_update_rejected, record_rumble,
  handle_output_report, step, run,
}
use swbt_daemon.Domain.Calls.Refinement.{
  View, view, free, spec, spec_run, Shows, step_refines, after_set,
}

-- Any number of calls does to the view what the contract says of them one by one.
pub run_refines :
    (cs : List Call) (app : Domain)
    → IsValid app.lease
    → Shows (spec_run (view app) cs) (run (some app) cs)
unfolding run
run_refines [] app v = (refl, v)
run_refines (c ∷ cs) app v =
    from_step (step (some app) c).1 (step_refines app c v).0 (λ app' v'. run_refines cs app' v')
  where
    from_step :
        (next : Option Domain)
        → Shows (spec (view app) c) next
        → ((app' : Domain)
            → IsValid app'.lease
            → Shows (spec_run (view app') cs) (run (some app') cs))
        → Shows (spec_run (spec (view app) c) cs) (run next cs)
    from_step none s rest = absurd s
    from_step (some app') s rest =
        subst (λ w. Shows (spec_run w cs) (run (some app') cs)) s.0 (rest app' s.1)

-- A free controller is neutral.
abbrev pub IsSafe : View → Type 0
IsSafe v = (v.held ≢ none) ⊎ (v.state ≡ neutral)

spec-IsSafe : (v : View) (c : Call) → IsSafe v → IsSafe (spec v c)
spec-IsSafe v (acquire client) s = ground arith
spec-IsSafe v (set_state client none n) s = s
spec-IsSafe v (set_state client (some st) n) s = ground arith
spec-IsSafe v (revoke release client) s = ground arith
spec-IsSafe v (revoke disconnect client) s = ground arith
spec-IsSafe v (revoke heartbeat_timeout client) s = ground arith
spec-IsSafe v (revoke shutdown client) s = inr refl
spec-IsSafe v (revoke other client) s = s
spec-IsSafe v (set_daemon_status st) s = s
spec-IsSafe v (set_daemon_lifecycle st) s = s
spec-IsSafe v (set_hardware_approval st) s = s
spec-IsSafe v (set_hardware_status st) s = s
spec-IsSafe v (record_report_tick now r) s = s
spec-IsSafe v record_state_update_rejected s = s
spec-IsSafe v (record_rumble p at) s = s
spec-IsSafe v (handle_output_report output options info at response) s = s

spec_run-IsSafe : (cs : List Call) (v : View) → IsSafe v → IsSafe (spec_run v cs)
spec_run-IsSafe [] v s = s
spec_run-IsSafe (c ∷ cs) v s = spec_run-IsSafe cs (spec v c) (spec-IsSafe v c s)

-- The seed of a fresh domain is accepted.
pub init_spi-ok : init_spi.0 ≡ Spi.SpiResult.ok
unfolding init_spi SpiSeed.dev_profile SpiSeed.validate_profile SpiSeed.validate_fields
    SpiSeed.validate_required_field SpiSeed.validate_extra_entries
init_spi-ok = (apply-all_or_nothing _ SpiSeed.dev_profile).0

-- The domain that a creation gives.
abbrev pub fresh : Domain
fresh = initial init_spi.1

init-ok : init ≡ (ok, fresh)
unfolding init
init-ok = ap (λ r. (init_result r, fresh)) init_spi-ok

-- Creation succeeds whenever there is memory.
pub create-fresh : create true ≡ some fresh
unfolding create
create-fresh = ap (λ r. kept r.0 r.1) init-ok

pub fresh-free : (view fresh ≡ free) × IsValid fresh.lease
unfolding initial Lease.init
fresh-free = (refl, record { blank = inr (refl, refl) })

fresh-IsSafe : IsSafe (view fresh)
unfolding initial
fresh-IsSafe = inr refl

-- After a creation and any calls, of any clients in any order, the controller is neutral whenever
-- nobody holds the lease.
pub free_is_neutral :
    (cs : List Call) (app : Domain)
    → run (create true) cs ≡ some app
    → app.lease.has_owner ≡ false
    → app.state ≡ neutral
free_is_neutral cs app e h = conclude (run (create true) cs) shown e
  where
    shown : Shows (spec_run (view fresh) cs) (run (create true) cs)
    shown = rw create-fresh (run_refines cs fresh fresh-free.1)

    conclude :
        (o : Option Domain)
        → Shows (spec_run (view fresh) cs) o
        → o ≡ some app
        → app.state ≡ neutral
    conclude o s e = ground (arith, spec_run-IsSafe cs (view fresh) fresh-IsSafe)

-- The view after a call, where the call's domain is at hand.
view_after :
    (app : Domain) (c : Call) {app' : Domain}
    → IsValid app.lease
    → (step (some app) c).1 ≡ some app'
    → view app' ≡ spec (view app) c
view_after app c {app'} v e = pick (step (some app) c).1 (step_refines app c v).0 e
  where
    pick :
        (o : Option Domain)
        → Shows (spec (view app) c) o
        → o ≡ some app'
        → view app' ≡ spec (view app) c
    pick none s p = absurd s
    pick (some app'') s p = ground (arith, s.0)

-- The state that a call leaves, in the contract.
abbrev pub StateKept : View → Call → View → Type 0
StateKept v c w =
    (w.state ≡ v.state)
    ⊎ (w.state ≡ neutral)
    ⊎ ((client : ℕ) × (n : ℕ) × (last : ℕ) × (c ≡ set_state client (some w.state) n)
        × (v.held ≡ some (client, last))
        × (last ≤ n))

set_state-StateKept :
    (v : View) (client : ℕ) (s : ControllerState) (n : ℕ)
    → StateKept v (set_state client (some s) n) (spec v (set_state client (some s) n))
set_state-StateKept v client s n = by_holder v.held refl
  where
    by_holder :
        (h : Holder)
        → v.held ≡ h
        → StateKept v (set_state client (some s) n) (after_set v client s n h)
    by_holder none e = inl refl
    by_holder (some (owner, last)) e = elim (Bool-cases (owner == client && leb last n)) [
      | inl y ↦ rw y (inr (inr (client, n, last, refl, ground arith, ground arith)))
      | inr x ↦ rw x (inl refl)
    ]

spec-StateKept : (v : View) (c : Call) → StateKept v c (spec v c)
spec-StateKept v (acquire client) = ground arith
spec-StateKept v (set_state client none n) = inl refl
spec-StateKept v (set_state client (some st) n) = set_state-StateKept v client st n
spec-StateKept v (revoke release client) = ground arith
spec-StateKept v (revoke disconnect client) = ground arith
spec-StateKept v (revoke heartbeat_timeout client) = ground arith
spec-StateKept v (revoke shutdown client) = inr (inl refl)
spec-StateKept v (revoke other client) = inl refl
spec-StateKept v (set_daemon_status st) = inl refl
spec-StateKept v (set_daemon_lifecycle st) = inl refl
spec-StateKept v (set_hardware_approval st) = inl refl
spec-StateKept v (set_hardware_status st) = inl refl
spec-StateKept v (record_report_tick now r) = inl refl
spec-StateKept v record_state_update_rejected = inl refl
spec-StateKept v (record_rumble p at) = inl refl
spec-StateKept v (handle_output_report output options info at response) = inl refl

-- A call changes the controller state only to neutral, or to the state that the holder of the lease
-- submitted with a sequence that is not older than its last.
pub state_changes :
    (app : Domain) (c : Call) (app' : Domain)
    → IsValid app.lease
    → (step (some app) c).1 ≡ some app'
    → StateKept (view app) c (view app')
state_changes app c app' v e =
    subst (StateKept (view app) c) (sym (view_after app c v e)) (spec-StateKept (view app) c)

-- The holder's sequence after a call, in the contract.
abbrev NotBack : Holder → Holder → Type 0
NotBack (some (owner, last)) (some (owner', last')) = (owner' ≡ owner) × (last ≤ last')
NotBack _ _ = Unit

spec-NotBack : (v : View) (c : Call) → NotBack v.held (spec v c).held
spec-NotBack v (set_state client none n) = ground arith
spec-NotBack v (set_state client (some s) n) = ground arith
spec-NotBack v (revoke release client) = ground arith
spec-NotBack v _ = ground arith

-- While the lease is held, one call cannot pass it to another client, and the holder's last sequence
-- never goes back.
pub sequence_monotone :
    (app : Domain) (c : Call) (app' : Domain)
    → IsValid app.lease
    → (step (some app) c).1 ≡ some app'
    → app.lease.has_owner ≡ true
    → app'.lease.has_owner ≡ true
    → (app'.lease.owner_client_id ≡ app.lease.owner_client_id)
      × (app.lease.last_sequence ≤ app'.lease.last_sequence)
sequence_monotone app c app' v e h h' =
    let n = spec-NotBack (view app) c in ground (arith, view_after app c v e)
