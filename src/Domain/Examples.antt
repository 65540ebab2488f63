-- ===== src/Domain/Examples.antt =====
-- The theorems on the domain at concrete inputs.
use swbt_daemon.Common.{◌+◌, ◌≤◌, ◌≡◌, refl, inl, true, some, List, [], ◌∷◌}
use swbt_daemon.Switch.State.{ControllerState, neutral}
use swbt_daemon.Support.Metrics
use swbt_daemon.Domain.Lease.{Lease}
use swbt_daemon.Domain.Lease
use swbt_daemon.Domain.Lease.Ownership.{IsValid}
use swbt_daemon.Domain.App.{Domain, create, initial, release, disconnect}
use swbt_daemon.Domain.App
use swbt_daemon.Domain.Calls.{
  Call, acquire, set_state, revoke, record_state_update_rejected, step, run,
}
use swbt_daemon.Domain.Calls.Refinement.{Shows, view, spec, answer, step_refines}
use swbt_daemon.Domain.Calls.Safety.{
  fresh, create-fresh, free_is_neutral, StateKept, state_changes, sequence_monotone,
}
use swbt_daemon.Domain.Calls.Counting.{Counts, judged, run-Counts}

abbrev held : Lease
held = record { has_owner = true; owner_client_id = 7; last_sequence = 40 }

held-IsValid : IsValid held
held-IsValid = record { blank = inl refl }

abbrev pressed : ControllerState
pressed = record neutral { buttons = 8 }

-- A domain that client 7 holds.
abbrev busy : Domain
busy = record fresh { lease = held; state = pressed }

-- Client 7 moves on, then its connection ends.
abbrev calls : List Call
calls = set_state 7 (some pressed) 41 ∷ record_state_update_rejected ∷ revoke disconnect 7 ∷ []

step_refines_example :
    let (result, app') = step (some busy) (set_state 7 (some pressed) 41) in
    Shows (spec (view busy) (set_state 7 (some pressed) 41)) app'
    × (result ≡ answer (view busy) (set_state 7 (some pressed) 41) result)
step_refines_example = step_refines busy (set_state 7 (some pressed) 41) held-IsValid

run-Counts_example : Counts (judged busy + 2) (run (some busy) calls)
run-Counts_example = run-Counts calls busy

-- A lease that is taken and given back.
abbrev visit : List Call
visit = acquire 7 ∷ revoke release 7 ∷ []

after_visit : run (create true) visit ≡ some fresh
after_visit = rw create-fresh (
    unfold run step App.acquire App.revoke App.apply_neutral Lease.acquire Lease.release initial
      Lease.init in
    refl)

free_is_neutral_example : fresh.state ≡ neutral
free_is_neutral_example =
    free_is_neutral visit fresh after_visit (unfold initial Lease.init in refl)

-- Client 7's next state, accepted and counted.
abbrev moved : Domain
moved = record busy {
  lease = record held { last_sequence = 41 };
  metrics = Metrics.record_state_update_accepted busy.metrics 0;
}

busy-moved : (step (some busy) (set_state 7 (some pressed) 41)).1 ≡ some moved
busy-moved = unfold step App.set_state Lease.accept_sequence Lease.snapshot in refl

state_changes_example : StateKept (view busy) (set_state 7 (some pressed) 41) (view moved)
state_changes_example =
    state_changes busy (set_state 7 (some pressed) 41) moved held-IsValid busy-moved

sequence_monotone_example : (moved.lease.owner_client_id ≡ busy.lease.owner_client_id) × (40 ≤ 41)
sequence_monotone_example =
    sequence_monotone busy (set_state 7 (some pressed) 41) moved held-IsValid busy-moved refl refl
