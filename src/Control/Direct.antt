-- ===== src/Control/Direct.antt =====
-- Direct submissions next to the clients' own: they are never refused as stale.
use swbt_daemon.Common.{
  leb, ◌↔◌, subst, ℕ, ◌+◌, ◌^◌, ◌≤◌, ◌<◌, ◌≡◌, ◌≢◌, refl, ◌⊎◌, inl, true, false, ◌&&◌,
  if◌then◌else◌, Option, none, some, arith, List, [], ◌∷◌, length,
}
use swbt_daemon.Switch.State.{ControllerState}
use swbt_daemon.Domain.Lease
use swbt_daemon.Domain.Lease.Ownership.{IsValid, holder}
use swbt_daemon.Domain.App.{Domain, create, initial}
use swbt_daemon.Domain.Calls.Safety.{create-fresh, fresh-free}
use swbt_daemon.Domain.App
use swbt_daemon.Domain.Records
use swbt_daemon.Control.{
  Control, ControlResult, StatusReader, init, ok, owner_busy, direct_client_id, acquire_client,
  release_client, disconnect_client, heartbeat_timeout_client, shutdown,
  record_state_update_rejected, submit_client_state, submit_state, submit_neutral, map_app_result,
}

-- The operations as data.
pub data Command : Type 0 where
  acquire release disconnect heartbeat_timeout : ℕ → Command
  shut_down rejected direct_neutral : Command
  client_state : ℕ → ControllerState → ℕ → Command
  direct_state : ControllerState → Command

unfoldable pub step : Option Control → Command → ControlResult × Option Control
step control (acquire c) = acquire_client control c
step control (release c) = release_client control c
step control (disconnect c) = disconnect_client control c
step control (heartbeat_timeout c) = heartbeat_timeout_client control c
step control shut_down = shutdown control
step control rejected = record_state_update_rejected control
step control direct_neutral = submit_neutral control
step control (client_state c s n) = submit_client_state control c (some s) n
step control (direct_state s) = submit_state control (some s)

unfoldable pub run : Option Control → List Command → Option Control
run control [] = control
run control (c ∷ cs) = run (step control c).1 cs

-- The id that a command comes from is not the one of the direct submissions.
abbrev pub IsForeign : Command → Type 0
IsForeign (acquire c) = c ≢ direct_client_id
IsForeign (release c) = c ≢ direct_client_id
IsForeign (client_state c s n) = c ≢ direct_client_id
IsForeign _ = Unit

abbrev pub AllForeign : List Command → Type 0
AllForeign [] = Unit
AllForeign (c ∷ cs) = IsForeign c × AllForeign cs

-- The direct sequence is at most `n`, and a lease that the direct client holds is not ahead of it.
abbrev pub InStepApp : ℕ → ℕ → Option Domain → Type 0
InStepApp n next none = ⊥
InStepApp n next (some app) =
    IsValid app.lease
    × (next ≤ n)
    × ((app.lease.has_owner ≡ false)
        ⊎ (app.lease.owner_client_id ≢ direct_client_id)
        ⊎ (app.lease.last_sequence ≤ next))

abbrev pub InStep : ℕ → Option Control → Type 0
InStep n none = ⊥
InStep n (some control) = InStepApp n control.next_direct_sequence control.app

step_app :
    (n next : ℕ) (app : Option Domain) (reader : Option _) (c : Command)
    → InStepApp n next app
    → IsForeign c
    → n + 1 < 2 ^ 64
    → InStep
        (n + 1)
        (step
          (some (record { app = app; read_runtime_status = reader; next_direct_sequence = next }))
          c).1
unfolding step
step_app n next none reader c v f h = absurd v
step_app n next (some app) reader (acquire c) v f h =
    unfold acquire_client App.acquire Lease.acquire in ground arith
step_app n next (some app) reader (release c) v f h =
    unfold release_client App.revoke Lease.release in ground arith
step_app n next (some app) reader (disconnect c) v f h =
    unfold disconnect_client App.revoke Lease.revoke_if_owner in ground arith
step_app n next (some app) reader (heartbeat_timeout c) v f h =
    unfold heartbeat_timeout_client App.revoke Lease.revoke_if_owner in ground arith
step_app n next (some app) reader shut_down v f h =
    unfold shutdown App.revoke Lease.revoke in ground arith
step_app n next (some app) reader rejected v f h =
    unfold record_state_update_rejected Records.record_state_update_rejected in ground arith
step_app n next (some app) reader direct_neutral v f h =
    unfold submit_neutral App.acquire App.set_state Lease.acquire Lease.accept_sequence
      Lease.snapshot map_app_result in
    ground arith
step_app n next (some app) reader (client_state c s k) v f h =
    unfold submit_client_state App.set_state Lease.accept_sequence Lease.snapshot in ground arith
step_app n next (some app) reader (direct_state s) v f h =
    unfold submit_state App.acquire App.set_state Lease.acquire Lease.accept_sequence Lease.snapshot
      map_app_result in
    ground arith

step-InStep :
    (n : ℕ) (control : Option Control) (c : Command)
    → InStep n control
    → IsForeign c
    → n + 1 < 2 ^ 64
    → InStep (n + 1) (step control c).1
step-InStep n none c v f h = absurd v
step-InStep n (some control) c v f h =
    step_app n control.next_direct_sequence control.app control.read_runtime_status c v f h

run-InStep :
    (n : ℕ) (control : Option Control) (cs : List Command)
    → InStep n control
    → AllForeign cs
    → n + length cs < 2 ^ 64
    → InStep (n + length cs) (run control cs)
unfolding run
run-InStep n control [] v f h = subst (λ m. InStep m control) {x = n} (omega arith) v
run-InStep n control (c ∷ cs) v f h =
    subst (λ m. InStep m (run (step control c).1 cs)) {x = n + 1 + length cs} (omega arith)
      (run-InStep (n + 1) (step control c).1 cs (step-InStep n control c v f.0 (omega arith)) f.1
        (omega arith))

-- The domain shows the state, and the direct client holds it with the given sequence.
abbrev pub ShowsDirect : ControllerState → ℕ → Option Domain → Type 0
ShowsDirect s next none = ⊥
ShowsDirect s next (some app) = (app.state ≡ s) × (holder app.lease ≡ some (direct_client_id, next))

abbrev pub Sends : ControllerState → Option Control → Type 0
Sends s none = ⊥
Sends s (some control) = ShowsDirect s control.next_direct_sequence control.app

-- Somebody else holds the lease.
abbrev pub HeldByOther : Option Domain → Type 0
HeldByOther none = ⊥
HeldByOther (some app) =
    (app.lease.has_owner ≡ true) × (app.lease.owner_client_id ≢ direct_client_id)

abbrev pub IsBusy : Option Control → Type 0
IsBusy none = ⊥
IsBusy (some control) = HeldByOther control.app

-- What a direct submission comes to.
abbrev pub IsEffective : ControllerState → ControlResult × Option Control → Type 0
IsEffective s (result, after) =
    ((result ≡ ok) × Sends s after) ⊎ ((result ≡ owner_busy) × IsBusy after)

submit-IsEffective :
    (n next : ℕ) (app : Option Domain) (reader : Option StatusReader) (s : ControllerState)
    → InStepApp n next app
    → n + 1 < 2 ^ 64
    → IsEffective s (
        submit_state
          (some (record { app = app; read_runtime_status = reader; next_direct_sequence = next }))
          (some s))
submit-IsEffective n next none reader s v h = absurd v
submit-IsEffective n next (some app) reader s v h =
    unfold submit_state App.acquire App.set_state Lease.acquire Lease.accept_sequence Lease.snapshot
      map_app_result in
    ground arith

IsEffective-InStep :
    (n : ℕ) (control : Option Control) (s : ControllerState)
    → InStep n control
    → n + 1 < 2 ^ 64
    → IsEffective s (submit_state control (some s))
IsEffective-InStep n none s v h = absurd v
IsEffective-InStep n (some control) s v h =
    submit-IsEffective n control.next_direct_sequence control.app control.read_runtime_status s v h

-- The control of a domain that was just created.
abbrev pub started : Option StatusReader → Control → Option Control
started reader memory =
    (init (some memory) (some (record { app = create true; read_runtime_status = reader }))).1

started-InStep :
    (reader : Option StatusReader) (memory : Control) → InStep 0 (started reader memory)
unfolding init
started-InStep reader memory =
    rw create-fresh ((fresh-free.1, omega arith, unfold initial Lease.init in inl refl))

-- After the start and any fewer than 2 ^ 64 - 1 operations, in which no client has the id of the
-- direct submissions, a direct submission is never refused as stale: it shows its state under its
-- own lease, or another client holds the lease and it is refused as busy.
pub direct_never_stale :
    (reader : Option StatusReader) (memory : Control) (cs : List Command) (s : ControllerState)
    → AllForeign cs
    → length cs + 1 < 2 ^ 64
    → IsEffective s (submit_state (run (started reader memory) cs) (some s))
direct_never_stale reader memory cs s f h =
    IsEffective-InStep (0 + length cs) (run (started reader memory) cs) s
      (run-InStep 0 (started reader memory) cs (started-InStep reader memory) f (omega arith))
      (omega arith)

abbrev pub StateIs : ControllerState → Option Control → Type 0
StateIs s none = ⊥
StateIs s (some control) = elim control.app [ none ↦ ⊥ | some app ↦ app.state ≡ s ]

-- A client's submission is answered OK exactly when the client holds the lease; the state is taken
-- over only if its sequence is not older than the last one, so a stale state is dropped without an
-- error, and a refused one changes no state.
pub client_submission :
    (reader : Option StatusReader) (next : ℕ) (app : Domain) (client n : ℕ) (s : ControllerState)
    → let control : Control = record {
      app = some app;
      read_runtime_status = reader;
      next_direct_sequence = next;
    } in
      let (result, after) = submit_client_state (some control) client (some s) n in
      ((result ≡ ok) ↔ (Lease.owned_by app.lease client ≡ true))
      × StateIs
          (if Lease.owned_by app.lease client && leb app.lease.last_sequence n
            then s
            else app.state)
          after
unfolding submit_client_state map_app_result
client_submission reader next app client n s =
    unfold App.set_state Lease.accept_sequence Lease.snapshot in ground arith
