-- ===== src/Daemon/IpcRunner/Clients.antt =====
-- Who can hold the controller after the events of one client: swbt/ipc/ipc_adapter.c on top of
-- swbt/control/control.c and swbt/domain/domain.c.
use swbt_daemon.Common.{
  ℕ, ◌≡◌, refl, sym, subst, ◌∙◌, ◌⊎◌, inl, inr, true, if_both, All, Option, none, some, List, [],
  ◌∷◌, ◌++◌, leb, ◌==◌, ◌&&◌, arith,
}
use swbt_daemon.Common.Text.{Bytes}
use swbt_daemon.Domain.Lease.Ownership.{IsValid}
use swbt_daemon.Domain.App.{Domain, create, release, disconnect, heartbeat_timeout}
use swbt_daemon.Domain.Calls
use swbt_daemon.Domain.Calls.{Call, run}
use swbt_daemon.Domain.Calls.Refinement.{View, view, free, after_set, spec, spec_run, Shows}
use swbt_daemon.Domain.Calls.Safety.{run_refines, create-fresh, fresh-free}
use swbt_daemon.Control.{Control}
use swbt_daemon.Ipc.{Command, CommandType, ResponseType}
use swbt_daemon.Ipc.Decode.{decode_command}
use swbt_daemon.Ipc.Adapter.{command_owner_matches_client}
use swbt_daemon.Ipc.Adapter.Calls.{calls_of_type}
use swbt_daemon.Ipc.Adapter.Sessions.{
  Event, line, disconnected, timed_out, stopped, handle_all, calls_of_line, calls_of_event,
  calls_of_events, events_refine,
}
use swbt_daemon.Ipc.Server.Runs.{IsOf}

-- Nobody but this client holds the controller, which is neutral where nobody does.
abbrev pub Only : ℕ → View → Type 0
Only client v = (v ≡ free) ⊎ ((last : ℕ) × (v.held ≡ some (client, last)))

abbrev pub IsFree : View → Type 0
IsFree v = v ≡ free

-- What the view of a control layer's domain satisfies.
abbrev pub HoldsApp : (View → Type 0) → Option Domain → Type 0
HoldsApp P none = ⊥
HoldsApp P (some app) = P (view app) × IsValid app.lease

abbrev pub Holds : (View → Type 0) → Option Control → Type 0
Holds P none = ⊥
Holds P (some control) = HoldsApp P control.app

acquire-Only : (client : ℕ) (v : View) → Only client v → Only client (spec v (Calls.acquire client))
acquire-Only client v (inl e) = inr (0, ground arith)
acquire-Only client v (inr (last, e)) = inr (last, ground arith)

release-IsFree :
    (client : ℕ) (v : View) → Only client v → IsFree (spec v (Calls.revoke release client))
release-IsFree client v (inl e) = ground arith
release-IsFree client v (inr (last, e)) = ground arith

set_state-Only :
    (client : ℕ) (v : View) (command : Command)
    → Only client v
    → Only client (spec v (Calls.set_state client (some command.state) command.sequence))
set_state-Only client v command (inl e) = inl (ground arith)
set_state-Only client v command (inr (last, e)) =
    subst (λ h. Only client (after_set v client command.state command.sequence h)) (sym e)
      (if_both (Only client) (client == client && leb last command.sequence)
        (inr (command.sequence, refl)) (inr (last, e)))

type-Only :
    (client : ℕ) (v : View) (command : Command) (type : CommandType)
    → Only client v
    → Only client (spec_run v (calls_of_type client command type))
type-Only client v command CommandType.none o = o
type-Only client v command CommandType.hello o = o
type-Only client v command CommandType.acquire o = acquire-Only client v o
type-Only client v command CommandType.release o =
    if_both (λ calls. Only client (spec_run v calls)) (command_owner_matches_client command client)
      (inl (release-IsFree client v o)) o
type-Only client v command CommandType.set_state o =
    if_both (λ calls. Only client (spec_run v calls)) (command_owner_matches_client command client)
      (set_state-Only client v command o) o
type-Only client v command CommandType.get_status o = o

line-Only :
    (client : ℕ) (v : View) (command : Command) (type : ResponseType)
    → Only client v
    → Only client (spec_run v (calls_of_line client command type))
line-Only client v command ResponseType.none o = type-Only client v command command.type o
line-Only client v command ResponseType.hello_ok o = o
line-Only client v command ResponseType.acquired o = o
line-Only client v command ResponseType.released o = o
line-Only client v command ResponseType.state_accepted o = o
line-Only client v command ResponseType.status o = o
line-Only client v command ResponseType.error o = o

event-Only :
    (client : ℕ) (v : View) (e : Event)
    → IsOf client e
    → Only client v
    → Only client (spec_run v (calls_of_event e))
event-Only client v (line c text size) i o =
    if_both (λ calls. Only client (spec_run v calls)) (size == 0) o
      (subst
        (λ d.
          Only client
            (spec_run v (calls_of_line d (decode_command text).0 (decode_command text).1.type)))
        (sym i) (line-Only client v (decode_command text).0 (decode_command text).1.type o))
event-Only client v (disconnected c) i o =
    inl
      (subst (λ d. IsFree (spec v (Calls.revoke disconnect d))) (sym i) (release-IsFree client v o))
event-Only client v (timed_out c) i o = inl (
    subst (λ d. IsFree (spec v (Calls.revoke heartbeat_timeout d))) (sym i)
      (release-IsFree client v o))
event-Only client v stopped i o = absurd i

spec_run-append :
    (v : View) (cs ds : List Call) → spec_run v (cs ++ ds) ≡ spec_run (spec_run v cs) ds
spec_run-append v [] ds = refl
spec_run-append v (c ∷ cs) ds = spec_run-append (spec v c) cs ds

events-Only :
    (client : ℕ) (v : View) (es : List Event)
    → All (IsOf client) es
    → Only client v
    → Only client (spec_run v (calls_of_events es))
events-Only client v [] i o = o
events-Only client v (e ∷ es) (i, is) o =
    subst (Only client) (sym (spec_run-append v (calls_of_event e) (calls_of_events es)))
      (events-Only client (spec_run v (calls_of_event e)) es is (event-Only client v e i o))

-- What the events do to the view is what they do to the control layer's domain.
handle_all-Holds :
    (P Q : View → Type 0) (version : Bytes) (es : List Event) (control : Option Control)
    → ((v : View) → P v → Q (spec_run v (calls_of_events es)))
    → Holds P control
    → Holds Q (handle_all version control es)
handle_all-Holds P Q version es none step h = absurd h
handle_all-Holds P Q version es (some control) step h =
    subst (Holds Q) (sym (events_refine version control es)) (by_app control.app h)
  where
    by_view : (v : View) (after : Option Domain) → Q v → Shows v after → HoldsApp Q after
    by_view v none q s = absurd s
    by_view v (some app) q (e, valid) = (subst Q (sym e) q, valid)

    by_app : (app : Option Domain) → HoldsApp P app → HoldsApp Q (run app (calls_of_events es))
    by_app none h' = absurd h'
    by_app (some app) (p, valid) =
        by_view (spec_run (view app) (calls_of_events es)) (run (some app) (calls_of_events es))
          (step (view app) p) (run_refines (calls_of_events es) app valid)

-- The events of a client leave it the only one that can hold the controller.
pub client_events :
    (version : Bytes) (client : ℕ) (es : List Event) (control : Option Control)
    → All (IsOf client) es
    → Holds (Only client) control
    → Holds (Only client) (handle_all version control es)
client_events version client es control i h =
    handle_all-Holds (Only client) (Only client) version es control
      (λ v o. events-Only client v es i o) h

-- The end of the client frees the controller.
pub disconnected_frees :
    (version : Bytes) (client : ℕ) (control : Option Control)
    → Holds (Only client) control
    → Holds IsFree (handle_all version control (disconnected client ∷ []))
disconnected_frees version client control h =
    handle_all-Holds (Only client) IsFree version (disconnected client ∷ []) control
      (λ v o. release-IsFree client v o) h

pub timed_out_frees :
    (version : Bytes) (client : ℕ) (control : Option Control)
    → Holds (Only client) control
    → Holds IsFree (handle_all version control (timed_out client ∷ []))
timed_out_frees version client control h =
    handle_all-Holds (Only client) IsFree version (timed_out client ∷ []) control
      (λ v o. release-IsFree client v o) h

-- The end of the daemon does.
pub stopped_frees :
    (version : Bytes) (control : Option Control)
    → Holds IsFree control
    → Holds IsFree (handle_all version control (stopped ∷ []))
stopped_frees version control h =
    handle_all-Holds IsFree IsFree version (stopped ∷ []) control (λ v o. refl) h

pub fresh-Holds : (control : Control) → control.app ≡ create true → Holds IsFree (some control)
fresh-Holds control e =
    subst (HoldsApp IsFree) (sym (e ∙ create-fresh)) (fresh-free.0, fresh-free.1)
