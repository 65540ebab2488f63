-- ===== src/Ipc/Adapter/Sessions.antt =====
-- What the messages and the ends of the connections, in any order, do to the domain: the adapter
-- of swbt/ipc/ipc_adapter.c on top of swbt/control/control.c and swbt/domain/domain.c.
use swbt_daemon.Common.{
  ℕ, Bool, true, false, Option, none, some, List, [], ◌∷◌, ◌++◌, ◌≡◌, refl, sym, ap, ◌∙◌, ◌==◌,
  if◌then◌else◌,
}
use swbt_daemon.Common.Text.{Bytes}
use swbt_daemon.Switch.State.{neutral}
use swbt_daemon.Domain.App.{Domain, create, disconnect, heartbeat_timeout, shutdown}
use swbt_daemon.Domain.Calls.{Call, run}
use swbt_daemon.Domain.Calls
use swbt_daemon.Domain.Calls.Safety.{free_is_neutral}
use swbt_daemon.Control.{Control}
use swbt_daemon.Ipc.{Command, Response, ResponseType, JsonResult}
use swbt_daemon.Ipc.Decode.{decode_command}
use swbt_daemon.Ipc.Adapter.{
  respond, respond_as, handle_line, answer_line, handle_disconnect, handle_heartbeat_timeout,
  handle_shutdown,
}
use swbt_daemon.Ipc.Adapter.Calls.{calls_of_command, after_calls, execute-calls, revoke-calls}

-- What reaches the adapter: a line of a client, with the size of the response buffer, and the ends
-- of the connections and of the daemon.
pub data Event : Type 0 where
  line : ℕ → Bytes → ℕ → Event
  disconnected : ℕ → Event
  timed_out : ℕ → Event
  stopped : Event

abbrev pub handle : Bytes → Option Control → Event → Option Control
handle version control (line client text size) = (handle_line version control client text size).2
handle version control (disconnected client) = (handle_disconnect control client).1
handle version control (timed_out client) = (handle_heartbeat_timeout control client).1
handle version control stopped = (handle_shutdown control).1

abbrev pub handle_all : Bytes → Option Control → List Event → Option Control
handle_all version control [] = control
handle_all version control (e ∷ es) = handle_all version (handle version control e) es

-- A line that is not decoded makes no call.
abbrev pub calls_of_line : ℕ → Command → ResponseType → List Call
calls_of_line client command ResponseType.none = calls_of_command client command
calls_of_line client command _ = []

abbrev pub calls_of_event : Event → List Call
calls_of_event (line client text size) =
    if size == 0
    then []
    else calls_of_line client (decode_command text).0 (decode_command text).1.type
calls_of_event (disconnected client) = Calls.revoke disconnect client ∷ []
calls_of_event (timed_out client) = Calls.revoke heartbeat_timeout client ∷ []
calls_of_event stopped = Calls.revoke shutdown 0 ∷ []

abbrev pub calls_of_events : List Event → List Call
calls_of_events [] = []
calls_of_events (e ∷ es) = calls_of_event e ++ calls_of_events es

respond_as-calls :
    (control : Control) (client : ℕ) (command : Command) (response : Response) (type : ResponseType)
    → (respond_as (some control) client command response type).1
      ≡ after_calls control (calls_of_line client command type)
unfolding run
respond_as-calls control client command response ResponseType.none =
    execute-calls control client command
respond_as-calls control client command response ResponseType.hello_ok = refl
respond_as-calls control client command response ResponseType.acquired = refl
respond_as-calls control client command response ResponseType.released = refl
respond_as-calls control client command response ResponseType.state_accepted = refl
respond_as-calls control client command response ResponseType.status = refl
respond_as-calls control client command response ResponseType.error = refl

handle-calls :
    (version : Bytes) (control : Control) (e : Event)
    → handle version (some control) e ≡ after_calls control (calls_of_event e)
unfolding handle_line answer_line respond handle_disconnect handle_heartbeat_timeout handle_shutdown
    run
handle-calls version control (line client text size) = by_size (size == 0)
  where
    by_size :
        (no_room : Bool)
        → (if no_room
            then (JsonResult.invalid_argument, [], some control)
            else answer_line version (some control) client text size).2
          ≡ after_calls control (
              if no_room
              then []
              else calls_of_line client (decode_command text).0 (decode_command text).1.type)
    by_size true = refl
    by_size false =
        respond_as-calls control client (decode_command text).0 (decode_command text).1
          (decode_command text).1.type
handle-calls version control (disconnected client) = revoke-calls control client disconnect
handle-calls version control (timed_out client) = revoke-calls control client heartbeat_timeout
handle-calls version control stopped = revoke-calls control 0 shutdown

run-append : (cs ds : List Call) (app : Option Domain) → run app (cs ++ ds) ≡ run (run app cs) ds
unfolding run
run-append [] ds app = refl
run-append (c ∷ cs) ds app = run-append cs ds (Calls.step app c).1

-- Any events, of any clients in any order, do to the domain what their domain calls do one after
-- the other, and leave the rest of the control layer alone.
pub events_refine :
    (version : Bytes) (control : Control) (es : List Event)
    → handle_all version (some control) es
      ≡ some (record control { app = run control.app (calls_of_events es) })
unfolding run
events_refine version control [] = refl
events_refine version control (e ∷ es) =
    ap (λ c. handle_all version c es) (handle-calls version control e)
    ∙ events_refine version (record control { app = run control.app (calls_of_event e) }) es
    ∙ ap (λ a. some (record control { app = a }))
        (sym (run-append (calls_of_event e) (calls_of_events es) control.app))

-- After a creation and any events, the controller is neutral whenever nobody holds the lease.
pub free_is_neutral-events :
    (version : Bytes) (control : Control) (es : List Event) (after : Control) (app : Domain)
    → control.app ≡ create true
    → handle_all version (some control) es ≡ some after
    → after.app ≡ some app
    → app.lease.has_owner ≡ false
    → app.state ≡ neutral
free_is_neutral-events version control es after app h e e' free =
    free_is_neutral (calls_of_events es) app
      (ap (λ a. run a (calls_of_events es)) (sym h)
        ∙ ap app_of (sym (events_refine version control es))
        ∙ ap app_of e
        ∙ e')
      free
  where
    app_of : Option Control → Option Domain
    app_of none = none
    app_of (some c) = c.app
