-- ===== src/Ipc/Adapter/Calls.antt =====
-- The domain calls of a command: swbt/ipc/ipc_adapter.c on top of swbt/control/control.c.
use swbt_daemon.Common.{
  ℕ, Bool, true, false, Option, none, some, List, [], ◌∷◌, ◌≡◌, refl, arith, if◌then◌else◌,
}
use swbt_daemon.Domain.App.{Domain, create, release, disconnect, heartbeat_timeout, shutdown}
use swbt_daemon.Domain.App
use swbt_daemon.Domain.Records
use swbt_daemon.Domain.Calls.{Call, run}
use swbt_daemon.Domain.Calls
use swbt_daemon.Control.{Control}
use swbt_daemon.Control
use swbt_daemon.Ipc.{Command, CommandType}
use swbt_daemon.Ipc.Adapter.{
  command_owner_matches_client, execute, execute_command, release_by, submit_by, not_owner_error,
}

-- The domain calls of a command.
abbrev pub calls_of_type : ℕ → Command → CommandType → List Call
calls_of_type client command CommandType.none = []
calls_of_type client command CommandType.hello = []
calls_of_type client command CommandType.acquire = Calls.acquire client ∷ []
calls_of_type client command CommandType.release =
    if command_owner_matches_client command client then Calls.revoke release client ∷ [] else []
calls_of_type client command CommandType.set_state =
    if command_owner_matches_client command client
    then Calls.set_state client (some command.state) command.sequence ∷ []
    else Calls.record_state_update_rejected ∷ []
calls_of_type client command CommandType.get_status = []

abbrev pub calls_of_command : ℕ → Command → List Call
calls_of_command client command = calls_of_type client command command.type

abbrev pub after_calls : Control → List Call → Option Control
after_calls control calls = some (record control { app = run control.app calls })

on_app-domain :
    (control : Control) (op : Option Domain → App.DomainResult × Option Domain)
    → (op none).1 ≡ none
    → (Control.on_app (some control) op).1 ≡ some (record control { app = (op control.app).1 })
on_app-domain control op h = by_app control.app refl
  where
    by_app :
        (app : Option Domain)
        → control.app ≡ app
        → (Control.on_app (some control) op).1 ≡ some (record control { app = (op control.app).1 })
    by_app none e = ground arith
    by_app (some app) e = ground arith

acquire-calls :
    (control : Control) (client : ℕ)
    → (Control.acquire_client (some control) client).1
      ≡ after_calls control (Calls.acquire client ∷ [])
unfolding Control.acquire_client run Calls.step App.acquire
acquire-calls control client = on_app-domain control (λ app. App.acquire app client) refl

pub revoke-calls :
    (control : Control) (client : ℕ) (reason : App.RevokeReason)
    → (Control.on_app (some control) (λ app. App.revoke app reason client)).1
      ≡ after_calls control (Calls.revoke reason client ∷ [])
unfolding run Calls.step App.revoke
revoke-calls control client reason =
    on_app-domain control (λ app. App.revoke app reason client) refl

submit-calls :
    (control : Control) (client : ℕ) (command : Command)
    → (Control.submit_client_state (some control) client (some command.state) command.sequence).1
      ≡ after_calls control (Calls.set_state client (some command.state) command.sequence ∷ [])
unfolding Control.submit_client_state run Calls.step App.set_state
submit-calls control client command =
    on_app-domain control (λ app. App.set_state app client (some command.state) command.sequence)
      refl

reject-calls :
    (control : Control)
    → (Control.record_state_update_rejected (some control)).1
      ≡ after_calls control (Calls.record_state_update_rejected ∷ [])
unfolding Control.record_state_update_rejected run Calls.step Records.record_state_update_rejected
reject-calls control = on_app-domain control Records.record_state_update_rejected refl

execute-calls_of_type :
    (control : Control) (client : ℕ) (command : Command) (type : CommandType)
    → (execute (some control) client command type).1
      ≡ after_calls control (calls_of_type client command type)
unfolding run Control.release_client
execute-calls_of_type control client command CommandType.none = refl
execute-calls_of_type control client command CommandType.hello = refl
execute-calls_of_type control client command CommandType.acquire = acquire-calls control client
execute-calls_of_type control client command CommandType.release =
    by_owner (command_owner_matches_client command client)
  where
    by_owner :
        (owned : Bool)
        → (if owned
            then release_by (some control) client command
            else (not_owner_error command, some control)).1
          ≡ after_calls control (if owned then Calls.revoke release client ∷ [] else [])
    by_owner true = revoke-calls control client release
    by_owner false = refl
execute-calls_of_type control client command CommandType.set_state =
    by_owner (command_owner_matches_client command client)
  where
    by_owner :
        (owned : Bool)
        → (if owned then submit_by (some control) client command else (
          not_owner_error command,
          (Control.record_state_update_rejected (some control)).1,
        )).1
          ≡ after_calls control (
              if owned
              then Calls.set_state client (some command.state) command.sequence ∷ []
              else Calls.record_state_update_rejected ∷ [])
    by_owner true = submit-calls control client command
    by_owner false = reject-calls control
execute-calls_of_type control client command CommandType.get_status = refl

-- Executing a command does to the domain what the command's calls do, and leaves the rest of the
-- control layer alone. At most one call is made, always for the client of the connection.
pub execute-calls :
    (control : Control) (client : ℕ) (command : Command)
    → (execute_command (some control) client command).1
      ≡ after_calls control (calls_of_command client command)
unfolding execute_command
execute-calls control client command = execute-calls_of_type control client command command.type
