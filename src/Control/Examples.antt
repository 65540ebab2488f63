-- ===== src/Control/Examples.antt =====
-- The theorems on the control layer at concrete inputs.
use swbt_daemon.Common.{true, some, none, [], ◌∷◌, List, arith}
use swbt_daemon.Switch.State.{ControllerState, neutral}
use swbt_daemon.Domain.App.{Domain}
use swbt_daemon.Domain.Calls.Safety.{fresh}
use swbt_daemon.Control.{Control, submit_state}
use swbt_daemon.Control.Direct.{
  Command, acquire, client_state, release, shut_down, direct_state, run, started, IsEffective,
  direct_never_stale,
}

abbrev pressed : ControllerState
pressed = record neutral { buttons = 8 }

abbrev memory : Control
memory = record { app = none; read_runtime_status = none; next_direct_sequence = 99 }

-- A client comes and goes, then a direct submission, then a shutdown.
abbrev visits : List Command
visits = acquire 7 ∷ client_state 7 pressed 1000 ∷ release 7 ∷ direct_state pressed ∷ shut_down ∷ []

direct_never_stale_example :
    IsEffective pressed (submit_state (run (started none memory) visits) (some pressed))
direct_never_stale_example =
    direct_never_stale none memory visits pressed
      (omega arith, (omega arith, (omega arith, (tt, (tt, tt))))) (omega arith)

-- A domain that client 7 holds.
abbrev busy : Domain
busy = record fresh { lease = record { has_owner = true; owner_client_id = 7; last_sequence = 40 } }

-- A stale submission.
