-- ===== src/Domain/Calls.antt =====
-- A client's calls of the domain as data, and what a sequence of them leaves.
pub mod Refinement
pub mod Safety
pub mod Counting
use swbt_daemon.Common.{ℕ, Option, none, some, List, [], ◌∷◌}
use swbt_daemon.Common.Buffer.{Buffer}
use swbt_daemon.Switch.State.{ControllerState}
use swbt_daemon.Switch.Report.{ReportOptions}
use swbt_daemon.Switch.Subcommand.{OutputReport}
use swbt_daemon.Switch.DeviceInfo.{DeviceInfo}
use swbt_daemon.Switch.Dispatcher.{Response}
use swbt_daemon.Support.Metrics.{SendResult}
use swbt_daemon.Domain.Status.{Lifecycle, HardwareApproval, DaemonStatus, DaemonHardware}
use swbt_daemon.Domain.App.{Domain, DomainResult, RevokeReason}
use swbt_daemon.Domain.App
use swbt_daemon.Domain.Records

pub data Call : Type 0 where
  acquire : ℕ → Call
  set_state : ℕ → Option ControllerState → ℕ → Call
  revoke : RevokeReason → ℕ → Call
  set_daemon_status : Option DaemonStatus → Call
  set_daemon_lifecycle : Lifecycle → Call
  set_hardware_approval : HardwareApproval → Call
  set_hardware_status : Option DaemonHardware → Call
  record_report_tick : ℕ → SendResult → Call
  record_state_update_rejected : Call
  record_rumble : Option Buffer → ℕ → Call
  handle_output_report :
      Option OutputReport → Option ReportOptions → Option DeviceInfo → ℕ → Option Response → Call

-- The result of a call and the domain after it.
unfoldable pub step : Option Domain → Call → DomainResult × Option Domain
step app (acquire c) = App.acquire app c
step app (set_state c s n) = App.set_state app c s n
step app (revoke reason c) = App.revoke app reason c
step app (set_daemon_status s) = Records.set_daemon_status app s
step app (set_daemon_lifecycle s) = Records.set_daemon_lifecycle app s
step app (set_hardware_approval s) = Records.set_hardware_approval app s
step app (set_hardware_status s) = Records.set_hardware_status app s
step app (record_report_tick now r) = Records.record_report_tick app now r
step app record_state_update_rejected = Records.record_state_update_rejected app
step app (record_rumble payload at) = Records.record_rumble app payload at
step app (handle_output_report output options info at response) =
    let (result, app', _) = Records.handle_output_report app output options info at response in
    (result, app')

-- The domain after a sequence of calls.
unfoldable pub run : Option Domain → List Call → Option Domain
run app [] = app
run app (c ∷ cs) = run (step app c).1 cs
