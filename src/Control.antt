-- ===== src/Control.antt =====
-- The control layer: swbt/control/control.h and control.c. A pointer is an option, `none` for NULL;
-- an operation returns what `control` points to afterwards, with the domain that it points to. The
-- status reader is a callback: a function from the status behind its pointer to its integer result
-- and the status that it leaves.
pub mod Direct
pub mod Status
mod Examples
use swbt_daemon.Common.{ℕ, ◌+◌, ◌-◌, ◌^◌, Bool, true, false, Option, none, some, u64}
use swbt_daemon.Common.Int.{ℤ, pos, negsuc}
use swbt_daemon.Switch.State.{ControllerState, neutral}
use swbt_daemon.Domain.App.{Domain, DomainResult, RevokeReason, StatusSnapshot, read_status}
use swbt_daemon.Domain.App
use swbt_daemon.Domain.Records

abbrev pub direct_client_id : ℕ
direct_client_id = 2 ^ 32 - 1

-- `swbt_control_result_t`.
pub data ControlResult : Type 0 where
  ok invalid_argument owner_busy not_owner : ControlResult

-- `swbt_control_runtime_status_t`.
pub record RuntimeStatus : Type 0 where
  pub initialized : Bool
  pub running : Bool
  pub hid_registered : Bool
  pub output_handler_started : Bool
  pub report_timer_started : Bool

-- `swbt_control_runtime_status_reader_t`, with its context.
abbrev pub StatusReader : Type 0
StatusReader = RuntimeStatus → ℤ × RuntimeStatus

-- `swbt_control_config_t`.
pub record ControlConfig : Type 0 where
  pub app : Option Domain
  pub read_runtime_status : Option StatusReader

-- `swbt_control_t`.
pub record Control : Type 0 where
  pub app : Option Domain
  pub read_runtime_status : Option StatusReader
  pub next_direct_sequence : ℕ

unfoldable pub map_app_result : DomainResult → ControlResult
map_app_result DomainResult.ok = ok
map_app_result DomainResult.stale_sequence = ok
map_app_result DomainResult.owner_busy = owner_busy
map_app_result DomainResult.not_owner = not_owner
map_app_result DomainResult.invalid_argument = invalid_argument

-- What a configuration whose `app` is not NULL writes to `*control`.
abbrev configured : ControlConfig → Option Domain → Control → ControlResult × Control
configured config none before = (invalid_argument, before)
configured config (some app) before = (
  ok,
  record {
    app = some app;
    read_runtime_status = config.read_runtime_status;
    next_direct_sequence = 0;
  },
)

-- `swbt_control_init`.
unfoldable pub init : Option Control → Option ControlConfig → ControlResult × Option Control
init none config = (invalid_argument, none)
init (some control) none = (invalid_argument, some control)
init (some control) (some config) =
    let (result, control') = configured config config.app control in (result, some control')

-- The domain's answer, with the domain put back.
abbrev answered : Control → DomainResult × Option Domain → ControlResult × Option Control
answered control (result, app) = (map_app_result result, some (record control { app = app }))

-- The guard that the operations share, and the call of the domain.
abbrev pub on_app :
    Option Control → (Option Domain → DomainResult × Option Domain) → ControlResult × Option Control
on_app none op = (invalid_argument, none)
on_app (some control) op = elim control.app [
  | none ↦ (invalid_argument, some control)
  | some app ↦ answered control (op (some app))
]

-- `swbt_control_acquire_client`.
unfoldable pub acquire_client : Option Control → ℕ → ControlResult × Option Control
acquire_client control client_id = on_app control (λ app. App.acquire app client_id)

-- `swbt_control_release_client`.
unfoldable pub release_client : Option Control → ℕ → ControlResult × Option Control
release_client control client_id = on_app control (λ app. App.revoke app App.release client_id)

-- `swbt_control_disconnect_client`.
unfoldable pub disconnect_client : Option Control → ℕ → ControlResult × Option Control
disconnect_client control client_id =
    on_app control (λ app. App.revoke app App.disconnect client_id)

-- `swbt_control_heartbeat_timeout_client`.
unfoldable pub heartbeat_timeout_client : Option Control → ℕ → ControlResult × Option Control
heartbeat_timeout_client control client_id =
    on_app control (λ app. App.revoke app App.heartbeat_timeout client_id)

-- `swbt_control_shutdown`.
unfoldable pub shutdown : Option Control → ControlResult × Option Control
shutdown control = on_app control (λ app. App.revoke app App.shutdown 0)

-- `swbt_control_record_state_update_rejected`.
unfoldable pub record_state_update_rejected : Option Control → ControlResult × Option Control
record_state_update_rejected control = on_app control Records.record_state_update_rejected

-- `swbt_control_submit_client_state`.
unfoldable pub submit_client_state :
    Option Control → ℕ → Option ControllerState → ℕ → ControlResult × Option Control
submit_client_state control client_id none sequence = (invalid_argument, control)
submit_client_state control client_id (some state) sequence =
    on_app control (λ app. App.set_state app client_id (some state) sequence)

-- The two calls of a direct submission.
unfoldable pub submit_to : Control → Domain → ControllerState → ControlResult × Option Control
submit_to control app state =
    let (result, app') = App.acquire (some app) direct_client_id in
    let acquired = record control { app = app' } in
    elim (map_app_result result) [
      | ok ↦
          let sequence = u64 (control.next_direct_sequence + 1) in
          answered (record acquired { next_direct_sequence = sequence })
            (App.set_state app' direct_client_id (some state) sequence)
      | e ↦ (e, some acquired)
    ]

-- `swbt_control_submit_state`.
unfoldable pub submit_state :
    Option Control → Option ControllerState → ControlResult × Option Control
unfolding submit_to
submit_state none state = (invalid_argument, none)
submit_state (some control) none = (invalid_argument, some control)
submit_state (some control) (some state) = elim control.app [
  | none ↦ (invalid_argument, some control)
  | some app ↦ submit_to control app state
]

-- `swbt_control_submit_neutral`.
unfoldable pub submit_neutral : Option Control → ControlResult × Option Control
unfolding submit_state
submit_neutral control = submit_state control (some neutral)
