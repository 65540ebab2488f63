-- ===== src/Ipc.antt =====
-- The JSON messages of the IPC: swbt/ipc/ipc_json.h. A character buffer that holds a C string is
-- the list of the characters before its NUL.
pub mod Scan
pub mod Keys
pub mod Fields
pub mod Decode
pub mod OwnerId
pub mod Encode
pub mod Adapter
pub mod Server
mod Examples
use swbt_daemon.Common.{ℕ, Bool}
use swbt_daemon.Common.Text.{Bytes}
use swbt_daemon.Switch.State.{ControllerState}
use swbt_daemon.Switch.Rumble.{Rumble}
use swbt_daemon.Support.Metrics.{MetricsSnapshot}
use swbt_daemon.Domain.Status.{DaemonStatus, DaemonHardware}

abbrev pub json_line_max : ℕ
json_line_max = 8192

abbrev pub json_response_max : ℕ
json_response_max = 2048

abbrev pub json_string_max : ℕ
json_string_max = 96

-- `swbt_ipc_json_result_t`.
pub data JsonResult : Type 0 where
  ok invalid_argument response_too_small : JsonResult

-- `swbt_ipc_command_type_t`.
pub data CommandType : Type 0 where
  none hello acquire release set_state get_status : CommandType

-- `swbt_ipc_response_type_t`.
pub data ResponseType : Type 0 where
  none hello_ok acquired released state_accepted status error : ResponseType

-- `swbt_ipc_error_code_t`.
pub data ErrorCode : Type 0 where
  invalid_json invalid_version unsupported_command owner_busy not_owner : ErrorCode
  invalid_state internal_error : ErrorCode

-- `swbt_ipc_command_t`.
pub record Command : Type 0 where
  pub type : CommandType
  pub has_request_id : Bool
  pub request_id : Bytes
  pub has_owner_id : Bool
  pub owner_client_id : ℕ
  pub sequence : ℕ
  pub state : ControllerState

-- `swbt_ipc_response_status_t`.
pub record ResponseStatus : Type 0 where
  pub has_owner : Bool
  pub owner_client_id : ℕ
  pub last_sequence : ℕ
  pub state : ControllerState
  pub rumble : Rumble
  pub metrics : MetricsSnapshot
  pub daemon : DaemonStatus
  pub hardware : DaemonHardware

-- `swbt_ipc_response_t`.
pub record Response : Type 0 where
  pub type : ResponseType
  pub has_request_id : Bool
  pub request_id : Bytes
  pub client_id : ℕ
  pub owner_client_id : ℕ
  pub sequence : ℕ
  pub status : ResponseStatus
  pub error_code : ErrorCode
  pub error_message : Bytes
