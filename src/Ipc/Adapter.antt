-- ===== src/Ipc/Adapter.antt =====
-- The adapter between the messages and the control layer: swbt/ipc/ipc_adapter.h and ipc_adapter.c.
-- `control` is an option, `none` for NULL; an operation returns what it points to afterwards. The
-- adapter's own copies of the decoder's helpers (`init_response`, `copy_text`, `set_error`) are
-- those of `Decode`, with the same bodies: the field that only one of them sets explicitly has 0 as
-- its constant.
pub mod Calls
pub mod Sessions
pub mod Answers
use swbt_daemon.Common.{
  ℕ, Bool, true, false, ◌&&◌, ◌||◌, Option, none, some, [], ltb, ◌==◌, if◌then◌else◌, is_null,
}
use swbt_daemon.Common.Text.{Bytes, text}
use swbt_daemon.Switch.State.{ControllerState}
use swbt_daemon.Switch.Rumble.{Rumble}
use swbt_daemon.Support.Metrics.{MetricsSnapshot}
use swbt_daemon.Domain.Status.{DaemonStatus, DaemonHardware}
use swbt_daemon.Domain.App.{StatusSnapshot}
use swbt_daemon.Control.{
  Control, ControlResult, acquire_client, release_client, disconnect_client,
  heartbeat_timeout_client, record_state_update_rejected, submit_client_state,
}
use swbt_daemon.Control
use swbt_daemon.Control.Status.{ControlStatus}
use swbt_daemon.Control.Status
use swbt_daemon.Ipc.{
  Command, CommandType, Response, ResponseType, ResponseStatus, ErrorCode, JsonResult,
  json_string_max,
}
use swbt_daemon.Ipc.Decode.{init_response, copy_text, set_error, decode_command}
use swbt_daemon.Ipc.Encode.{encode_response}

-- `swbt_ipc_result_t`.
pub data IpcResult : Type 0 where
  ok invalid_argument owner_busy not_owner : IpcResult

-- `swbt_ipc_status_t`.
pub record IpcStatus : Type 0 where
  pub has_owner : Bool
  pub owner_client_id : ℕ
  pub last_seq : ℕ
  pub state : ControllerState
  pub rumble : Rumble
  pub metrics : MetricsSnapshot
  pub daemon : DaemonStatus
  pub hardware : DaemonHardware

-- `swbt_ipc_map_control_result`.
unfoldable pub map_control_result : ControlResult → IpcResult
map_control_result ControlResult.ok = ok
map_control_result ControlResult.owner_busy = owner_busy
map_control_result ControlResult.not_owner = not_owner
map_control_result ControlResult.invalid_argument = invalid_argument

-- `swbt_ipc_adapter_copy_command_request`.
unfoldable pub copy_command_request : Command → Response → Response
unfolding copy_text
copy_command_request command response = record response {
  has_request_id = command.has_request_id;
  request_id = if command.has_request_id then copy_text json_string_max command.request_id else [];
}

-- `swbt_ipc_adapter_command_owner_matches_client`.
unfoldable pub command_owner_matches_client : Command → ℕ → Bool
command_owner_matches_client command client_id =
    command.has_owner_id && command.owner_client_id == client_id

-- `swbt_ipc_adapter_copy_status`.
unfoldable pub copy_status : IpcStatus → ResponseStatus
copy_status status = record {
  has_owner = status.has_owner;
  owner_client_id = status.owner_client_id;
  last_sequence = status.last_seq;
  state = status.state;
  rumble = status.rumble;
  metrics = status.metrics;
  daemon = status.daemon;
  hardware = status.hardware;
}

-- `swbt_ipc_adapter_copy_app_status`.
unfoldable pub copy_app_status : StatusSnapshot → IpcStatus
copy_app_status status = record {
  has_owner = status.has_owner;
  owner_client_id = status.owner_client_id;
  last_seq = status.last_sequence;
  state = status.state;
  rumble = status.rumble;
  metrics = status.metrics;
  daemon = status.daemon;
  hardware = status.hardware;
}

abbrev status_from : ControlResult → Option ControlStatus → IpcResult × Option IpcStatus
status_from ControlResult.ok (some status) = (ok, some (copy_app_status (status.app)))
status_from _ _ = (invalid_argument, none)

-- `swbt_ipc_adapter_get_status` into a status that is not NULL.
unfoldable pub get_status : Option Control → IpcResult × Option IpcStatus
unfolding copy_app_status Status.get_status
get_status control = let (result, status) = Status.get_status control in status_from result status

-- The response to a command with its request identifier, before it is answered.
unfoldable pub start : Command → Response
unfolding copy_command_request init_response
start command = copy_command_request command init_response

-- `swbt_ipc_adapter_error_from_command`, on that response.
unfoldable pub error_from_command : Command → ErrorCode → Bytes → Response
unfolding start set_error
error_from_command command error_code message =
    set_error (start command) command.has_request_id command.request_id error_code message

abbrev pub not_owner_error : Command → Response
not_owner_error command =
    error_from_command command ErrorCode.not_owner (text "client does not own the controller")

unfoldable pub answer_acquire : Command → ℕ → IpcResult → Response
unfolding start error_from_command
answer_acquire command client_id ok = record (start command) {
  type = ResponseType.acquired;
  owner_client_id = client_id;
}
answer_acquire command client_id owner_busy =
    error_from_command command ErrorCode.owner_busy (text "another client owns the controller")
answer_acquire command client_id _ =
    error_from_command command ErrorCode.internal_error (text "failed to acquire owner")

unfoldable pub answer_release : Command → IpcResult → Response
unfolding start error_from_command
answer_release command ok = record (start command) { type = ResponseType.released }
answer_release command not_owner = not_owner_error command
answer_release command _ =
    error_from_command command ErrorCode.internal_error (text "failed to release owner")

unfoldable pub answer_set_state : Command → IpcResult → Response
unfolding start error_from_command
answer_set_state command ok = record (start command) {
  type = ResponseType.state_accepted;
  sequence = command.sequence;
}
answer_set_state command not_owner = not_owner_error command
answer_set_state command _ =
    error_from_command command ErrorCode.internal_error (text "failed to set state")

unfoldable pub answer_status : Command → IpcResult → Option IpcStatus → Response
unfolding start error_from_command copy_status
answer_status command ok (some status) = record (start command) {
  type = ResponseType.status;
  status = copy_status status;
}
answer_status command _ _ =
    error_from_command command ErrorCode.internal_error (text "failed to get status")

abbrev pub release_by : Option Control → ℕ → Command → Response × Option Control
release_by control client_id command =
    let (result, control') = release_client control client_id in
    (answer_release command (map_control_result result), control')

abbrev pub submit_by : Option Control → ℕ → Command → Response × Option Control
submit_by control client_id command =
    let (result, control') =
      submit_client_state control client_id (some command.state) command.sequence in
    (answer_set_state command (map_control_result result), control')

abbrev pub execute : Option Control → ℕ → Command → CommandType → Response × Option Control
execute control client_id command CommandType.hello =
    (record (start command) { type = ResponseType.hello_ok; client_id = client_id }, control)
execute control client_id command CommandType.acquire =
    let (result, control') = acquire_client control client_id in
    (answer_acquire command client_id (map_control_result result), control')
execute control client_id command CommandType.release =
    if command_owner_matches_client command client_id
    then release_by control client_id command
    else (not_owner_error command, control)
execute control client_id command CommandType.set_state =
    if command_owner_matches_client command client_id
    then submit_by control client_id command
    else (not_owner_error command, (record_state_update_rejected control).1)
execute control client_id command CommandType.get_status =
    let (result, status) = get_status control in (answer_status command result status, control)
execute control client_id command CommandType.none =
    (error_from_command command ErrorCode.internal_error (text "failed to decode command"), control)

-- `swbt_ipc_adapter_execute_command`, whose result is always `SWBT_IPC_JSON_OK`: `*out_response`.
unfoldable pub execute_command : Option Control → ℕ → Command → Response × Option Control
unfolding start error_from_command command_owner_matches_client map_control_result answer_acquire
    answer_release answer_set_state answer_status get_status
execute_command control client_id command = execute control client_id command command.type

abbrev pub respond_as :
    Option Control → ℕ → Command → Response → ResponseType → Response × Option Control
respond_as control client_id command typed_response ResponseType.none =
    execute_command control client_id command
respond_as control client_id command typed_response _ = (typed_response, control)

-- A decoded command is executed; an error of the decoder is the response.
unfoldable pub respond : Option Control → ℕ → Command → Response → Response × Option Control
unfolding execute_command
respond control client_id command typed_response =
    respond_as control client_id command typed_response typed_response.type

-- A line once the guards are passed.
unfoldable pub answer_line :
    Bytes → Option Control → ℕ → Bytes → ℕ → JsonResult × Bytes × Option Control
unfolding decode_command respond encode_response
answer_line version control client_id line response_size =
    let (command, typed_response) = decode_command line in
    let (response, control') = respond control client_id command typed_response in
    let (result, written) = encode_response version response response_size in
    (result, written, control')

-- `swbt_ipc_adapter_handle_line` on a line and into a buffer that are not NULL: the result and the
-- response's text. The version string is that of the build.
unfoldable pub handle_line :
    Bytes → Option Control → ℕ → Bytes → ℕ → JsonResult × Bytes × Option Control
unfolding answer_line
handle_line version control client_id line response_size =
    if is_null control || response_size == 0
    then (JsonResult.invalid_argument, [], control)
    else answer_line version control client_id line response_size

-- `swbt_ipc_adapter_handle_disconnect`.
unfoldable pub handle_disconnect : Option Control → ℕ → IpcResult × Option Control
unfolding map_control_result disconnect_client
handle_disconnect control client_id =
    let (result, control') = disconnect_client control client_id in
    (map_control_result result, control')

-- `swbt_ipc_adapter_handle_heartbeat_timeout`.
unfoldable pub handle_heartbeat_timeout : Option Control → ℕ → IpcResult × Option Control
unfolding map_control_result heartbeat_timeout_client
handle_heartbeat_timeout control client_id =
    let (result, control') = heartbeat_timeout_client control client_id in
    (map_control_result result, control')

-- `swbt_ipc_adapter_handle_shutdown`.
unfoldable pub handle_shutdown : Option Control → IpcResult × Option Control
unfolding map_control_result Control.shutdown
handle_shutdown control =
    let (result, control') = Control.shutdown control in (map_control_result result, control')
