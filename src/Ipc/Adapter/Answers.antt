-- ===== src/Ipc/Adapter/Answers.antt =====
-- The answers to the lines: swbt/ipc/ipc_adapter.c with the decoder and the encoder of ipc_json.c.
use swbt_daemon.Common.{
  ℕ, ◌≤◌, ◌≡◌, ◌≢◌, refl, sym, subst, true, Option, none, some, [], length, arith, if◌then◌else◌,
  if_both,
}
use swbt_daemon.Common.Text.{Bytes, text}
use swbt_daemon.Control.{Control, acquire_client, release_client, submit_client_state}
use swbt_daemon.Ipc.{
  Command, CommandType, Response, ResponseType, ErrorCode, JsonResult, json_response_max,
  json_string_max,
}
use swbt_daemon.Ipc.Decode.{copy_text, set_error, decode_command, text_can_be_written_raw}
use swbt_daemon.Ipc.Decode.Raw.{IsRaw, copied-IsRaw, nil-IsRaw, decode-AreRaw, AreRaw}
use swbt_daemon.Ipc.Encode.{encode_response}
use swbt_daemon.Ipc.Encode.Fits.{encode-fits}
use swbt_daemon.Ipc.Adapter.{
  IpcResult, IpcStatus, ok, invalid_argument, owner_busy, not_owner, map_control_result,
  command_owner_matches_client, get_status, start, error_from_command, not_owner_error,
  answer_acquire, answer_release, answer_set_state, answer_status, execute, execute_command,
  respond, respond_as, answer_line, handle_line,
}

-- What every answer to a command has: a type, the command's request identifier and a message that
-- can be written raw.
pub record IsReply (command : Command) (response : Response) : Type 0 where
  pub typed : response.type ≢ ResponseType.none
  pub same_flag : response.has_request_id ≡ command.has_request_id
  pub same_id :
      response.request_id
      ≡ (if command.has_request_id then copy_text json_string_max command.request_id else [])
  pub message_raw : IsRaw response.error_message

error-IsReply :
    (command : Command) (code : ErrorCode) (message : Bytes)
    → IsRaw message
    → IsReply command (error_from_command command code message)
unfolding error_from_command set_error
error-IsReply command code message raw = record {
  typed = ground arith;
  same_flag = refl;
  same_id = refl;
  message_raw = copied-IsRaw true message raw;
}

started-IsReply :
    (command : Command) (type : ResponseType) (client owner sequence : ℕ)
    → type ≢ ResponseType.none
    → IsReply command (record (start command) {
      type = type;
      client_id = client;
      owner_client_id = owner;
      sequence = sequence;
    })
unfolding start
started-IsReply command type client owner sequence typed = record {
  typed = typed;
  same_flag = refl;
  same_id = refl;
  message_raw = nil-IsRaw;
}

acquire-IsReply :
    (command : Command) (client : ℕ) (result : IpcResult)
    → IsReply command (answer_acquire command client result)
unfolding answer_acquire text_can_be_written_raw
acquire-IsReply command client ok =
    started-IsReply command ResponseType.acquired 0 client 0 (ground arith)
acquire-IsReply command client owner_busy =
    error-IsReply command ErrorCode.owner_busy (text "another client owns the controller")
      (refl, omega arith)
acquire-IsReply command client not_owner =
    error-IsReply command ErrorCode.internal_error (text "failed to acquire owner")
      (refl, omega arith)
acquire-IsReply command client invalid_argument =
    error-IsReply command ErrorCode.internal_error (text "failed to acquire owner")
      (refl, omega arith)

release-IsReply :
    (command : Command) (result : IpcResult) → IsReply command (answer_release command result)
unfolding answer_release text_can_be_written_raw
release-IsReply command ok = started-IsReply command ResponseType.released 0 0 0 (ground arith)
release-IsReply command owner_busy =
    error-IsReply command ErrorCode.internal_error (text "failed to release owner")
      (refl, omega arith)
release-IsReply command not_owner =
    error-IsReply command ErrorCode.not_owner (text "client does not own the controller")
      (refl, omega arith)
release-IsReply command invalid_argument =
    error-IsReply command ErrorCode.internal_error (text "failed to release owner")
      (refl, omega arith)

set_state-IsReply :
    (command : Command) (result : IpcResult) → IsReply command (answer_set_state command result)
unfolding answer_set_state text_can_be_written_raw
set_state-IsReply command ok =
    started-IsReply command ResponseType.state_accepted 0 0 command.sequence (ground arith)
set_state-IsReply command owner_busy =
    error-IsReply command ErrorCode.internal_error (text "failed to set state") (refl, omega arith)
set_state-IsReply command not_owner =
    error-IsReply command ErrorCode.not_owner (text "client does not own the controller")
      (refl, omega arith)
set_state-IsReply command invalid_argument =
    error-IsReply command ErrorCode.internal_error (text "failed to set state") (refl, omega arith)

status-IsReply :
    (command : Command) (result : IpcResult) (o : Option IpcStatus)
    → IsReply command (answer_status command result o)
unfolding answer_status start text_can_be_written_raw
status-IsReply command ok none =
    error-IsReply command ErrorCode.internal_error (text "failed to get status") (refl, omega arith)
status-IsReply command ok (some status) = record {
  typed = ground arith;
  same_flag = refl;
  same_id = refl;
  message_raw = nil-IsRaw;
}
status-IsReply command owner_busy o =
    error-IsReply command ErrorCode.internal_error (text "failed to get status") (refl, omega arith)
status-IsReply command not_owner o =
    error-IsReply command ErrorCode.internal_error (text "failed to get status") (refl, omega arith)
status-IsReply command invalid_argument o =
    error-IsReply command ErrorCode.internal_error (text "failed to get status") (refl, omega arith)

not_owner-IsReply : (command : Command) → IsReply command (not_owner_error command)
unfolding text_can_be_written_raw
not_owner-IsReply command =
    error-IsReply command ErrorCode.not_owner (text "client does not own the controller")
      (refl, omega arith)

abbrev Replies : Command → Response × Option Control → Type 0
Replies command (response, control) = IsReply command response

execute-Replies :
    (control : Option Control) (client : ℕ) (command : Command) (type : CommandType)
    → Replies command (execute control client command type)
unfolding start text_can_be_written_raw
execute-Replies control client command CommandType.none =
    error-IsReply command ErrorCode.internal_error (text "failed to decode command")
      (refl, omega arith)
execute-Replies control client command CommandType.hello =
    started-IsReply command ResponseType.hello_ok client 0 0 (ground arith)
execute-Replies control client command CommandType.acquire =
    acquire-IsReply command client (map_control_result (acquire_client control client).0)
execute-Replies control client command CommandType.release =
    if_both (Replies command) (command_owner_matches_client command client)
      (release-IsReply command (map_control_result (release_client control client).0))
      (not_owner-IsReply command)
execute-Replies control client command CommandType.set_state =
    if_both (Replies command) (command_owner_matches_client command client)
      (set_state-IsReply command (
        map_control_result
          (submit_client_state control client (some command.state) command.sequence).0))
      (not_owner-IsReply command)
execute-Replies control client command CommandType.get_status =
    status-IsReply command (get_status control).0 (get_status control).1

-- Every command is answered by a response that has a type, carries the command's request
-- identifier and whose message can be written raw, whatever the state of the control layer.
pub execute-IsReply :
    (control : Option Control) (client : ℕ) (command : Command)
    → IsReply command (execute_command control client command).0
unfolding execute_command
execute-IsReply control client command = execute-Replies control client command command.type

IsReply-IsRaw :
    (command : Command) (response : Response)
    → IsReply command response
    → IsRaw command.request_id
    → IsRaw response.request_id
IsReply-IsRaw command response reply raw =
    subst IsRaw (sym reply.same_id) (copied-IsRaw command.has_request_id command.request_id raw)

abbrev RawResponse : Response × Option Control → Type 0
RawResponse (response, control) = IsRaw response.request_id × IsRaw response.error_message

respond_as-RawResponse :
    (control : Option Control) (client : ℕ) (command : Command) (response : Response)
    (type : ResponseType)
    → AreRaw (command, response)
    → RawResponse (respond_as control client command response type)
respond_as-RawResponse control client command response ResponseType.none raw =
    let reply = execute-IsReply control client command in
    (IsReply-IsRaw command _ reply (raw.0), reply.message_raw)
respond_as-RawResponse control client command response ResponseType.hello_ok raw = (raw.1, raw.2)
respond_as-RawResponse control client command response ResponseType.acquired raw = (raw.1, raw.2)
respond_as-RawResponse control client command response ResponseType.released raw = (raw.1, raw.2)
respond_as-RawResponse control client command response ResponseType.state_accepted raw =
    (raw.1, raw.2)
respond_as-RawResponse control client command response ResponseType.status raw = (raw.1, raw.2)
respond_as-RawResponse control client command response ResponseType.error raw = (raw.1, raw.2)

-- Whatever line a client sends, and whatever the state of the control layer, the adapter writes its
-- response into a buffer of 2048 bytes: the result is never an error. The version string has at
-- most 512 characters.
pub handle_line-answers :
    (version : Bytes) (control : Control) (client : ℕ) (line : Bytes) (size : ℕ)
    → length version ≤ 512
    → json_response_max ≤ size
    → (handle_line version (some control) client line size).0 ≡ JsonResult.ok
unfolding handle_line answer_line respond
handle_line-answers version control client line size hv hs = ground (arith, encoded)
  where
    command : Command
    command = (decode_command line).0

    response : Response
    response = (decode_command line).1

    reply : Response
    reply = (respond_as (some control) client command response response.type).0

    encoded : (encode_response version reply size).0 ≡ JsonResult.ok
    encoded =
        let raw =
          respond_as-RawResponse (some control) client command response response.type
            (decode-AreRaw line) in
        encode-fits version reply size hv (raw.0) (raw.1) hs
