-- ===== src/Ipc/Decode.antt =====
-- The decoder of commands: `swbt_ipc_json_decode_command` of swbt/ipc/ipc_json.c and its helpers.
-- Its arguments are not NULL, as its one caller makes sure, so its result is always
-- `SWBT_IPC_JSON_OK` and is left out.
pub mod Raw
pub mod States
pub mod Commands
use swbt_daemon.Common.{
  ℕ, zero, suc, Bool, true, false, ◌||◌, Option, none, some, [], ◌∷◌, ltb, ◌==◌, if◌then◌else◌,
}
use swbt_daemon.Common.Int.{ℤ, pos}
use swbt_daemon.Common.Text.{Bytes, text, same_text}
use swbt_daemon.Switch.State.{ControllerState, neutral}
use swbt_daemon.Support.Metrics
use swbt_daemon.Domain.Status
use swbt_daemon.Ipc
use swbt_daemon.Ipc.{
  Command, CommandType, Response, ResponseType, ResponseStatus, ErrorCode, json_string_max,
}
use swbt_daemon.Ipc.Scan.{quote, backslash, is_complete_object}
use swbt_daemon.Ipc.Keys.{Field, missing, invalid, found, get_string, get_i64}
use swbt_daemon.Ipc.Fields.{parse_owner_id, parse_request_id, parse_state}

-- `swbt_ipc_json_init_command`.
unfoldable pub init_command : Command
init_command = record {
  type = CommandType.none;
  has_request_id = false;
  request_id = [];
  has_owner_id = false;
  owner_client_id = 0;
  sequence = 0;
  state = neutral;
}

-- The zeroed status; the enumerations that are not set explicitly have a constant 0 of that name.
abbrev pub init_status : ResponseStatus
init_status = record {
  has_owner = false;
  owner_client_id = 0;
  last_sequence = 0;
  state = neutral;
  rumble = record { raw = λ index. 0; updated_at_ms = 0; updated = false };
  metrics = record {
    report_ticks = 0;
    report_send_ok = 0;
    report_send_failed = 0;
    report_interval_count = 0;
    report_interval_average_us = 0;
    report_interval_max_us = 0;
    ipc_state_accepted = 0;
    ipc_state_rejected = 0;
    ipc_state_coalesced = 0;
    hardware_status = Metrics.unavailable;
    actual_report_rate_hz = 0;
    jitter_max_us = 0;
  };
  daemon = record {
    backend = Status.Backend.unknown;
    lifecycle_state = Status.Lifecycle.unavailable;
    hardware_approval = Status.HardwareApproval.unavailable;
  };
  hardware = record {
    adapter_state = Status.ChannelState.unavailable;
    switch_connection_state = Status.ChannelState.unavailable;
    hid_channel_state = Status.ChannelState.unavailable;
  };
}

-- `swbt_ipc_json_init_response`.
unfoldable pub init_response : Response
init_response = record {
  type = ResponseType.none;
  has_request_id = false;
  request_id = [];
  client_id = 0;
  owner_client_id = 0;
  sequence = 0;
  status = init_status;
  error_code = ErrorCode.invalid_json;
  error_message = [];
}

-- `swbt_ipc_json_copy_text` into a buffer of a positive size, of which one place is for the NUL.
unfoldable pub copy_text : ℕ → Bytes → Bytes
copy_text zero cs = []
copy_text (suc zero) cs = []
copy_text (suc (suc room)) [] = []
copy_text (suc (suc room)) (c ∷ cs) = c ∷ copy_text (suc room) cs

-- `swbt_ipc_json_text_can_be_written_raw`.
unfoldable pub text_can_be_written_raw : Bytes → Bool
text_can_be_written_raw [] = true
text_can_be_written_raw (c ∷ cs) =
    let rest = text_can_be_written_raw cs in
    if c == quote || c == backslash || ltb c 0x20 then false else rest

-- `swbt_ipc_json_set_error`.
unfoldable pub set_error : Response → Bool → Bytes → ErrorCode → Bytes → Response
unfolding copy_text
set_error response has_request_id request_id error_code message = record response {
  type = ResponseType.error;
  has_request_id = has_request_id;
  request_id = if has_request_id then copy_text json_string_max request_id else [];
  error_code = error_code;
  error_message = copy_text json_string_max message;
}

-- `swbt_ipc_json_copy_request_id`.
unfoldable pub copy_request_id : Command → Bool → Bytes → Command
unfolding copy_text
copy_request_id command has_request_id request_id = record command {
  has_request_id = has_request_id;
  request_id = if has_request_id then copy_text json_string_max request_id else [];
}

-- The command and the error response that are left.
abbrev pub refuse : Bool → Bytes → ErrorCode → Bytes → Command × Response
refuse has_request_id request_id error_code message =
    (init_command, set_error init_response has_request_id request_id error_code message)

-- The client that an owner identifier stands for.
abbrev pub with_owner : Command → Option ℕ → Command
with_owner command none = record command { has_owner_id = false }
with_owner command (some id) = record command { has_owner_id = true; owner_client_id = id }

abbrev pub with_owner_field : Command → Field Bytes → Command
with_owner_field command missing = command
with_owner_field command invalid = command
with_owner_field command (found owner_id) = with_owner command (parse_owner_id owner_id)

-- The owner identifier of a message; one that is not a string of at most 95 characters counts as
-- missing.
unfoldable pub decode_owner : Bytes → Command → Command
unfolding get_string parse_owner_id
decode_owner line command =
    with_owner_field command (get_string line (text "owner_id") json_string_max)

abbrev pub with_state :
    Bytes → Bool → Bytes → Command → Option (ControllerState × ℕ) → Command × Response
with_state line has_request_id request_id command none =
    refuse has_request_id request_id ErrorCode.invalid_state (text "state field is invalid")
with_state line has_request_id request_id command (some (state, sequence)) = (
  record (decode_owner line (record command { type = CommandType.set_state })) {
    state = state;
    sequence = sequence;
  },
  init_response,
)

-- The command `set_state`.
unfoldable pub decode_set_state : Bytes → Bool → Bytes → Command → Command × Response
unfolding decode_owner parse_state
decode_set_state line has_request_id request_id command =
    with_state line has_request_id request_id command (parse_state line)

-- The tests of the command's type.
unfoldable pub decode_type : Bytes → Bool → Bytes → Bytes → Command × Response
unfolding copy_request_id decode_owner decode_set_state
decode_type line has_request_id request_id type =
    let command = copy_request_id init_command has_request_id request_id in
    if same_text type (text "hello")
    then (record command { type = CommandType.hello }, init_response)
    else if same_text type (text "acquire")
    then (record command { type = CommandType.acquire }, init_response)
    else if same_text type (text "release")
    then (decode_owner line (record command { type = CommandType.release }), init_response)
    else if same_text type (text "set_state")
    then decode_set_state line has_request_id request_id command
    else if same_text type (text "get_status")
    then (record command { type = CommandType.get_status }, init_response)
    else (
      command,
      set_error init_response has_request_id request_id ErrorCode.unsupported_command
          (text "unsupported command type"),
    )

abbrev pub with_type : Bytes → Bool → Bytes → Field Bytes → Command × Response
with_type line has_request_id request_id missing =
    refuse has_request_id request_id ErrorCode.unsupported_command (text "missing command type")
with_type line has_request_id request_id invalid =
    refuse has_request_id request_id ErrorCode.invalid_json (text "type is invalid")
with_type line has_request_id request_id (found type) =
    decode_type line has_request_id request_id type

-- The test of the type.
unfoldable pub decode_typed : Bytes → Bool → Bytes → Command × Response
unfolding decode_type
decode_typed line has_request_id request_id =
    with_type line has_request_id request_id (get_string line (text "type") json_string_max)

abbrev pub version_is_1 : Bytes → Bool
version_is_1 line = elim (get_i64 line (text "v")) [ found (pos n) ↦ n == 1 | _ ↦ false ]

abbrev pub with_request_id : Bytes → Option (Bool × Bytes) → Command × Response
with_request_id line none = refuse false [] ErrorCode.invalid_json (text "request_id is invalid")
with_request_id line (some (has_request_id, request_id)) =
    if version_is_1 line
    then decode_typed line has_request_id request_id
    else refuse has_request_id request_id ErrorCode.invalid_version
        (text "unsupported protocol version")

-- `swbt_ipc_json_decode_command`: `*out_command` and `*out_error_response`.
unfoldable pub decode_command : Bytes → Command × Response
unfolding is_complete_object parse_request_id decode_typed
decode_command line =
    if is_complete_object line
    then with_request_id line (parse_request_id line)
    else refuse false [] ErrorCode.invalid_json (text "message is not a complete JSON object")
