-- ===== src/Ipc/Decode/Commands.antt =====
-- The commands that are decoded: swbt/ipc/ipc_json.c.
use swbt_daemon.Common.{ℕ, ◌^◌, ◌<◌, Bool, Option, none, some, length, ◌==◌, arith, if_both}
use swbt_daemon.Common.Text.{Bytes, text, same_text, strtoul_16}
use swbt_daemon.Switch.State.{ControllerState}
use swbt_daemon.Ipc.{Command, Response, CommandType, json_string_max}
use swbt_daemon.Ipc.Scan.{is_complete_object}
use swbt_daemon.Ipc.Keys.{Field, missing, invalid, found, get_string}
use swbt_daemon.Ipc.Fields.{
  owner_id_hex_size, parse_owner_id, whole_id, parse_request_id, parse_state,
}
use swbt_daemon.Ipc.Decode.{
  init_command, copy_request_id, with_owner, with_owner_field, with_state, with_type,
  with_request_id, decode_owner, decode_set_state, decode_type, decode_typed, decode_command,
  version_is_1,
}
use swbt_daemon.Ipc.Decode.States.{
  IsDecodable, neutral-IsDecodable, IsUpdate, Holds, Has, nothing, just, state-Holds,
}

-- A state that the controller can take, a sequence number of 63 bits and a client of 32.
abbrev pub IsSound : Command → Type 0
IsSound command =
    IsDecodable command.state × (command.sequence < 2 ^ 63) × (command.owner_client_id < 2 ^ 32)

init-IsSound : (has : Bool) (id : Bytes) → IsSound (copy_request_id init_command has id)
unfolding init_command copy_request_id
init-IsSound has id = (neutral-IsDecodable, omega arith, omega arith)

refused-IsSound : IsSound init_command
unfolding init_command
refused-IsSound = (neutral-IsDecodable, omega arith, omega arith)

abbrev IsClientId : ℕ → Type 0
IsClientId n = n < 2 ^ 32

whole_id-Has : (o : Option (ℕ × Bytes)) → Has IsClientId (whole_id o)
whole_id-Has none = tt
whole_id-Has (some (n, end)) = ground arith

parse_owner_id-Has : (s : Bytes) → Has IsClientId (parse_owner_id s)
unfolding parse_owner_id
parse_owner_id-Has s =
    if_both (Has IsClientId) (length s == owner_id_hex_size) (whole_id-Has (strtoul_16 s)) tt

with_owner-IsSound :
    (command : Command) (o : Option ℕ)
    → Has IsClientId o
    → IsSound command
    → IsSound (with_owner command o)
with_owner-IsSound command none h sound = sound
with_owner-IsSound command (some id) h sound = (sound.0, sound.1, h)

with_owner_field-IsSound :
    (command : Command) (f : Field Bytes) → IsSound command → IsSound (with_owner_field command f)
with_owner_field-IsSound command missing sound = sound
with_owner_field-IsSound command invalid sound = sound
with_owner_field-IsSound command (found s) sound =
    with_owner-IsSound command (parse_owner_id s) (parse_owner_id-Has s) sound

decode_owner-IsSound :
    (line : Bytes) (command : Command) → IsSound command → IsSound (decode_owner line command)
unfolding decode_owner
decode_owner-IsSound line command sound =
    with_owner_field-IsSound command (get_string line (text "owner_id") json_string_max) sound

abbrev SoundCommand : Command × Response → Type 0
SoundCommand (command, response) = IsSound command

with_state-IsSound :
    (line : Bytes) (has : Bool) (id : Bytes) (command : Command) (o : Option (ControllerState × ℕ))
    → Holds IsUpdate o
    → IsSound command
    → SoundCommand (with_state line has id command o)
with_state-IsSound line has id command _ nothing sound = refused-IsSound
with_state-IsSound line has id command _ (just (state, n) h) sound =
    let owned = decode_owner-IsSound line (record command { type = CommandType.set_state }) sound in
    (h.0, h.1, owned.2)

decode_type-IsSound :
    (line : Bytes) (has : Bool) (id type : Bytes) → SoundCommand (decode_type line has id type)
unfolding decode_type decode_set_state
decode_type-IsSound line has id type =
    let command = copy_request_id init_command has id in
    let sound : IsSound command = init-IsSound has id in
    if_both SoundCommand (same_text type (text "hello")) sound (
      if_both SoundCommand (same_text type (text "acquire")) sound (
        if_both SoundCommand (same_text type (text "release"))
          (decode_owner-IsSound line (record command { type = CommandType.release }) sound)
          (if_both SoundCommand (same_text type (text "set_state"))
            (with_state-IsSound line has id command (parse_state line) (state-Holds line) sound)
            (if_both SoundCommand (same_text type (text "get_status")) sound sound))))

with_type-IsSound :
    (line : Bytes) (has : Bool) (id : Bytes) (f : Field Bytes)
    → SoundCommand (with_type line has id f)
with_type-IsSound line has id missing = refused-IsSound
with_type-IsSound line has id invalid = refused-IsSound
with_type-IsSound line has id (found type) = decode_type-IsSound line has id type

with_request_id-IsSound :
    (line : Bytes) (o : Option (Bool × Bytes)) → SoundCommand (with_request_id line o)
unfolding decode_typed
with_request_id-IsSound line none = refused-IsSound
with_request_id-IsSound line (some (has, id)) =
    if_both SoundCommand (version_is_1 line)
      (with_type-IsSound line has id (get_string line (text "type") json_string_max))
      refused-IsSound

-- Whatever the line, the decoded command holds a controller state of existing buttons, 12-bit
-- sticks and 16-bit inertial values, a sequence number below 2^63 and a client identifier of 32
-- bits.
pub decode-IsSound : (line : Bytes) → IsSound (decode_command line).0
unfolding decode_command
decode-IsSound line =
    if_both SoundCommand (is_complete_object line)
      (with_request_id-IsSound line (parse_request_id line)) refused-IsSound
