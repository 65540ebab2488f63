-- ===== src/Ipc/Fields.antt =====
-- The fields of the messages: the functions of swbt/ipc/ipc_json.c that read and print identifiers,
-- and read the controller state.
use swbt_daemon.Common.{
  ℕ, zero, suc, ◌+◌, ◌-◌, ◌*◌, ◌/◌, ◌^◌, Bool, true, false, ◌&&◌, ◌||◌, not, Option, none, some, [],
  ◌∷◌, length, get_or, bit_and, bit_or, leb, ltb, ◌==◌, if◌then◌else◌,
}
use swbt_daemon.Common.Int.{ℤ, pos, negsuc}
use swbt_daemon.Common.Buffer.{Buffer}
use swbt_daemon.Common.Text.{Bytes, text, peek, strtoul_16}
use swbt_daemon.Switch.State.{ControllerState, neutral, flag}
use swbt_daemon.Switch.State
use swbt_daemon.Switch.Rumble.{data_size}
use swbt_daemon.Ipc.{json_string_max}
use swbt_daemon.Ipc.Keys.{Field, missing, invalid, found, find_key_value, get_string, get_i64}

abbrev pub owner_id_hex_size : ℕ
owner_id_hex_size = 8

abbrev pub stick_max : ℕ
stick_max = 4095

-- `SWBT_DEFINED_BUTTON_MASK`.
unfoldable pub defined_button_mask : ℕ
unfolding flag
defined_button_mask =
    let right_hand =
      bit_or (flag State.y) (bit_or (flag State.x) (bit_or (flag State.b) (flag State.a))) in
    let right_rail =
      bit_or (flag State.sr_r) (bit_or (flag State.sl_r) (bit_or (flag State.r) (flag State.zr))) in
    let middle =
      bit_or (flag State.minus)
        (bit_or (flag State.plus) (bit_or (flag State.r_stick) (flag State.l_stick))) in
    let system = bit_or (flag State.home) (flag State.capture) in
    let arrows =
      bit_or (flag State.down)
        (bit_or (flag State.up) (bit_or (flag State.right) (flag State.left))) in
    let left_rail =
      bit_or (flag State.sr_l) (bit_or (flag State.sl_l) (bit_or (flag State.l) (flag State.zl))) in
    bit_or right_hand (bit_or right_rail (bit_or middle (bit_or system (bit_or arrows left_rail))))

-- `hex[n]`.
unfoldable pub hex_char : ℕ → ℕ
hex_char n = get_or (text "0123456789abcdef") n 0

-- The last `n` hexadecimal digits, as the loop of `swbt_ipc_format_owner_id` writes them.
unfoldable pub hex_digits : ℕ → ℕ → Bytes
unfolding hex_char
hex_digits zero id = []
hex_digits (suc n) id = hex_char (bit_and (id / 2 ^ (n * 4)) 0x0F) ∷ hex_digits n id

-- `swbt_ipc_format_owner_id`.
unfoldable pub format_owner_id : ℕ → Bytes
unfolding hex_digits
format_owner_id client_id = hex_digits owner_id_hex_size client_id

-- The two digits of each of `n` bytes from an index on.
unfoldable pub hex_bytes : ℕ → ℕ → Buffer → Bytes
unfolding hex_char
hex_bytes zero index raw = []
hex_bytes (suc n) index raw =
    hex_char (bit_and (raw index / 2 ^ 4) 0x0F)
    ∷ hex_char (bit_and (raw index) 0x0F)
    ∷ hex_bytes n (index + 1) raw

-- `swbt_ipc_format_rumble_raw`.
unfoldable pub format_rumble_raw : Buffer → Bytes
unfolding hex_bytes
format_rumble_raw raw = hex_bytes data_size 0 raw

abbrev pub whole_id : Option (ℕ × Bytes) → Option ℕ
whole_id none = none
whole_id (some (parsed, end)) =
    if not (peek end == 0) || ltb (2 ^ 32 - 1) parsed then none else some parsed

-- `swbt_ipc_parse_owner_id` of a string: `*out_client_id`, or `none` for false.
unfoldable pub parse_owner_id : Bytes → Option ℕ
unfolding strtoul_16
parse_owner_id owner_id =
    if length owner_id == owner_id_hex_size then whole_id (strtoul_16 owner_id) else none

-- `swbt_ipc_parse_request_id`: `*has_request_id` and `request_id`, or `none` for false.
unfoldable pub parse_request_id : Bytes → Option (Bool × Bytes)
unfolding get_string
parse_request_id line = elim (get_string line (text "request_id") json_string_max) [
  | missing ↦ some (false, [])
  | invalid ↦ none
  | found request_id ↦ some (true, request_id)
]

-- `swbt_ipc_parse_required_i64`.
unfoldable pub parse_required_i64 : Bytes → Bytes → Option ℤ
unfolding get_i64
parse_required_i64 line key = elim (get_i64 line key) [
  | missing ↦ none
  | invalid ↦ none
  | found value ↦ some value
]

-- The tests of the ranges.
abbrev pub i16_of : ℤ → Option ℤ
i16_of (pos n) = if leb n (2 ^ 15 - 1) then some (pos n) else none
i16_of (negsuc n) = if leb n (2 ^ 15 - 1) then some (negsuc n) else none

abbrev pub stick_of : ℤ → Option ℕ
stick_of (pos n) = if leb n stick_max then some n else none
stick_of (negsuc n) = none

abbrev pub buttons_of : ℤ → Option ℕ
buttons_of (pos n) =
    if leb n (2 ^ 32 - 1) && bit_and n (2 ^ 32 - 1 - defined_button_mask) == 0 then some n else none
buttons_of (negsuc n) = none

infixl 5 ◌>>=◌
unfoldable pub ◌>>=◌ {ℓ κ} : {A : Type ℓ} {B : Type κ} → Option A → (A → Option B) → Option B
none >>= next = none
some a >>= next = next a

-- `swbt_ipc_parse_i16_field`.
unfoldable pub parse_i16_field : Bytes → Bytes → Option ℤ
unfolding parse_required_i64
parse_i16_field line key = parse_required_i64 line key >>= i16_of

-- `swbt_ipc_parse_stick_field`.
unfoldable pub parse_stick_field : Bytes → Bytes → Option ℕ
unfolding parse_required_i64
parse_stick_field line key = parse_required_i64 line key >>= stick_of

-- The sequence number, 0 where the message has none.
abbrev pub sequence_of : Field ℤ → Option ℕ
sequence_of missing = some 0
sequence_of invalid = none
sequence_of (found (pos n)) = some n
sequence_of (found (negsuc n)) = none

unfoldable pub parse_sequence : Bytes → Option ℕ
unfolding get_i64
parse_sequence line = sequence_of (get_i64 line (text "seq"))

-- The fields of the controller state.
unfoldable pub parse_controls : Bytes → Option ControllerState
unfolding parse_required_i64 parse_stick_field parse_i16_field
parse_controls json = do
  raw_buttons ← parse_required_i64 json (text "buttons")
  buttons ← buttons_of raw_buttons
  lx ← parse_stick_field json (text "lx")
  ly ← parse_stick_field json (text "ly")
  rx ← parse_stick_field json (text "rx")
  ry ← parse_stick_field json (text "ry")
  accel_x ← parse_i16_field json (text "accel_x")
  accel_y ← parse_i16_field json (text "accel_y")
  accel_z ← parse_i16_field json (text "accel_z")
  gyro_x ← parse_i16_field json (text "gyro_x")
  gyro_y ← parse_i16_field json (text "gyro_y")
  gyro_z ← parse_i16_field json (text "gyro_z")
  some (record {
    buttons = buttons;
    lx = lx;
    ly = ly;
    rx = rx;
    ry = ry;
    accel_x = accel_x;
    accel_y = accel_y;
    accel_z = accel_z;
    gyro_x = gyro_x;
    gyro_y = gyro_y;
    gyro_z = gyro_z;
  })

-- `swbt_ipc_parse_state`: `*out_state` and `*out_sequence`, or `none` for false.
unfoldable pub parse_state : Bytes → Option (ControllerState × ℕ)
unfolding find_key_value parse_controls parse_sequence
parse_state line = do
  json ← find_key_value line (text "state")
  object ← (if peek json == b'{' then some json else none)
  state ← parse_controls object
  sequence ← parse_sequence line
  some (state, sequence)
