-- ===== src/Ipc/Decode/Raw.antt =====
-- The texts of decoded messages: swbt/ipc/ipc_json.c.
use swbt_daemon.Common.{
  ℕ, zero, suc, ◌+◌, ◌<◌, ◌≡◌, refl, sym, subst, ap, ◌⊎◌, Bool, true, false, Option, none, some, [],
  ◌∷◌, length, arith, if_both, if◌then◌else◌,
}
use swbt_daemon.Common.Text.{Bytes, text, same_text}
use swbt_daemon.Ipc.{Command, Response, ErrorCode, json_string_max, CommandType}
use swbt_daemon.Switch.State.{ControllerState}
use swbt_daemon.Ipc.Scan.{is_complete_object}
use swbt_daemon.Ipc.Keys.{
  Field, missing, invalid, found, copy_string, read_quoted, read_string, get_string, find_key_value,
}
use swbt_daemon.Ipc.Fields.{parse_request_id, parse_state, parse_owner_id}
use swbt_daemon.Ipc.Decode.{
  init_command, init_response, copy_text, text_can_be_written_raw, set_error, copy_request_id,
  decode_owner, decode_set_state, decode_type, decode_typed, decode_command, version_is_1, refuse,
  with_owner, with_owner_field, with_state, with_type, with_request_id,
}

-- A text that can stand between quotes as it is, and fits its buffer.
abbrev pub IsRaw : Bytes → Type 0
IsRaw s = (text_can_be_written_raw s ≡ true) × (length s < json_string_max)

pub nil-IsRaw : IsRaw []
unfolding text_can_be_written_raw
nil-IsRaw = (refl, omega arith)

pub copy_text-short : (size : ℕ) (s : Bytes) → length s < size → copy_text size s ≡ s
unfolding copy_text
copy_text-short zero s h = absurd (omega arith)
copy_text-short (suc zero) [] h = refl
copy_text-short (suc zero) (c ∷ s) h = absurd (omega arith)
copy_text-short (suc (suc size)) [] h = refl
copy_text-short (suc (suc size)) (c ∷ s) h =
    ap (λ t. c ∷ t) (copy_text-short (suc size) s (omega arith))

copy_string_sound :
    (cs : Bytes) (n size : ℕ) (out rest : Bytes)
    → copy_string cs n size ≡ some (out, rest)
    → (text_can_be_written_raw out ≡ true) × ((length out ≡ 0) ⊎ (length out + n < size))
unfolding copy_string text_can_be_written_raw
copy_string_sound [] n size out rest h = cc
copy_string_sound (c ∷ cs) n size out rest h =
    by_tail (copy_string cs (n + 1) size) refl (λ o r e. copy_string_sound cs (n + 1) size o r e)
  where
    by_tail :
        (tail : Option (Bytes × Bytes))
        → copy_string cs (n + 1) size ≡ tail
        → ((o r : Bytes)
            → copy_string cs (n + 1) size ≡ some (o, r)
            → (text_can_be_written_raw o ≡ true) × ((length o ≡ 0) ⊎ (length o + (n + 1) < size)))
        → (text_can_be_written_raw out ≡ true) × ((length out ≡ 0) ⊎ (length out + n < size))
    by_tail none e sound = ground arith
    by_tail (some (o, r)) e sound = ground (arith, sound o r e)

read_string-IsRaw :
    (value : Option Bytes) (s : Bytes) → read_string value json_string_max ≡ found s → IsRaw s
unfolding read_string read_quoted
read_string-IsRaw none s h = ground arith
read_string-IsRaw (some []) s h = ground arith
read_string-IsRaw (some (c ∷ cs)) s h = by_copy (copy_string cs 0 json_string_max) refl
  where
    by_copy : (o : Option (Bytes × Bytes)) → copy_string cs 0 json_string_max ≡ o → IsRaw s
    by_copy none e = ground arith
    by_copy (some (out, rest)) e = ground (arith, copy_string_sound cs 0 json_string_max out rest e)

parse_request_id-IsRaw :
    (line : Bytes) (has : Bool) (id : Bytes) → parse_request_id line ≡ some (has, id) → IsRaw id
unfolding parse_request_id get_string
parse_request_id-IsRaw line has id h =
    by_field (get_string line (text "request_id") json_string_max) refl
  where
    by_field :
        (f : Field Bytes) → get_string line (text "request_id") json_string_max ≡ f → IsRaw id
    by_field missing e = ground (arith, nil-IsRaw)
    by_field invalid e = ground arith
    by_field (found s) e =
        ground (arith, read_string-IsRaw (find_key_value line (text "request_id")) s e)

-- The texts of a command and of an error response.
abbrev pub AreRaw : Command × Response → Type 0
AreRaw (command, response) =
    IsRaw command.request_id × IsRaw response.request_id × IsRaw response.error_message

pub copied-IsRaw :
    (has : Bool) (id : Bytes) → IsRaw id → IsRaw (if has then copy_text json_string_max id else [])
copied-IsRaw true id raw = subst IsRaw (sym (copy_text-short json_string_max id raw.1)) raw
copied-IsRaw false id raw = nil-IsRaw

set_error-AreRaw :
    (command : Command) (has : Bool) (id : Bytes) (code : ErrorCode) (message : Bytes)
    → IsRaw command.request_id
    → IsRaw id
    → IsRaw message
    → AreRaw (command, set_error init_response has id code message)
unfolding set_error
set_error-AreRaw command has id code message own raw raw' =
    (own, copied-IsRaw has id raw, copied-IsRaw true message raw')

refuse-AreRaw :
    (has : Bool) (id : Bytes) (code : ErrorCode) (message : Bytes)
    → IsRaw id
    → IsRaw message
    → AreRaw (refuse has id code message)
unfolding init_command
refuse-AreRaw has id code message raw raw' =
    set_error-AreRaw init_command has id code message nil-IsRaw raw raw'

with_owner_field-request_id :
    (command : Command) (f : Field Bytes)
    → (with_owner_field command f).request_id ≡ command.request_id
with_owner_field-request_id command missing = refl
with_owner_field-request_id command invalid = refl
with_owner_field-request_id command (found owner_id) = by_id (parse_owner_id owner_id)
  where
    by_id : (o : Option ℕ) → (with_owner command o).request_id ≡ command.request_id
    by_id none = refl
    by_id (some id) = refl

decode_owner-IsRaw :
    (line : Bytes) (command : Command)
    → IsRaw command.request_id
    → IsRaw (decode_owner line command).request_id
unfolding decode_owner
decode_owner-IsRaw line command raw =
    subst IsRaw
      (sym
        (with_owner_field-request_id command (get_string line (text "owner_id") json_string_max)))
      raw

with_state-AreRaw :
    (line : Bytes) (has : Bool) (id : Bytes) (command : Command) (o : Option (ControllerState × ℕ))
    → IsRaw id
    → IsRaw command.request_id
    → AreRaw (with_state line has id command o)
unfolding init_response text_can_be_written_raw
with_state-AreRaw line has id command none raw own =
    refuse-AreRaw has id _ _ raw (refl, omega arith)
with_state-AreRaw line has id command (some (state, n)) raw own = (
  decode_owner-IsRaw line (record command { type = CommandType.set_state }) own,
  nil-IsRaw,
  nil-IsRaw,
)

decode_type-AreRaw :
    (line : Bytes) (has : Bool) (id type : Bytes) → IsRaw id → AreRaw (decode_type line has id type)
unfolding decode_type decode_set_state init_response copy_request_id text_can_be_written_raw
decode_type-AreRaw line has id type raw =
    let command = copy_request_id init_command has id in
    let own : IsRaw (command.request_id) = copied-IsRaw has id raw in
    let kept : IsRaw (command.request_id) × IsRaw [] × IsRaw [] = (own, nil-IsRaw, nil-IsRaw) in
    if_both AreRaw (same_text type (text "hello")) kept (
      if_both AreRaw (same_text type (text "acquire")) kept (
        if_both AreRaw (same_text type (text "release"))
          (
            decode_owner-IsRaw line (record command { type = CommandType.release }) own,
            nil-IsRaw,
            nil-IsRaw,
          )
          (if_both AreRaw (same_text type (text "set_state"))
            (with_state-AreRaw line has id command (parse_state line) raw own)
            (if_both AreRaw (same_text type (text "get_status")) kept
              (set_error-AreRaw command has id _ _ own raw (refl, omega arith))))))

with_type-AreRaw :
    (line : Bytes) (has : Bool) (id : Bytes) (f : Field Bytes)
    → IsRaw id
    → AreRaw (with_type line has id f)
unfolding text_can_be_written_raw
with_type-AreRaw line has id missing raw = refuse-AreRaw has id _ _ raw (refl, omega arith)
with_type-AreRaw line has id invalid raw = refuse-AreRaw has id _ _ raw (refl, omega arith)
with_type-AreRaw line has id (found type) raw = decode_type-AreRaw line has id type raw

with_request_id-AreRaw :
    (line : Bytes) (o : Option (Bool × Bytes))
    → ((has : Bool) (id : Bytes) → o ≡ some (has, id) → IsRaw id)
    → AreRaw (with_request_id line o)
unfolding decode_typed text_can_be_written_raw
with_request_id-AreRaw line none raw = refuse-AreRaw false [] _ _ nil-IsRaw (refl, omega arith)
with_request_id-AreRaw line (some (has, id)) raw =
    if_both AreRaw (version_is_1 line)
      (with_type-AreRaw line has id (get_string line (text "type") json_string_max)
        (raw has id refl))
      (refuse-AreRaw has id _ _ (raw has id refl) (refl, omega arith))

-- Every text that a decoded line puts into a command or an error response can be written between
-- quotes as it is, and fits its buffer.
pub decode-AreRaw : (line : Bytes) → AreRaw (decode_command line)
unfolding decode_command text_can_be_written_raw
decode-AreRaw line =
    if_both AreRaw (is_complete_object line)
      (with_request_id-AreRaw line (parse_request_id line) (parse_request_id-IsRaw line))
      (refuse-AreRaw false [] _ _ nil-IsRaw (refl, omega arith))
