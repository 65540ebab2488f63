-- ===== src/Ipc/Keys.antt =====
-- The lookup of a key of a JSON object and the readers of its value: the rest of the functions
-- `swbt_json_*` of swbt/ipc/ipc_json.c.
pub mod Enough
use swbt_daemon.Common.{
  ℕ, zero, suc, ◌+◌, ◌-◌, Bool, true, false, ◌&&◌, ◌||◌, not, Option, none, some, [], ◌∷◌, length,
  leb, ltb, ◌==◌, if◌then◌else◌,
}
use swbt_daemon.Common.Int.{ℤ}
use swbt_daemon.Common.Text.{Bytes, peek, same_text, is_space, skip_ws, strtoll_10}
use swbt_daemon.Ipc.{json_line_max}
use swbt_daemon.Ipc.Scan.{quote, backslash}

-- The locals of `swbt_json_find_key_value`.
pub record Walk : Type 0 where
  pub in_string : Bool
  pub escaped : Bool
  pub saw_root_object : Bool
  pub depth : ℕ

-- What a round of its loop does: `break`, the next round, or a key that starts here.
pub data WalkRound : Type 0 where
  broken at_key : WalkRound
  next : Walk → WalkRound

unfoldable pub walk_in_string : ℕ → Walk → Walk
walk_in_string c w =
    if w.escaped
    then record w { escaped = false }
    else if c == backslash
    then record w { escaped = true }
    else if c == quote
    then record w { in_string = false }
    else w

-- A `}`; the depth stays 0 there, as the subtraction on ℕ does.
unfoldable pub walk_close : Walk → WalkRound
walk_close w =
    if w.saw_root_object && w.depth - 1 == 0
    then broken
    else next (record w { depth = w.depth - 1 })

unfoldable pub walk_round : ℕ → Walk → WalkRound
unfolding walk_in_string walk_close
walk_round c w =
    if w.in_string
    then next (walk_in_string c w)
    else if c == b'{'
    then next (record w { saw_root_object = true; depth = w.depth + 1 })
    else if c == b'}'
    then walk_close w
    else if not (c == quote)
    then next w
    else if w.depth == 1
    then at_key
    else next (record w { in_string = true })

-- The key at the cursor and what follows its closing quote; `none` where the key ends otherwise.
unfoldable pub read_key : Bytes → Option (Bytes × Bytes)
read_key [] = none
read_key (c ∷ cs) =
    let rest = read_key cs in
    if c == quote
    then some ([], cs)
    else if c == backslash
    then none
    else elim rest [ none ↦ none | some (name, after) ↦ some (c ∷ name, after) ]

-- `swbt_json_key_matches`: the lengths agree and so do the characters.
abbrev pub key_matches : Bytes → Bytes → Bool
key_matches name key = same_text name key

abbrev pub after_colon : Bytes → Bytes
after_colon [] = []
after_colon (c ∷ cs) = skip_ws cs

-- What a round does with the text behind its character, given the rounds that follow.
abbrev pub after_key :
    Option (Bytes × Bytes) → Bytes → Walk → (Bytes → Walk → Option Bytes) → Option Bytes
after_key none key w rounds = none
after_key (some (name, rest)) key w rounds =
    elim (peek (skip_ws rest) == b':' && key_matches name key) [
      | true ↦ some (after_colon (skip_ws rest))
      | false ↦ rounds rest w
    ]

abbrev pub after_round :
    WalkRound → Bytes → Bytes → Walk → (Bytes → Walk → Option Bytes) → Option Bytes
after_round broken cs key w rounds = none
after_round (next w') cs key w rounds = rounds cs w'
after_round at_key cs key w rounds = after_key (read_key cs) key w rounds

-- The loop of `swbt_json_find_key_value`. A round reads at least one character, so the length of
-- the line is fuel enough.
unfoldable pub find_loop : ℕ → Bytes → Bytes → Walk → Option Bytes
unfolding walk_round read_key
find_loop zero json key w = none
find_loop (suc fuel) [] key w = none
find_loop (suc fuel) (c ∷ cs) key w =
    after_round (walk_round c w) cs key w (λ rest w'. find_loop fuel rest key w')

abbrev pub walk_start : Walk
walk_start = record { in_string = false; escaped = false; saw_root_object = false; depth = 0 }

-- `swbt_json_find_key_value`.
unfoldable pub find_key_value : Bytes → Bytes → Option Bytes
unfolding find_loop
find_key_value json key = find_loop (length json) json key walk_start

-- The results 0, -1 and 1 of the readers, the last with what they write to `*out`.
pub data Field {ℓ} (A : Type ℓ) : Type ℓ where
  missing : Field A
  invalid : Field A
  found : A → Field A

-- What may follow a value.
abbrev pub ends_value : Bytes → Bool
ends_value after = let c = peek (skip_ws after) in c == b',' || c == b'}' || c == b']' || c == 0

-- The loop of `swbt_json_read_string`: the characters up to the closing quote, and what follows it.
unfoldable pub copy_string : Bytes → ℕ → ℕ → Option (Bytes × Bytes)
copy_string [] length out_size = none
copy_string (c ∷ cs) length out_size =
    let copied = copy_string cs (length + 1) out_size in
    if c == quote
    then some ([], cs)
    else if c == backslash || ltb c 0x20
    then none
    else if leb out_size (length + 1)
    then none
    else elim copied [ none ↦ none | some (out, rest) ↦ some (c ∷ out, rest) ]

unfoldable pub read_quoted : Bytes → ℕ → Field Bytes
unfolding copy_string
read_quoted value out_size = elim (copy_string value 0 out_size) [
  | none ↦ invalid
  | some (out, rest) ↦ if ends_value rest then found out else invalid
]

-- `swbt_json_read_string`.
unfoldable pub read_string : Option Bytes → ℕ → Field Bytes
unfolding read_quoted
read_string none out_size = missing
read_string (some []) out_size = invalid
read_string (some (c ∷ cs)) out_size = if c == quote then read_quoted cs out_size else invalid

abbrev pub whole_value : Option (ℤ × Bytes) → Field ℤ
whole_value none = invalid
whole_value (some (parsed, end)) = if ends_value end then found parsed else invalid

-- `swbt_json_read_i64`.
unfoldable pub read_i64 : Option Bytes → Field ℤ
unfolding strtoll_10
read_i64 none = missing
read_i64 (some value) = whole_value (strtoll_10 value)

-- `swbt_json_get_string`.
unfoldable pub get_string : Bytes → Bytes → ℕ → Field Bytes
unfolding find_key_value read_string
get_string json key out_size = read_string (find_key_value json key) out_size

-- `swbt_json_get_i64`.
unfoldable pub get_i64 : Bytes → Bytes → Field ℤ
unfolding find_key_value read_i64
get_i64 json key = read_i64 (find_key_value json key)
