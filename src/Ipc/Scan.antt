-- ===== src/Ipc/Scan.antt =====
-- The scanning of a line of JSON: the functions `swbt_json_*` of swbt/ipc/ipc_json.c.
use swbt_daemon.Common.{
  ℕ, ◌+◌, ◌-◌, Bool, true, false, ◌||◌, Option, none, some, [], ◌∷◌, leb, ◌==◌, if◌then◌else◌,
}
use swbt_daemon.Common.Text.{Bytes, peek, is_space, skip_ws}
use swbt_daemon.Ipc.{json_line_max}

abbrev pub quote : ℕ
quote = 0x22

abbrev pub backslash : ℕ
backslash = 0x5C

-- The locals of `swbt_json_is_complete_object`. The depth is never negative between two rounds.
pub record Scan : Type 0 where
  pub length : ℕ
  pub depth : ℕ
  pub in_string : Bool
  pub escaped : Bool
  pub last_significant : ℕ

-- How a round of a loop ends: `return false`, `break` or the next round.
pub data Round {ℓ} (A : Type ℓ) : Type ℓ where
  refused : Round A
  broken : Round A
  next : A → Round A

-- The state of a string after one more character.
unfoldable pub scan_in_string : ℕ → Scan → Scan
scan_in_string c s =
    if s.escaped
    then record s { escaped = false }
    else if c == backslash
    then record s { escaped = true }
    else if c == quote
    then record s { in_string = false }
    else s

-- A `}`.
unfoldable pub scan_close : Scan → Round Scan
scan_close s =
    if s.last_significant == b','
    then refused
    else if s.depth == 0
    then refused
    else if s.depth - 1 == 0
    then broken
    else next (record s { depth = s.depth - 1; last_significant = b'}' })

-- A character outside strings.
unfoldable pub scan_outside : ℕ → Scan → Round Scan
unfolding scan_close
scan_outside c s =
    if c == quote
    then next (record s { in_string = true; last_significant = quote })
    else if c == b'{'
    then next (record s { depth = s.depth + 1; last_significant = b'{' })
    else if c == b'}'
    then scan_close s
    else if c == b','
    then if s.last_significant == b',' || s.last_significant == b'{'
      then refused
      else next (record s { last_significant = b',' })
    else if is_space c
    then next s
    else next (record s { last_significant = c })

-- One round.
unfoldable pub scan_round : ℕ → Scan → Round Scan
unfolding scan_in_string scan_outside
scan_round c s =
    if leb json_line_max s.length
    then refused
    else (let counted = record s { length = s.length + 1 } in
        if s.in_string then next (scan_in_string c counted) else scan_outside c counted)

-- The loop: what follows the closing brace of the object, or `none` where it is refused.
unfoldable pub scan_object : Bytes → Scan → Option Bytes
unfolding scan_round
scan_object [] s = none
scan_object (c ∷ cs) s = elim (scan_round c s) [
  | refused ↦ none
  | broken ↦ some cs
  | next s' ↦ scan_object cs s'
]

abbrev pub scan_start : Scan
scan_start = record {
  length = 0;
  depth = 0;
  in_string = false;
  escaped = false;
  last_significant = 0;
}

-- `swbt_json_is_complete_object`.
unfoldable pub is_complete_object : Bytes → Bool
unfolding scan_object
is_complete_object line =
    let cursor = skip_ws line in
    if peek cursor == b'{'
    then elim (scan_object cursor scan_start) [
      | none ↦ false
      | some after ↦ peek (skip_ws after) == 0
    ]
    else false
