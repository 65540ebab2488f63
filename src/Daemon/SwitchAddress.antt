-- ===== src/Daemon/SwitchAddress.antt =====
-- The text of a Bluetooth address: swbt/daemon/switch_address.h and switch_address.c. A text is an
-- array of characters, read no further than its NUL. The guards against NULL are left out; an array
-- that is written in place is an argument and part of the result.
pub mod RoundTrip
use swbt_daemon.Common.{
  ℕ, zero, suc, ◌+◌, ◌-◌, ◌*◌, ◌/◌, ◌%◌, ◌^◌, Bool, true, false, ◌&&◌, not, Option, none, some, ltb,
  leb, ◌==◌, if◌then◌else◌, bit_and, bit_or, u8,
}
use swbt_daemon.Common.Buffer.{Buffer, store, fill}

abbrev pub text_size : ℕ
text_size = 18

-- ':', '0', 'A' and 'a'.
abbrev pub colon : ℕ
colon = 0x3A

abbrev pub char_0 : ℕ
char_0 = 0x30

abbrev pub char_upper_a : ℕ
char_upper_a = 0x41

abbrev pub char_a : ℕ
char_a = 0x61

abbrev between : ℕ → ℕ → ℕ → Bool
between first value last = leb first value && leb value last

-- `swbt_daemon_switch_address_hex_digit_to_upper`.
unfoldable pub hex_digit_to_upper : ℕ → Option ℕ
hex_digit_to_upper value =
    if between 0x30 value 0x39
    then some value
    else if between 0x61 value 0x66
    then some (value - char_a + char_upper_a)
    else if between 0x41 value 0x46
    then some value
    else none

-- `swbt_daemon_switch_address_hex_nibble`.
unfoldable pub hex_nibble : ℕ → Option ℕ
hex_nibble value =
    if between 0x30 value 0x39
    then some (value - char_0)
    else if between 0x61 value 0x66
    then some (value - char_a + 10)
    else if between 0x41 value 0x46
    then some (value - char_upper_a + 10)
    else none

-- `swbt_daemon_switch_address_hex_digit_upper`.
unfoldable pub hex_digit_upper : ℕ → ℕ
hex_digit_upper value = if ltb value 10 then char_0 + value else char_upper_a + (value - 10)

-- The character that a round of the loop of `normalize` stores.
unfoldable pub normalized_char : ℕ → ℕ → Option ℕ
unfolding hex_digit_to_upper
normalized_char index char =
    if char == 0
    then none
    else if (index + 1) % 3 == 0
    then (if not (char == colon) then none else some colon)
    else hex_digit_to_upper char

-- The loop of `normalize`, from `index` on for the rounds that are left.
unfoldable pub normalize_loop : ℕ → ℕ → Buffer → Buffer → Option Buffer
unfolding normalized_char
normalize_loop zero index address normalized = some normalized
normalize_loop (suc rounds) index address normalized =
    elim (normalized_char index (address index)) [
      | none ↦ none
      | some char ↦ normalize_loop rounds (index + 1) address (store normalized index char)
    ]

-- `swbt_daemon_switch_address_normalize`.
unfoldable pub normalize : Buffer → Buffer → Bool × Buffer
unfolding normalize_loop
normalize dest address = elim (normalize_loop (text_size - 1) 0 address (λ _. 0)) [
  | none ↦ (false, dest)
  | some normalized ↦
      if not (address (text_size - 1) == 0)
      then (false, dest)
      else (true, fill dest 0 text_size (store normalized (text_size - 1) 0))
]

-- The byte of two digits.
unfoldable pub hex_byte : ℕ → ℕ → Option ℕ
hex_byte first second = elim (hex_nibble first) [
  | none ↦ none
  | some high ↦ elim (hex_nibble second) [
    | none ↦ none
    | some low ↦ some (u8 (bit_or low (u8 (high * 2 ^ 4))))
  ]
]

-- The loop of `parse_bytes`.
unfoldable pub parse_loop : ℕ → ℕ → Buffer → Buffer → Bool × Buffer
parse_loop zero index text address = (text (text_size - 1) == 0, address)
parse_loop (suc rounds) index text address =
    elim (hex_byte (text (index * 3)) (text (index * 3 + 1))) [
      | none ↦ (false, address)
      | some byte ↦
          let rest = parse_loop rounds (index + 1) text (store address index byte) in
          if ltb index 5 && not (text (index * 3 + 2) == colon) then (false, address) else rest
    ]

-- `swbt_daemon_switch_address_parse_bytes`.
unfoldable pub parse_bytes : Buffer → Buffer → Bool × Buffer
unfolding parse_loop
parse_bytes text address = parse_loop 6 0 text address

-- The loop of `format_bytes`.
unfoldable pub format_loop : ℕ → ℕ → Buffer → Buffer → Buffer
format_loop zero index address text = text
format_loop (suc rounds) index address text =
    let first = store text (index * 3) (hex_digit_upper (address index / 2 ^ 4)) in
    let both = store first (index * 3 + 1) (hex_digit_upper (bit_and (address index) 0x0F)) in
    format_loop rounds (index + 1) address
      (if ltb index 5 then store both (index * 3 + 2) colon else both)

-- `swbt_daemon_switch_address_format_bytes`.
unfoldable pub format_bytes : Buffer → Buffer → Buffer
unfolding format_loop
format_bytes address text = store (format_loop 6 0 address text) (text_size - 1) 0
