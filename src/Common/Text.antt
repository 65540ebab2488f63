-- ===== src/Common/Text.antt =====
-- C strings, each the list of the characters before its NUL, and what the source uses of <ctype.h>,
-- <stdlib.h> and <string.h> on them. A pointer into a string is the rest of the list.
use Prim.Native.Char.{code}
use Prim.Native.String.{String}
use Prim.Native.Nat.{ℕ, zero, suc, ◌+◌, ◌-◌, ◌*◌, ◌/◌, ◌%◌, ◌^◌}
use mathlib.Core.Bool.{Bool, true, false, ◌&&◌, ◌||◌}
use mathlib.Core.List.{List, [], ◌∷◌, ◌++◌}
use mathlib.Core.Option.{Option, none, some}
use swbt_daemon.Common.Tests.{ltb, leb, ◌==◌, if◌then◌else◌}
use swbt_daemon.Common.Int.{ℤ, pos, negsuc}

abbrev pub Bytes : Type 0
Bytes = List ℕ

-- The characters of a literal, all of which are ASCII.
abbrev pub text : String → Bytes
text String.[] = []
text (String.◌∷◌ c s) = code c ∷ text s

-- `*cursor`.
abbrev pub peek : Bytes → ℕ
peek [] = 0
peek (c ∷ cs) = c

-- `strcmp(a, b) == 0`.
abbrev pub same_text : Bytes → Bytes → Bool
same_text [] [] = true
same_text [] (d ∷ ds) = false
same_text (c ∷ cs) [] = false
same_text (c ∷ cs) (d ∷ ds) = c == d && same_text cs ds

-- What follows the prefix, `none` where `strncmp(text, prefix, strlen(prefix)) != 0`.
abbrev pub after_prefix : Bytes → Bytes → Option Bytes
after_prefix cs [] = some cs
after_prefix [] (d ∷ ds) = none
after_prefix (c ∷ cs) (d ∷ ds) = if c == d then after_prefix cs ds else none

-- `isspace` in the C locale.
abbrev pub is_space : ℕ → Bool
is_space c = c == 0x20 || (leb 0x09 c && leb c 0x0D)

abbrev pub skip_ws : Bytes → Bytes
skip_ws [] = []
skip_ws (c ∷ cs) = if is_space c then skip_ws cs else c ∷ cs

-- The value of a digit in a base of at most 16; `none` where the character is no digit of it.
unfoldable pub digit : ℕ → ℕ → Option ℕ
digit base c =
    let value =
      if leb b'0' c && leb c b'9'
      then c - b'0'
      else if leb b'a' c && leb c b'f'
      then c - b'a' + 10
      else if leb b'A' c && leb c b'F'
      then c - b'A' + 10
      else base in
    if ltb value base then some value else none

-- The digits at the cursor, read behind the value of those before, and what follows.
unfoldable pub read_digits : ℕ → ℕ → Bytes → ℕ × Bytes
unfolding digit
read_digits base value [] = (value, [])
read_digits base value (c ∷ cs) = elim (digit base c) [
  | none ↦ (value, c ∷ cs)
  | some d ↦ read_digits base (value * base + d) cs
]

-- The digits at the cursor; `none` where there is none.
unfoldable pub read_number : ℕ → Bytes → Option (ℕ × Bytes)
unfolding digit read_digits
read_number base [] = none
read_number base (c ∷ cs) = elim (digit base c) [
  | none ↦ none
  | some d ↦ some (read_digits base 0 (c ∷ cs))
]

-- A sign, and what follows it.
abbrev pub read_sign : Bytes → Bool × Bytes
read_sign [] = (false, [])
read_sign (c ∷ cs) =
    if c == b'-' then (true, cs) else if c == b'+' then (false, cs) else (false, c ∷ cs)

-- The signed value, where a `long long` holds it.
abbrev pub signed_64 : Bool → ℕ → Option ℤ
signed_64 true zero = some (pos zero)
signed_64 true (suc n) = if leb (suc n) (2 ^ 63) then some (negsuc n) else none
signed_64 false n = if ltb n (2 ^ 63) then some (pos n) else none

-- A value with its sign and what follows it.
abbrev pub signed_number : Bool → Option (ℕ × Bytes) → Option (ℤ × Bytes)
signed_number negative none = none
signed_number negative (some (n, end)) = elim (signed_64 negative n) [
  | none ↦ none
  | some z ↦ some (z, end)
]

-- `strtoll(value, &end, 10)` of 64 bits: the value and `end`; `none` where nothing is read, or
-- `errno` is set.
unfoldable pub strtoll_10 : Bytes → Option (ℤ × Bytes)
unfolding read_number
strtoll_10 value =
    let (negative, unsigned) = read_sign (skip_ws value) in
    signed_number negative (read_number 10 unsigned)

-- The prefix `0x`, which base 16 allows before a digit.
unfoldable pub skip_0x : Bytes → Bytes
unfolding digit
skip_0x (z ∷ x ∷ c ∷ cs) = elim (digit 16 c) [
  | none ↦ z ∷ x ∷ c ∷ cs
  | some d ↦ if z == b'0' && (x == b'x' || x == b'X') then c ∷ cs else z ∷ x ∷ c ∷ cs
]
skip_0x cs = cs

-- The unsigned value with its sign, where 64 bits hold the magnitude. A minus sign negates in the
-- unsigned type.
abbrev pub unsigned_64 : Bytes → Bool → Option (ℕ × Bytes) → Option (ℕ × Bytes)
unsigned_64 value negative none = some (0, value)
unsigned_64 value negative (some (n, end)) =
    if ltb n (2 ^ 64) then some (if negative then (2 ^ 64 - n) % 2 ^ 64 else n, end) else none

-- `strtoul(value, &end, 16)` of 64 bits: the value and `end`, which is `value` where nothing is
-- read; `none` where `errno` is set.
unfoldable pub strtoul_16 : Bytes → Option (ℕ × Bytes)
unfolding skip_0x read_number
strtoul_16 value =
    let (negative, unsigned) = read_sign (skip_ws value) in
    unsigned_64 value negative (read_number 16 (skip_0x unsigned))

-- The same, where `unsigned long` has some number of bits.
abbrev pub unsigned_of_bits : ℕ → Bytes → Bool → Option (ℕ × Bytes) → Option (ℕ × Bytes)
unsigned_of_bits bits value negative none = some (0, value)
unsigned_of_bits bits value negative (some (n, end)) =
    if ltb n (2 ^ bits) then some (if negative then (2 ^ bits - n) % 2 ^ bits else n, end) else none

-- `strtoul(value, &end, 10)` in the same way, where `unsigned long` has some number of bits.
unfoldable pub strtoul_10 : ℕ → Bytes → Option (ℕ × Bytes)
unfolding read_number
strtoul_10 bits value =
    let (negative, unsigned) = read_sign (skip_ws value) in
    unsigned_of_bits bits value negative (read_number 10 unsigned)

-- The last `k` decimal digits at most, with no leading zero.
unfoldable pub decimal_digits : ℕ → ℕ → Bytes
decimal_digits zero n = []
decimal_digits (suc k) n =
    let before = decimal_digits k (n / 10) in
    (if n == 0 then [] else before ++ (b'0' + n % 10) ∷ [])

-- `%llu` and `%u`; twenty digits are enough for 64 bits.
unfoldable pub decimal : ℕ → Bytes
unfolding decimal_digits
decimal n = if n == 0 then b'0' ∷ [] else decimal_digits 20 n

-- `%d`.
unfoldable pub signed_decimal : ℤ → Bytes
unfolding decimal
signed_decimal (pos n) = decimal n
signed_decimal (negsuc n) = b'-' ∷ decimal (n + 1)
