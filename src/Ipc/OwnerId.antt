-- ===== src/Ipc/OwnerId.antt =====
-- The owner identifiers, printed and read back: swbt/ipc/ipc_json.c.
use swbt_daemon.Common.{
  ℕ, ◌+◌, ◌*◌, ◌/◌, ◌^◌, ◌<◌, ◌≡◌, refl, ap, ◌∙◌, some, none, [], ◌∷◌, bit_and, Bool, true, false,
  ◌&&◌, ◌||◌, not, ◌==◌, arith,
}
use swbt_daemon.Common.Bits.{bit_and_0f, holds_to, holds_to_sound}
use swbt_daemon.Common.Text.{
  Bytes, digit, is_space, skip_ws, read_sign, skip_0x, read_digits, read_number, strtoul_16,
  unsigned_64,
}
use swbt_daemon.Ipc.Fields.{hex_char, format_owner_id, parse_owner_id}

reads_back : ℕ → Bool
unfolding digit hex_char
reads_back d = elim (digit 16 (hex_char d)) [ none ↦ false | some v ↦ v == d ]

is_plain : ℕ → Bool
unfolding hex_char
is_plain d =
    let c = hex_char d in
    not (is_space c) && not (c == b'-') && not (c == b'+') && not (c == b'x' || c == b'X')

plain-hex_char : (d : ℕ) → d < 16 → is_plain d ≡ true
unfolding holds_to is_plain
plain-hex_char d h = holds_to_sound 16 d is_plain h refl

reads-hex_char : (d : ℕ) → d < 16 → reads_back d ≡ true
unfolding holds_to reads_back
reads-hex_char d h = holds_to_sound 16 d reads_back h refl

digit-hex_char : (d : ℕ) → d < 16 → digit 16 (hex_char d) ≡ some d
unfolding reads_back
digit-hex_char d h = ground (arith, reads-hex_char d h)

read_digits-hex_char :
    (v d : ℕ) (cs : Bytes)
    → d < 16
    → read_digits 16 v (hex_char d ∷ cs) ≡ read_digits 16 (v * 16 + d) cs
unfolding read_digits
read_digits-hex_char v d cs h = ground (arith, digit-hex_char d h)

skip_ws-hex_char : (d : ℕ) (cs : Bytes) → d < 16 → skip_ws (hex_char d ∷ cs) ≡ hex_char d ∷ cs
unfolding is_plain
skip_ws-hex_char d cs h = ground (arith, plain-hex_char d h)

read_sign-hex_char :
    (d : ℕ) (cs : Bytes) → d < 16 → read_sign (hex_char d ∷ cs) ≡ (false, hex_char d ∷ cs)
unfolding is_plain
read_sign-hex_char d cs h = ground (arith, plain-hex_char d h)

skip_0x-hex_char :
    (a b c : ℕ) (cs : Bytes)
    → b < 16
    → skip_0x (hex_char a ∷ hex_char b ∷ hex_char c ∷ cs)
      ≡ hex_char a ∷ hex_char b ∷ hex_char c ∷ cs
unfolding skip_0x is_plain
skip_0x-hex_char a b c cs h = ground (arith, plain-hex_char b h)

-- The digit of place `k`.
nibble : ℕ → ℕ → ℕ
nibble id k = bit_and (id / 2 ^ (k * 4)) 0x0F

nibble-lt : (id k : ℕ) → nibble id k < 16
unfolding nibble
nibble-lt id k = omega (arith, bit_and_0f (id / 2 ^ (k * 4)))

read_digits-format : (id : ℕ) → id < 2 ^ 32 → read_digits 16 0 (format_owner_id id) ≡ (id, [])
unfolding format_owner_id nibble read_digits
read_digits-format id h =
    at 0 7 _
    ∙ at _ 6 _
    ∙ at _ 5 _
    ∙ at _ 4 _
    ∙ at _ 3 _
    ∙ at _ 2 _
    ∙ at _ 1 _
    ∙ at _ 0 _
    ∙ ap (λ (n : ℕ). (n, [])) value
  where
    at :
        (v k : ℕ) (cs : Bytes)
        → read_digits 16 v (hex_char (nibble id k) ∷ cs) ≡ read_digits 16 (v * 16 + nibble id k) cs
    at v k cs = read_digits-hex_char v (nibble id k) cs (nibble-lt id k)

    value :
        (((((((0 * 16 + nibble id 7) * 16 + nibble id 6) * 16 + nibble id 5) * 16 + nibble id 4)
                        * 16
                      + nibble id 3)
                    * 16
                  + nibble id 2)
                * 16
              + nibble id 1)
            * 16
          + nibble id 0
        ≡ id
    value = omega (
      arith,
      bit_and_0f (id / 2 ^ 28),
      bit_and_0f (id / 2 ^ 24),
      bit_and_0f (id / 2 ^ 20),
      bit_and_0f (id / 2 ^ 16),
      bit_and_0f (id / 2 ^ 12),
      bit_and_0f (id / 2 ^ 8),
      bit_and_0f (id / 2 ^ 4),
      bit_and_0f (id / 1),
    )

read_number-hex_char :
    (a n : ℕ) (cs : Bytes)
    → a < 16
    → read_digits 16 0 (hex_char a ∷ cs) ≡ (n, [])
    → read_number 16 (hex_char a ∷ cs) ≡ some (n, [])
unfolding read_number
read_number-hex_char a n cs ha e = ground (arith, digit-hex_char a ha)

strtoul_16-hex_chars :
    (a b c n : ℕ) (cs : Bytes)
    → a < 16
    → b < 16
    → n < 2 ^ 64
    → read_digits 16 0 (hex_char a ∷ hex_char b ∷ hex_char c ∷ cs) ≡ (n, [])
    → strtoul_16 (hex_char a ∷ hex_char b ∷ hex_char c ∷ cs) ≡ some (n, [])
unfolding strtoul_16
strtoul_16-hex_chars a b c n cs ha hb small e =
    let line = hex_char a ∷ hex_char b ∷ hex_char c ∷ cs in
    let rest = hex_char b ∷ hex_char c ∷ cs in
    ap (λ p. unsigned_64 line p.0 (read_number 16 (skip_0x p.1)))
      (ap read_sign (skip_ws-hex_char a rest ha) ∙ read_sign-hex_char a rest ha)
    ∙ ap (λ u. unsigned_64 line false (read_number 16 u)) (skip_0x-hex_char a b c cs hb)
    ∙ ap (unsigned_64 line false) (read_number-hex_char a n rest ha e)
    ∙ ground arith

-- The identifier that a client is told is read back as the same client.
pub parse-format : (id : ℕ) → id < 2 ^ 32 → parse_owner_id (format_owner_id id) ≡ some id
unfolding parse_owner_id format_owner_id nibble
parse-format id h =
    rw
      (strtoul_16-hex_chars (nibble id 7) (nibble id 6) (nibble id 5) id _ (nibble-lt id 7)
        (nibble-lt id 6) (omega arith) (read_digits-format id h))
      (ground arith)
