-- ===== src/Daemon/SwitchAddress/RoundTrip.antt =====
-- An address that is written is read back.
use swbt_daemon.Common.{
  ℕ, ◌+◌, ◌*◌, ◌/◌, ◌%◌, ◌^◌, ◌≤◌, ◌<◌, ◌≡◌, refl, ap, zero, suc, ◌⊎◌, inl, inr, false, ◌&&◌, not,
  ltb, ◌==◌, true, some, arith, bit_and, bit_or, u8,
}
use swbt_daemon.Common.Bits.{bit_or_disjoint, bit_and_0f}
use swbt_daemon.Common.Buffer.{Buffer, store}
use swbt_daemon.Daemon.SwitchAddress.{
  hex_nibble, hex_digit_upper, hex_byte, colon, parse_loop, parse_bytes, format_loop, format_bytes,
}

nibble-digit : (n : ℕ) → n < 16 → hex_nibble (hex_digit_upper n) ≡ some n
unfolding hex_nibble hex_digit_upper
nibble-digit n h = ground arith

shifted : (n : ℕ) → n < 256 → u8 (n / 2 ^ 4 * 2 ^ 4) ≡ n / 2 ^ 4 * 2 ^ 4
shifted n h = omega arith

low_nibble : (n : ℕ) → bit_and n 0x0F < 16
low_nibble n = rw (bit_and_0f n) (omega arith)

join_nibbles : (n : ℕ) → n < 256 → u8 (bit_or (bit_and n 0x0F) (u8 (n / 2 ^ 4 * 2 ^ 4))) ≡ n
join_nibbles n h =
    rw (bit_and_0f n) (
      rw (shifted n h) (rw (bit_or_disjoint 4 (n % 2 ^ 4) (n / 2 ^ 4) (omega arith)) (omega arith)))

byte-digits :
    (n : ℕ)
    → n < 256
    → hex_byte (hex_digit_upper (n / 2 ^ 4)) (hex_digit_upper (bit_and n 0x0F)) ≡ some n
unfolding hex_byte
byte-digits n h =
    rw (nibble-digit (n / 2 ^ 4) (omega arith), hex_byte)
      (rw (nibble-digit (bit_and n 0x0F) (low_nibble n))
        (ap (λ byte. some byte) (join_nibbles n h)))

parse_step :
    (rounds index byte : ℕ) (text into : Buffer)
    → hex_byte (text (index * 3)) (text (index * 3 + 1)) ≡ some byte
    → (ltb index 5 && not (text (index * 3 + 2) == colon)) ≡ false
    → parse_loop (suc rounds) index text into
      ≡ parse_loop rounds (index + 1) text (store into index byte)
unfolding parse_loop
parse_step rounds index byte text into e c = rw (e, parse_loop) (rw c refl)

-- The three characters that a byte takes in the text.
abbrev Writes : Buffer → ℕ → ℕ → Type 0
Writes text index byte =
    (text (index * 3) ≡ hex_digit_upper (byte / 2 ^ 4))
    × (text (index * 3 + 1) ≡ hex_digit_upper (bit_and byte 0x0F))
    × ((ltb index 5 && not (text (index * 3 + 2) == colon)) ≡ false)

read_byte :
    (text : Buffer) (index byte : ℕ)
    → byte < 256
    → Writes text index byte
    → hex_byte (text (index * 3)) (text (index * 3 + 1)) ≡ some byte
read_byte text index byte h (first, second, _) = rw first (rw second (byte-digits byte h))

same_or_later : (index i : ℕ) → index ≤ i → (i ≡ index) ⊎ (index + 1 ≤ i)
same_or_later index i h = ground arith

-- What is known of an array from the place after `index` on is known from `index` on.
covers :
    (bytes into out : Buffer) (index : ℕ)
    → ((i : ℕ) → index + 1 ≤ i → i < 6 → out i ≡ bytes i)
    → ((i : ℕ) → i < index + 1 → out i ≡ store into index (bytes index) i)
    → ((i : ℕ) → index ≤ i → i < 6 → out i ≡ bytes i) × ((i : ℕ) → i < index → out i ≡ into i)
covers bytes into out index later before =
    (λ i a b. from (same_or_later index i a) b, λ i a. ground (arith, before i (omega arith)))
  where
    from : {i : ℕ} → (i ≡ index) ⊎ (index + 1 ≤ i) → i < 6 → out i ≡ bytes i
    from {i} (inl e) b = rw e (ground (arith, before index (omega arith)))
    from {i} (inr l) b = later i l b

parse_rest :
    (rounds index : ℕ) (bytes text into : Buffer)
    → rounds + index ≡ 6
    → ((i : ℕ) → i < 6 → bytes i < 256)
    → ((i : ℕ) → i < 6 → Writes text i (bytes i))
    → text 17 ≡ 0
    → let (valid, address) = parse_loop rounds index text into in
      (valid ≡ true)
      × ((i : ℕ) → index ≤ i → i < 6 → address i ≡ bytes i)
      × ((i : ℕ) → i < index → address i ≡ into i)
unfolding parse_loop
parse_rest zero index bytes text into k h w z =
    (rw z refl, λ i a b. absurd (omega arith), λ i a. refl)
parse_rest (suc rounds) index bytes text into k h w z =
    rw
      (parse_step rounds index (bytes index) text into
        (read_byte text index (bytes index) (h index (omega arith)) (w index (omega arith)))
        ((w index (omega arith)).2))
      (let (valid, later, before) =
          parse_rest rounds (index + 1) bytes text (store into index (bytes index)) (omega arith) h
            w z in
        let out = (parse_loop rounds (index + 1) text (store into index (bytes index))).1 in
        let (from_here, untouched) = covers bytes into out index later before in
        (valid, from_here, untouched))

format-Writes :
    (address text : Buffer) (i : ℕ) → i < 6 → Writes (format_bytes address text) i (address i)
unfolding format_bytes format_loop
format-Writes address text zero h = (refl, refl, refl)
format-Writes address text (suc zero) h = (refl, refl, refl)
format-Writes address text (suc (suc zero)) h = (refl, refl, refl)
format-Writes address text (suc (suc (suc zero))) h = (refl, refl, refl)
format-Writes address text (suc (suc (suc (suc zero)))) h = (refl, refl, refl)
format-Writes address text (suc (suc (suc (suc (suc zero))))) h = (refl, refl, refl)
format-Writes address text (suc (suc (suc (suc (suc (suc i)))))) h = absurd (omega arith)

-- The text that is formatted for six bytes is parsed, and gives the six bytes back, whatever the
-- two arrays held before.
pub parse-format_bytes :
    (address text into : Buffer)
    → ((i : ℕ) → i < 6 → address i < 256)
    → let (valid, address') = parse_bytes (format_bytes address text) into in
      (valid ≡ true) × ((i : ℕ) → i < 6 → address' i ≡ address i)
unfolding parse_bytes format_bytes
parse-format_bytes address text into h =
    let (valid, bytes, _) =
      parse_rest 6 0 address (format_bytes address text) into refl h (format-Writes address text)
        refl in
    (valid, λ i k. bytes i (omega arith) k)
