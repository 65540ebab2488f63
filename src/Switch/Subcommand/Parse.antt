-- ===== src/Switch/Subcommand/Parse.antt =====
-- What the parser of output reports accepts, and what it reads.
use swbt_daemon.Common.{
  ℕ, zero, suc, ◌∙◌, length-append, ◌+◌, ◌-◌, ◌≤◌, ◌<◌, ◌≡◌, refl, ap, true, Option, none, some,
  arith, List, [], ◌∷◌, ◌++◌, length, get_or, ◌↔◌, ◌⊎◌,
}
use swbt_daemon.Common.Buffer.{Buffer, fill, fill_lem, fill_inside}
use swbt_daemon.Switch.Subcommand.{OutputReport, ParseResult, ok, parse_bytes, id}

-- The bytes of a packet in memory.
abbrev pub bytes_of : List ℕ → Buffer
bytes_of xs i = get_or xs i 0

-- A host's packets: the counter, eight rumble bytes and, in a subcommand report, id and arguments.
abbrev pub subcommand_packet : ℕ → List ℕ → ℕ → List ℕ → List ℕ
subcommand_packet counter rumble id args = 0x01 ∷ counter ∷ (rumble ++ (id ∷ args))

get_or-append_left :
    (xs ys : List ℕ) (i : ℕ) → i < length xs → get_or (xs ++ ys) i 0 ≡ get_or xs i 0
get_or-append_left [] ys i h = absurd (omega arith)
get_or-append_left (x ∷ xs) ys zero h = refl
get_or-append_left (x ∷ xs) ys (suc i) h = get_or-append_left xs ys i (omega arith)

get_or-append_right :
    (xs ys : List ℕ) (i k : ℕ) → k ≡ length xs + i → get_or (xs ++ ys) k 0 ≡ get_or ys i 0
get_or-append_right [] ys i k e = ap (λ n. get_or ys n 0) (omega arith)
get_or-append_right (x ∷ xs) ys i zero e = absurd (omega arith)
get_or-append_right (x ∷ xs) ys i (suc k) e = get_or-append_right xs ys i k (omega arith)

-- The byte that a pointer gives at an offset.
abbrev pub byte_at : Option Buffer → ℕ → ℕ
byte_at none i = 0
byte_at (some bytes) i = bytes i

-- A packet is accepted exactly when it is a subcommand report of 11 bytes or more, or a rumble
-- report of 10 bytes or more.
pub parse-ok_iff :
    (bytes : Buffer) (len : ℕ) (r : OutputReport)
    → ((parse_bytes bytes len r).0 ≡ ok)
      ↔ (((bytes 0 ≡ 0x01) × (11 ≤ len)) ⊎ ((bytes 0 ≡ 0x10) × (10 ≤ len)))
unfolding parse_bytes
parse-ok_iff bytes len r = ground arith

parse_subcommand_bytes :
    (bytes : Buffer) (len : ℕ) (r : OutputReport) (i j : ℕ)
    → bytes 0 ≡ 0x01
    → 11 ≤ len
    → i < 8
    → j < len - 11
    → let (result, p) = parse_bytes bytes len r in
      (result ≡ ok)
      × (p.output_report_id ≡ 0x01)
      × (p.packet_counter ≡ bytes 1)
      × (p.rumble i ≡ bytes (2 + i))
      × (p.has_subcommand ≡ true)
      × (p.subcommand_id ≡ bytes 10)
      × (p.subcommand_data_len ≡ len - 11)
      × (byte_at p.subcommand_data j ≡ bytes (11 + j))
unfolding parse_bytes
parse_subcommand_bytes bytes len r i j e h hi hj = ground (
  arith,
  fill_inside (fill r.rumble 0 8 (λ _. 0)) 0 8 (λ index. bytes (2 + index)) i,
  fill_lem (fill r.rumble 0 8 (λ _. 0)) 0 8 (λ index. bytes (2 + index)) i,
)

-- The packet of a subcommand with arguments is parsed into what it was made of: counter, rumble
-- bytes, id and arguments, whatever the report held before.
pub parse-subcommand_packet :
    (counter n : ℕ) (rumble args : List ℕ) (r : OutputReport) (i j : ℕ)
    → length rumble ≡ 8
    → i < 8
    → j < length args
    → let packet = subcommand_packet counter rumble n args in
      let (result, p) = parse_bytes (bytes_of packet) (length packet) r in
      (result ≡ ok)
      × (p.output_report_id ≡ 0x01)
      × (p.packet_counter ≡ counter)
      × (p.rumble i ≡ get_or rumble i 0)
      × (p.has_subcommand ≡ true)
      × (p.subcommand_id ≡ n)
      × (p.subcommand_data_len ≡ length args)
      × (byte_at p.subcommand_data j ≡ get_or args j 0)
parse-subcommand_packet counter n rumble args r i j h hi hj =
    let packet = subcommand_packet counter rumble n args in
    let size : length packet ≡ 11 + length args = omega (arith, length-append rumble (n ∷ args)) in
    let p =
      parse_subcommand_bytes (bytes_of packet) (length packet) r i j refl (omega arith) hi
        (omega arith) in
    (
      p.0,
      p.1,
      p.2,
      p.3
          ∙ ap (bytes_of packet) {y = suc (suc i)} (omega arith)
          ∙ get_or-append_left rumble (n ∷ args) i (omega arith),
      p.4,
      p.5 ∙ get_or-append_right rumble (n ∷ args) 0 8 (omega arith),
      omega (arith, p.6),
      p.7
          ∙ ap (bytes_of packet) {y = suc (suc (9 + j))} (omega arith)
          ∙ get_or-append_right rumble (n ∷ args) (suc j) (9 + j) (omega arith),
    )

-- The same result and the same report, as far as its bytes are defined: eight of the rumble, and as
-- many of the data as its length says.
abbrev pub AreParsedAlike : ParseResult × OutputReport → ParseResult × OutputReport → Type 0
AreParsedAlike (result, p) (result', p') =
    (result ≡ result')
    × (p.output_report_id ≡ p'.output_report_id)
    × (p.packet_counter ≡ p'.packet_counter)
    × ((i : ℕ) → i < 8 → p.rumble i ≡ p'.rumble i)
    × (p.has_subcommand ≡ p'.has_subcommand)
    × (p.subcommand_id ≡ p'.subcommand_id)
    × (p.subcommand_data_len ≡ p'.subcommand_data_len)
    × ((j : ℕ)
        → j < p.subcommand_data_len
        → byte_at p.subcommand_data j ≡ byte_at p'.subcommand_data j)

-- Memory safety: two packets that agree in their first `len` bytes are parsed alike, whatever lies
-- behind them and whatever the report held before, also where they are refused as too short or
-- carry no arguments; so nothing past `len` is read, and the data pointer's bytes lie within the
-- packet.
pub parse_reads_within :
    (bytes bytes' : Buffer) (len : ℕ) (r r' : OutputReport)
    → ((k : ℕ) → k < len → bytes k ≡ bytes' k)
    → AreParsedAlike (parse_bytes bytes len r) (parse_bytes bytes' len r')
unfolding parse_bytes
parse_reads_within bytes bytes' len r r' same = (
  ground (arith, same 0),
  ground (arith, same 0),
  ground (arith, same 0, same 1),
  λ i hi. ground (
    arith,
    same 0,
    same (2 + i),
    fill_lem r.rumble 0 8 (λ _. 0) i,
    fill_lem r'.rumble 0 8 (λ _. 0) i,
    fill_lem (fill r.rumble 0 8 (λ _. 0)) 0 8 (λ index. bytes (2 + index)) i,
    fill_lem (fill r'.rumble 0 8 (λ _. 0)) 0 8 (λ index. bytes' (2 + index)) i,
  ),
  ground (arith, same 0),
  ground (arith, same 0, same 10),
  ground (arith, same 0),
  λ j hj. ground (arith, same 0, same (11 + j)),
)
