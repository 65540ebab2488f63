-- ===== src/Bridge/HidEvent/Codec.antt =====
-- The decoder of the stack's events reads the packets of the four events.
use swbt_daemon.Common.{
  ℕ, zero, suc, ◌+◌, ◌*◌, ◌/◌, ◌%◌, ◌^◌, ◌≤◌, ◌<◌, ◌≡◌, ◌≢◌, refl, some, List, [], ◌∷◌, get_or,
  length, bit_or, arith,
}
use swbt_daemon.Common.Bits.{bit_or_disjoint}
use swbt_daemon.Common.Buffer.{Buffer}
use swbt_daemon.Bridge.HidEvent.{
  EventCodes, EventType, opened, closed, sendable, confirmation, no_event, HidEvent, EventResult,
  ok, read_u16_le, copy_reversed_address, decode_confirmation, decode_opened, decode_channel,
  decode_meta, decode_packet, decode,
}

-- The bytes of a 16-bit number, the lower one first, and of an address, the last one first.
abbrev u16_le : ℕ → List ℕ → List ℕ
u16_le n rest = n % 2 ^ 8 ∷ n / 2 ^ 8 ∷ rest

abbrev reversed : Buffer → List ℕ → List ℕ
reversed address rest = address 5 ∷ address 4 ∷ address 3 ∷ address 2 ∷ address 1 ∷ address 0 ∷ rest

-- What the stack's packets carry besides: their length, the connection handle and whether it is
-- incoming, and the number to compare, each as bytes.
pub record PacketRest : Type 0 where
  pub length_byte : ℕ
  pub handle0 : ℕ
  pub handle1 : ℕ
  pub incoming : ℕ
  pub value0 : ℕ
  pub value1 : ℕ
  pub value2 : ℕ
  pub value3 : ℕ

-- The stack's packet for an event: its code, its length, and what the event carries.
abbrev pub packet_of : EventCodes → PacketRest → HidEvent → EventType → List ℕ
packet_of codes rest event opened =
    codes.hid_meta
    ∷ rest.length_byte
    ∷ codes.connection_opened
    ∷ u16_le event.hid_cid
        (event.status ∷ reversed event.address (rest.handle0 ∷ rest.handle1 ∷ rest.incoming ∷ []))
packet_of codes rest event closed =
    codes.hid_meta ∷ rest.length_byte ∷ codes.connection_closed ∷ u16_le event.hid_cid []
packet_of codes rest event sendable =
    codes.hid_meta ∷ rest.length_byte ∷ codes.can_send_now ∷ u16_le event.hid_cid []
packet_of codes rest event confirmation =
    codes.user_confirmation_request
    ∷ rest.length_byte
    ∷ reversed event.address (rest.value0 ∷ rest.value1 ∷ rest.value2 ∷ rest.value3 ∷ [])
packet_of codes rest event no_event = []

-- What an event of a type carries.
abbrev pub Carries : EventType → HidEvent → HidEvent → Type 0
Carries opened event decoded =
    (decoded.hid_cid ≡ event.hid_cid)
    × (decoded.status ≡ event.status)
    × ((i : ℕ) → i < 6 → decoded.address i ≡ event.address i)
Carries closed event decoded = decoded.hid_cid ≡ event.hid_cid
Carries sendable event decoded = decoded.hid_cid ≡ event.hid_cid
Carries confirmation event decoded = (i : ℕ) → i < 6 → decoded.address i ≡ event.address i
Carries no_event event decoded = ⊥

-- The stack tells its packets apart by their codes.
pub record AreDistinct (codes : EventCodes) : Type 0 where
  pub meta_confirmation : codes.hid_meta ≢ codes.user_confirmation_request
  pub closed_opened : codes.connection_closed ≢ codes.connection_opened
  pub sendable_opened : codes.can_send_now ≢ codes.connection_opened
  pub sendable_closed : codes.can_send_now ≢ codes.connection_closed

u16_join : (n : ℕ) → n < 2 ^ 16 → bit_or (n % 2 ^ 8) (n / 2 ^ 8 * 2 ^ 8) ≡ n
u16_join n h = rw (bit_or_disjoint 8 (n % 2 ^ 8) (n / 2 ^ 8) (omega arith)) (omega arith)

reversed_back :
    (packet address : Buffer) (offset : ℕ)
    → packet offset ≡ address 5
    → packet (offset + 1) ≡ address 4
    → packet (offset + 2) ≡ address 3
    → packet (offset + 3) ≡ address 2
    → packet (offset + 4) ≡ address 1
    → packet (offset + 5) ≡ address 0
    → (i : ℕ) → i < 6
    → copy_reversed_address packet offset (λ _. 0) i ≡ address i
unfolding copy_reversed_address
reversed_back packet address offset e0 e1 e2 e3 e4 e5 zero h = e5
reversed_back packet address offset e0 e1 e2 e3 e4 e5 (suc zero) h = e4
reversed_back packet address offset e0 e1 e2 e3 e4 e5 (suc (suc zero)) h = e3
reversed_back packet address offset e0 e1 e2 e3 e4 e5 (suc (suc (suc zero))) h = e2
reversed_back packet address offset e0 e1 e2 e3 e4 e5 (suc (suc (suc (suc zero)))) h = e1
reversed_back packet address offset e0 e1 e2 e3 e4 e5 (suc (suc (suc (suc (suc zero))))) h = e0
reversed_back packet address offset e0 e1 e2 e3 e4 e5 (suc (suc (suc (suc (suc (suc i)))))) h =
    absurd (omega arith)

abbrev IsDecoded : EventType → HidEvent → EventResult × HidEvent → Type 0
IsDecoded event_type event (result, decoded) =
    (result ≡ ok) × (decoded.event_type ≡ event_type) × Carries event_type event decoded

opened_packet :
    (codes : EventCodes) (packet : Buffer)
    → AreDistinct codes
    → packet 0 ≡ codes.hid_meta
    → packet 2 ≡ codes.connection_opened
    → decode_packet codes packet 15 ≡ decode_opened packet 15
unfolding decode_packet decode_meta
opened_packet codes packet d e0 e2 = ground arith

confirmation_packet :
    (codes : EventCodes) (packet : Buffer)
    → packet 0 ≡ codes.user_confirmation_request
    → decode_packet codes packet 12 ≡ decode_confirmation packet 12
unfolding decode_packet
confirmation_packet codes packet e0 = ground arith

one_byte :
    (codes : EventCodes) (rest : PacketRest) (event : HidEvent) (event_type : EventType)
    → event_type ≢ no_event
    → 1 ≤ length (packet_of codes rest event event_type)
one_byte codes rest event opened t = omega arith
one_byte codes rest event closed t = omega arith
one_byte codes rest event sendable t = omega arith
one_byte codes rest event confirmation t = omega arith
one_byte codes rest event no_event t = absurd (t refl)

decode-packet :
    (codes : EventCodes) (packet : Buffer) (size : ℕ) (before : HidEvent)
    → 1 ≤ size
    → decode codes codes.event_packet (some packet) size (some before)
      ≡ ((decode_packet codes packet size).0, some (decode_packet codes packet size).1)
unfolding decode
decode-packet codes packet size before h = ground arith

packet_of-IsDecoded :
    (codes : EventCodes) (rest : PacketRest) (event : HidEvent) (event_type : EventType)
    → AreDistinct codes
    → event.hid_cid < 2 ^ 16
    → event_type ≢ no_event
    → let bytes = packet_of codes rest event event_type in
      IsDecoded event_type event (decode_packet codes (λ i. get_or bytes i 0) (length bytes))
unfolding decode_packet decode_confirmation decode_opened decode_channel decode_meta read_u16_le
packet_of-IsDecoded codes rest event opened d h t =
    rw (opened_packet codes (λ i. get_or (packet_of codes rest event opened) i 0) d refl refl) (
      refl,
      refl,
      (
        u16_join event.hid_cid h,
        refl,
        reversed_back (λ i. get_or (packet_of codes rest event opened) i 0) event.address 6 refl
            refl refl refl refl refl,
      ),
    )
packet_of-IsDecoded codes rest event closed d h t = ground (arith, u16_join event.hid_cid)
packet_of-IsDecoded codes rest event sendable d h t = ground (arith, u16_join event.hid_cid)
packet_of-IsDecoded codes rest event confirmation d h t =
    rw (confirmation_packet codes (λ i. get_or (packet_of codes rest event confirmation) i 0) refl)
      (
        refl,
        refl,
        reversed_back (λ i. get_or (packet_of codes rest event confirmation) i 0) event.address 2
            refl refl refl refl refl refl,
      )
packet_of-IsDecoded codes rest event no_event d h t = absurd (t refl)

-- Round trip: the stack's packet for an event of any of the four types is decoded into that event,
-- whatever the decoder's event held before: its type, and its channel, its status and its address
-- as far as that type carries them, provided that the channel has 16 bits and that the codes of
-- the stack differ.
pub decode-packet_of :
    (codes : EventCodes) (rest : PacketRest) (event before : HidEvent)
    → AreDistinct codes
    → event.hid_cid < 2 ^ 16
    → event.event_type ≢ no_event
    → let bytes = packet_of codes rest event event.event_type in
      let (result, decoded) =
        decode codes codes.event_packet
          (some (λ i. get_or bytes i 0))
          (length bytes)
          (some before) in
      (result ≡ ok)
      × (event' : HidEvent) × (decoded ≡ some event')
      × (event'.event_type ≡ event.event_type)
      × Carries event.event_type event event'
decode-packet_of codes rest event before d h t =
    let bytes : List ℕ = packet_of codes rest event event.event_type in
    let packet : Buffer = λ i. get_or bytes i 0 in
    rw
      (decode-packet codes packet (length bytes) before
        (one_byte codes rest event event.event_type t))
      (let (done, event_type, carried) =
          packet_of-IsDecoded codes rest event event.event_type d h t in
        (done, (decode_packet codes packet (length bytes)).1, refl, event_type, carried))
