-- ===== src/Bridge/HidEvent.antt =====
-- The events of the Bluetooth stack: swbt/btstack_bridge/hid_event.h and hid_event.c. A packet is an
-- array of bytes, `none` for NULL. The codes of the stack's packets and events are its own, and are
-- an argument.
pub mod Codec
use swbt_daemon.Common.{
  ℕ, ◌+◌, ◌*◌, ◌^◌, Bool, true, false, ◌&&◌, ◌||◌, not, Option, none, some, ltb, leb, ◌==◌, bit_or,
  if◌then◌else◌,
}
use swbt_daemon.Common.Buffer.{Buffer, store}

-- The codes of the stack's headers that the decoder uses.
pub record EventCodes : Type 0 where
  pub event_packet : ℕ
  pub user_confirmation_request : ℕ
  pub hid_meta : ℕ
  pub connection_opened : ℕ
  pub connection_closed : ℕ
  pub can_send_now : ℕ

-- `swbt_btstack_hid_event_result_t`.
pub data EventResult : Type 0 where
  ok ignored invalid_argument : EventResult

-- `swbt_btstack_hid_event_type_t`.
pub data EventType : Type 0 where
  no_event opened closed sendable confirmation : EventType

-- `swbt_btstack_hid_event_t`; `address` is an array of 6 bytes.
pub record HidEvent : Type 0 where
  pub event_type : EventType
  pub hid_cid : ℕ
  pub status : ℕ
  pub address : Buffer

-- `swbt_btstack_hid_event_clear`.
abbrev pub cleared : HidEvent
cleared = record { event_type = no_event; hid_cid = 0; status = 0; address = λ _. 0 }

-- `swbt_btstack_hid_event_has_prefix`.
abbrev pub has_prefix : Option Buffer → ℕ → Bool
has_prefix none packet_size = false
has_prefix (some packet) packet_size = leb 1 packet_size

-- `swbt_btstack_hid_event_is_hid_meta`.
abbrev pub is_hid_meta : EventCodes → Buffer → ℕ → Bool
is_hid_meta codes packet packet_size = leb 3 packet_size && packet 0 == codes.hid_meta

-- `swbt_btstack_hid_event_read_u16_le`, at an offset.
unfoldable pub read_u16_le : Buffer → ℕ → ℕ
read_u16_le packet offset = bit_or (packet offset) (packet (offset + 1) * 2 ^ 8)

-- `swbt_btstack_hid_event_copy_reversed_address`, from an offset.
unfoldable pub copy_reversed_address : Buffer → ℕ → Buffer → Buffer
copy_reversed_address source offset address =
    let address0 = store address 0 (source (offset + 5)) in
    let address1 = store address0 1 (source (offset + 4)) in
    let address2 = store address1 2 (source (offset + 3)) in
    let address3 = store address2 3 (source (offset + 2)) in
    let address4 = store address3 4 (source (offset + 1)) in store address4 5 (source offset)

unfoldable pub decode_confirmation : Buffer → ℕ → EventResult × HidEvent
unfolding copy_reversed_address
decode_confirmation packet packet_size = if ltb packet_size 8 then (ignored, cleared) else (
  ok,
  record cleared { event_type = confirmation; address = copy_reversed_address packet 2 (λ _. 0) },
)

unfoldable pub decode_opened : Buffer → ℕ → EventResult × HidEvent
unfolding copy_reversed_address read_u16_le
decode_opened packet packet_size = if ltb packet_size 15 then (ignored, cleared) else (
  ok,
  record {
    event_type = opened;
    hid_cid = read_u16_le packet 3;
    status = packet 5;
    address = copy_reversed_address packet 6 (λ _. 0);
  },
)

-- The two events that carry a channel alone.
unfoldable pub decode_channel : EventType → Buffer → ℕ → EventResult × HidEvent
unfolding read_u16_le
decode_channel event_type packet packet_size =
    if ltb packet_size 5
    then (ignored, cleared)
    else (ok, record cleared { event_type = event_type; hid_cid = read_u16_le packet 3 })

-- The switch on the code of the HID event.
unfoldable pub decode_meta : EventCodes → Buffer → ℕ → EventResult × HidEvent
unfolding decode_opened decode_channel
decode_meta codes packet packet_size =
    if packet 2 == codes.connection_opened
    then decode_opened packet packet_size
    else if packet 2 == codes.connection_closed
    then decode_channel closed packet packet_size
    else if packet 2 == codes.can_send_now
    then decode_channel sendable packet packet_size
    else (ignored, cleared)

unfoldable pub decode_packet : EventCodes → Buffer → ℕ → EventResult × HidEvent
unfolding decode_confirmation decode_meta
decode_packet codes packet packet_size =
    if packet 0 == codes.user_confirmation_request
    then decode_confirmation packet packet_size
    else if not (is_hid_meta codes packet packet_size)
    then (ignored, cleared)
    else decode_meta codes packet packet_size

abbrev pub event_of : Option Buffer → EventCodes → ℕ → EventResult × HidEvent
event_of none codes packet_size = (ignored, cleared)
event_of (some packet) codes packet_size = decode_packet codes packet packet_size

-- `swbt_btstack_hid_event_decode`; the event is written over whatever it was.
unfoldable pub decode :
    EventCodes → ℕ → Option Buffer → ℕ → Option HidEvent → EventResult × Option HidEvent
unfolding decode_packet
decode codes packet_type packet packet_size none = (invalid_argument, none)
decode codes packet_type packet packet_size (some out_event) =
    if not (packet_type == codes.event_packet) || not (has_prefix packet packet_size)
    then (ignored, some cleared)
    else (let (result, event) = event_of packet codes packet_size in (result, some event))
