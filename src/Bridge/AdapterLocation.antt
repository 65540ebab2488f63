-- ===== src/Bridge/AdapterLocation.antt =====
-- The location of the USB adapter: swbt/btstack_bridge/usb_adapter_location.h and
-- usb_adapter_location.c. A location is written in place and is a value.
pub mod Parse
use swbt_daemon.Common.{
  ℕ, zero, suc, ◌+◌, ◌-◌, ◌*◌, Bool, true, false, ◌&&◌, ◌||◌, not, Option, none, some, List, [],
  ◌∷◌, length, get_or, ltb, leb, ◌==◌, if◌then◌else◌, is_null,
}
use swbt_daemon.Common.Buffer.{Buffer, fill}
use swbt_daemon.Common.Int.{ℤ, pos, negsuc}
use swbt_daemon.Common.Text.{Bytes, text, after_prefix}

abbrev pub max_ports : ℕ
max_ports = 7

-- `swbt_btstack_usb_adapter_location_result_t`.
pub data LocationResult : Type 0 where
  ok invalid_argument invalid_format unsupported_backend backend_error : LocationResult

-- `swbt_btstack_usb_adapter_location_backend_t`.
pub data LocationBackend : Type 0 where
  no_backend winusb libusb : LocationBackend

-- `swbt_btstack_usb_adapter_location_t`; `libusb_ports` is an array of 7 bytes.
pub record Location : Type 0 where
  pub backend : LocationBackend
  pub winusb_location_path : Option Bytes
  pub libusb_bus : ℕ
  pub libusb_port_count : ℤ
  pub libusb_ports : Buffer

-- `{0}`.
abbrev pub zero_location : Location
zero_location = record {
  backend = no_backend;
  winusb_location_path = none;
  libusb_bus = 0;
  libusb_port_count = pos 0;
  libusb_ports = λ _. 0;
}

-- `swbt_btstack_usb_adapter_location_is_digit`.
abbrev pub is_digit : ℕ → Bool
is_digit c = leb b'0' c && leb c b'9'

-- The loop of `parse_u8`: the value, whether there was a digit, and the cursor.
unfoldable pub parse_digits : ℕ → Bool → Bytes → Option (ℕ × Bool × Bytes)
parse_digits value has_digit [] = some (value, has_digit, [])
parse_digits value has_digit (c ∷ cursor) =
    let value' = value * 10 + (c - b'0') in
    let rest = parse_digits value' true cursor in
    if not (is_digit c)
    then some (value, has_digit, c ∷ cursor)
    else if ltb 255 value'
    then none
    else rest

abbrev pub nonzero : ℕ × Bool × Bytes → Option (ℕ × Bytes)
nonzero (value, has_digit, cursor) =
    if not has_digit || value == 0 then none else some (value, cursor)

-- `swbt_btstack_usb_adapter_location_parse_u8`: the value and the cursor behind it.
unfoldable pub parse_u8 : Bytes → Option (ℕ × Bytes)
unfolding parse_digits
parse_u8 cursor = elim (parse_digits 0 false cursor) [ none ↦ none | some read ↦ nonzero read ]

-- The loop over the ports, for as many as the array still holds.
unfoldable pub parse_ports : ℕ → Bytes → Option (List ℕ)
parse_ports left [] = some []
parse_ports zero (c ∷ cursor) = none
parse_ports (suc left) (c ∷ cursor) = elim (parse_u8 (c ∷ cursor)) [
  | none ↦ none
  | some (port, []) ↦ some (port ∷ [])
  | some (port, d ∷ []) ↦ none
  | some (port, d ∷ e ∷ rest) ↦
      if not (d == b'.')
      then none
      else (elim (parse_ports left (e ∷ rest)) [ none ↦ none | some ports ↦ some (port ∷ ports) ])
]

-- The location of a bus and its ports.
abbrev pub libusb_location : ℕ → List ℕ → Location
libusb_location bus ports = record zero_location {
  backend = libusb;
  libusb_bus = bus;
  libusb_port_count = pos (length ports);
  libusb_ports = λ index. get_or ports index 0;
}

-- The part of `parse_libusb` behind the bus.
unfoldable pub parse_path : ℕ → Bytes → LocationResult × Location
parse_path bus [] = (invalid_format, zero_location)
parse_path bus (d ∷ []) = (invalid_format, zero_location)
parse_path bus (d ∷ c ∷ cursor) =
    if not (d == b':')
    then (invalid_format, zero_location)
    else (elim (parse_ports max_ports (c ∷ cursor)) [
      | none ↦ (invalid_format, zero_location)
      | some ports ↦ (ok, libusb_location bus ports)
    ])

-- `swbt_btstack_usb_adapter_location_parse_libusb`, from behind the prefix on; `*out_location` is
-- zeroed before.
unfoldable pub parse_libusb : Bytes → LocationResult × Location
parse_libusb cursor = elim (parse_u8 cursor) [
  | none ↦ (invalid_format, zero_location)
  | some (bus, end) ↦ parse_path bus end
]

unfoldable pub parse_winusb : Bytes → LocationResult × Location
parse_winusb [] = (invalid_format, zero_location)
parse_winusb (c ∷ path) =
    (ok, record zero_location { backend = winusb; winusb_location_path = some (c ∷ path) })

-- A text that is not NULL.
unfoldable pub parse_text : Bytes → LocationResult × Location
parse_text cs = elim (after_prefix cs (text "winusb:")) [
  | some path ↦ parse_winusb path
  | none ↦ elim (after_prefix cs (text "libusb:")) [
    | some cursor ↦ parse_libusb cursor
    | none ↦ (invalid_format, zero_location)
  ]
]

-- `swbt_btstack_usb_adapter_location_parse`, on an `out_location` that is not NULL.
unfoldable pub parse : Option Bytes → Location → LocationResult × Location
parse none out_location = (invalid_argument, out_location)
parse (some cs) out_location = parse_text cs

-- `swbt_btstack_usb_adapter_location_port_t`: what the function for WinUSB answers, `none` for
-- NULL, and whether there is one for libusb.
pub record LocationPort : Type 0 where
  pub set_winusb_location_path : Option (Bytes → ℤ)
  pub has_set_libusb_bus_and_path : Bool

-- A call of the port.
pub data PortCall : Type 0 where
  winusb_path : Bytes → PortCall
  libusb_path : ℕ → ℕ → Buffer → PortCall

abbrev pub winusb_result : ℤ → LocationResult
winusb_result (pos n) = if n == 0 then ok else backend_error
winusb_result (negsuc n) = backend_error

unfoldable pub apply_winusb : Option Bytes → Option (Bytes → ℤ) → LocationResult × Option PortCall
apply_winusb none set = (unsupported_backend, none)
apply_winusb (some path) none = (unsupported_backend, none)
apply_winusb (some path) (some set) = (winusb_result (set path), some (winusb_path path))

unfoldable pub apply_libusb : Location → Bool → ℤ → LocationResult × Option PortCall
apply_libusb location has_set (negsuc n) = (unsupported_backend, none)
apply_libusb location has_set (pos count) =
    if count == 0 || ltb max_ports count || not has_set then (unsupported_backend, none) else (
      ok,
      some (
          libusb_path location.libusb_bus count
            (fill (λ _. 0) 0 count (λ index. location.libusb_ports index))),
    )

unfoldable pub apply_by :
    LocationBackend → Location → LocationPort → LocationResult × Option PortCall
unfolding apply_winusb apply_libusb
apply_by winusb location port =
    apply_winusb location.winusb_location_path port.set_winusb_location_path
apply_by libusb location port =
    apply_libusb location port.has_set_libusb_bus_and_path location.libusb_port_count
apply_by no_backend location port = (invalid_argument, none)

-- `swbt_btstack_usb_adapter_location_apply`: the result, and the call that was made, if one was.
unfoldable pub apply : Option Location → Option LocationPort → LocationResult × Option PortCall
unfolding apply_by
apply none port = (invalid_argument, none)
apply (some location) none = (invalid_argument, none)
apply (some location) (some port) = apply_by location.backend location port
