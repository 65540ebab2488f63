-- ===== src/Bridge/AdapterLocation/Parse.antt =====
-- What the parser of adapter locations accepts, and that a location it gives can be applied.
use swbt_daemon.Common.{
  ℕ, zero, suc, ◌+◌, ◌*◌, ◌-◌, ◌≤◌, ◌<◌, ◌≡◌, ◌≢◌, refl, subst, ap, sym, ◌⊎◌, inl, inr, Bool,
  Bool-cases, not, ◌==◌, if◌then◌else◌, true, false, Option, none, some, List, [], ◌∷◌, length,
  get_or, All, arith,
}
use swbt_daemon.Common.Buffer.{Buffer, fill, fill_lem}
use swbt_daemon.Common.Int.{ℤ, pos}
use swbt_daemon.Common.Text.{Bytes, text, after_prefix}
use swbt_daemon.Bridge.AdapterLocation.{
  backend_error, LocationResult, ok, invalid_format, winusb_path, Location, winusb, zero_location,
  libusb_location, nonzero, parse_digits, parse_u8, parse_ports, parse_path, parse_libusb,
  parse_winusb, parse_text, parse, LocationPort, libusb_path, winusb_result, apply, apply_by,
  apply_winusb, apply_libusb,
}

-- A bus or a port.
abbrev pub IsPort : ℕ → Type 0
IsPort n = (1 ≤ n) × (n ≤ 255)

-- What a location that was parsed holds.
abbrev pub IsLocated : Location → Type 0
IsLocated location =
    ((c : ℕ) × (path : Bytes) × (location
        ≡ record zero_location { backend = winusb; winusb_location_path = some (c ∷ path) }))
    ⊎ ((bus : ℕ) × (ports : List ℕ) × (location ≡ libusb_location bus ports)
        × IsPort bus
        × (1 ≤ length ports)
        × (length ports ≤ 7)
        × All IsPort ports)

digits_small :
    (value : ℕ) (has_digit : Bool) (cs : Bytes) (read : ℕ × Bool × Bytes)
    → value ≤ 255
    → parse_digits value has_digit cs ≡ some read
    → read.0 ≤ 255
unfolding parse_digits
digits_small value has_digit [] read h e = ground arith
digits_small value has_digit (c ∷ cs) read h e =
    ground (arith, digits_small (value * 10 + (c - 0x30)) true cs read)

nonzero-IsPort :
    (read : ℕ × Bool × Bytes) (port : ℕ) (end : Bytes)
    → read.0 ≤ 255
    → nonzero read ≡ some (port, end)
    → IsPort port
nonzero-IsPort (value, has_digit, cursor) port end h e = ground arith

parse_u8-IsPort :
    (cs : Bytes) (port : ℕ) (end : Bytes) → parse_u8 cs ≡ some (port, end) → IsPort port
unfolding parse_u8
parse_u8-IsPort cs port end e = by_read (parse_digits 0 false cs) refl e
  where
    by_read :
        (read : Option (ℕ × Bool × Bytes))
        → parse_digits 0 false cs ≡ read
        → (elim read as (λ _. Option (ℕ × Bytes)) [ none ↦ none | some r ↦ nonzero r ])
          ≡ some (port, end)
        → IsPort port
    by_read none d e' = ground arith
    by_read (some r) d e' = nonzero-IsPort r port end (digits_small 0 false cs r (omega arith) d) e'

-- A list of ports that the array has room for.
abbrev ArePorts : ℕ → List ℕ → Type 0
ArePorts left ports = (1 ≤ length ports) × (length ports ≤ left) × All IsPort ports

with_port : ℕ → Option (List ℕ) → Option (List ℕ)
with_port port none = none
with_port port (some ps) = some (port ∷ ps)

cons-ArePorts :
    (left port : ℕ) (later : Option (List ℕ)) (ports : List ℕ)
    → IsPort port
    → ((ps : List ℕ) → later ≡ some ps → ArePorts left ps)
    → with_port port later ≡ some ports
    → ArePorts (suc left) ports
unfolding with_port
cons-ArePorts left port none ports h later e = ground arith
cons-ArePorts left port (some ps) ports h later e = ground (arith, later ps refl)

parse_ports-ArePorts :
    (left : ℕ) (c : ℕ) (cs : Bytes) (ports : List ℕ)
    → parse_ports left (c ∷ cs) ≡ some ports
    → ArePorts left ports
unfolding parse_ports with_port
parse_ports-ArePorts zero c cs ports e = ground arith
parse_ports-ArePorts (suc left) c cs ports e =
    by_port (parse_ports-ArePorts left) (parse_u8 (c ∷ cs)) refl e
  where
    after : Option (ℕ × Bytes) → Option (List ℕ)
    after none = none
    after (some (port, [])) = some (port ∷ [])
    after (some (port, d ∷ [])) = none
    after (some (port, d ∷ f ∷ rest)) =
        if not (d == 0x2E)
        then none
        else (elim (parse_ports left (f ∷ rest)) [ none ↦ none | some ps ↦ some (port ∷ ps) ])

    by_port :
        ((f : ℕ) (rest : Bytes) (ps : List ℕ)
          → parse_ports left (f ∷ rest) ≡ some ps
          → ArePorts left ps)
        → (read : Option (ℕ × Bytes)) → parse_u8 (c ∷ cs) ≡ read
        → after read ≡ some ports
        → ArePorts (suc left) ports
    by_port ih none d e' = ground arith
    by_port ih (some (port, [])) d e' = ground (arith, parse_u8-IsPort (c ∷ cs) port [] d)
    by_port ih (some (port, x ∷ [])) d e' = ground arith
    by_port ih (some (port, x ∷ f ∷ rest)) d e' = elim (Bool-cases (x == 0x2E)) [
      | inl dot ↦
          cons-ArePorts left port (parse_ports left (f ∷ rest)) ports
            (parse_u8-IsPort (c ∷ cs) port (x ∷ f ∷ rest) d) (ih f rest) (ground arith)
      | inr other ↦ ground arith
    ]

located : ℕ → Option (List ℕ) → LocationResult × Location
located bus none = (invalid_format, zero_location)
located bus (some ports) = (ok, libusb_location bus ports)

located-IsLocated :
    (bus : ℕ) (read : Option (List ℕ))
    → IsPort bus
    → ((ports : List ℕ) → read ≡ some ports → ArePorts 7 ports)
    → (located bus read).0 ≡ ok
    → IsLocated (located bus read).1
unfolding located
located-IsLocated bus none h k e = ground arith
located-IsLocated bus (some ports) h k e =
    let (some_ports, few, all) = k ports refl in inr (bus, ports, refl, h, some_ports, few, all)

path-IsLocated :
    (bus : ℕ) (cs : Bytes)
    → IsPort bus
    → (parse_path bus cs).0 ≡ ok
    → IsLocated (parse_path bus cs).1
unfolding parse_path located
path-IsLocated bus [] h e = ground arith
path-IsLocated bus (d ∷ []) h e = ground arith
path-IsLocated bus (d ∷ c ∷ cs) h e = by_colon (d == 0x3A) e
  where
    by_colon :
        (b : Bool)
        → (if not b
            then (invalid_format, zero_location)
            else located bus (parse_ports 7 (c ∷ cs))).0
          ≡ ok
        → IsLocated
            (if not b
              then (invalid_format, zero_location)
              else located bus (parse_ports 7 (c ∷ cs))).1
    by_colon false e' = ground arith
    by_colon true e' =
        located-IsLocated bus (parse_ports 7 (c ∷ cs)) h (parse_ports-ArePorts 7 c cs) e'

behind_bus : Option (ℕ × Bytes) → LocationResult × Location
behind_bus none = (invalid_format, zero_location)
behind_bus (some (bus, end)) = parse_path bus end

libusb-IsLocated : (cs : Bytes) → (parse_libusb cs).0 ≡ ok → IsLocated (parse_libusb cs).1
unfolding parse_libusb behind_bus
libusb-IsLocated cs e = by_bus (parse_u8 cs) refl e
  where
    by_bus :
        (read : Option (ℕ × Bytes))
        → parse_u8 cs ≡ read
        → (behind_bus read).0 ≡ ok
        → IsLocated (behind_bus read).1
    by_bus none d e' = ground arith
    by_bus (some (bus, end)) d e' = path-IsLocated bus end (parse_u8-IsPort cs bus end d) e'

winusb-IsLocated : (cs : Bytes) → (parse_winusb cs).0 ≡ ok → IsLocated (parse_winusb cs).1
unfolding parse_winusb
winusb-IsLocated [] e = ground arith
winusb-IsLocated (c ∷ cs) e = inl (c, cs, refl)

behind_libusb : Option Bytes → LocationResult × Location
behind_libusb none = (invalid_format, zero_location)
behind_libusb (some cursor) = parse_libusb cursor

behind_winusb : Bytes → Option Bytes → LocationResult × Location
behind_winusb cs (some path) = parse_winusb path
behind_winusb cs none = behind_libusb (after_prefix cs (text "libusb:"))

-- A text that is accepted gives a location: a WinUSB path that is not empty, or a bus and one to
-- seven ports, each from 1 to 255.
pub parse-IsLocated :
    (cs : Bytes) (before : Location)
    → (parse (some cs) before).0 ≡ ok
    → IsLocated (parse (some cs) before).1
unfolding parse parse_text behind_winusb behind_libusb
parse-IsLocated cs before e = by_prefix (after_prefix cs (text "winusb:")) e
  where
    by_libusb : (p : Option Bytes) → (behind_libusb p).0 ≡ ok → IsLocated (behind_libusb p).1
    by_libusb none e' = ground arith
    by_libusb (some cursor) e' = libusb-IsLocated cursor e'

    by_prefix : (p : Option Bytes) → (behind_winusb cs p).0 ≡ ok → IsLocated (behind_winusb cs p).1
    by_prefix (some path) e' = winusb-IsLocated path e'
    by_prefix none e' = by_libusb (after_prefix cs (text "libusb:")) e'

-- A port that has both functions.
abbrev pub full_port : (Bytes → ℤ) → LocationPort
full_port set = record { set_winusb_location_path = some set; has_set_libusb_bus_and_path = true }

-- What a port that has both functions makes of a location.
abbrev pub IsApplied : (Bytes → ℤ) → Location → Type 0
IsApplied set location =
    let (result, call) = apply (some location) (some (full_port set)) in
    ((path : Bytes) × (location.winusb_location_path ≡ some path)
      × (call ≡ some (winusb_path path))
      × (((result ≡ ok) × (set path ≡ pos 0)) ⊎ ((result ≡ backend_error) × (set path ≢ pos 0))))
    ⊎ ((ports : List ℕ) × (called : Buffer) × (result ≡ ok)
        × (call ≡ some (libusb_path location.libusb_bus (length ports) called))
        × (location ≡ libusb_location location.libusb_bus ports)
        × ((i : ℕ) → i < length ports → called i ≡ get_or ports i 0))

winusb_answer :
    (z : ℤ)
    → ((winusb_result z ≡ ok) × (z ≡ pos 0)) ⊎ ((winusb_result z ≡ backend_error) × (z ≢ pos 0))
winusb_answer z = ground arith

applied_libusb :
    (set : Bytes → ℤ) (bus : ℕ) (ports : List ℕ)
    → 1 ≤ length ports
    → length ports ≤ 7
    → apply (some (libusb_location bus ports)) (some (full_port set)) ≡ (
      ok,
      some
          (libusb_path bus (length ports) (fill (λ _. 0) 0 (length ports) (λ i. get_or ports i 0))),
    )
unfolding apply apply_by apply_libusb
applied_libusb set bus ports h k = ground arith

IsLocated-IsApplied :
    (set : Bytes → ℤ) (location : Location) → IsLocated location → IsApplied set location
unfolding apply apply_by apply_winusb
IsLocated-IsApplied set location (inl (c, path, e)) =
    subst (IsApplied set) (sym e) (inl (c ∷ path, refl, refl, winusb_answer (set (c ∷ path))))
IsLocated-IsApplied set location (inr (bus, ports, e, b, h, k, all)) =
    subst (IsApplied set) (sym e) (
      inr (
        ports,
        fill (λ _. 0) 0 (length ports) (λ i. get_or ports i 0),
        ap (λ r. r.0) (applied_libusb set bus ports h k),
        ap (λ r. r.1) (applied_libusb set bus ports h k),
        refl,
        λ i l. ground (arith, fill_lem (λ _. 0) 0 (length ports) (λ k. get_or ports k 0) i),
      ))

-- A location that was parsed can be applied by a port that has both functions: it is never refused
-- as unsupported, and the port is called once, with the path or with the bus and the very ports
-- that were parsed; only what the WinUSB function answers can fail.
pub apply-parse :
    (cs : Bytes) (before : Location) (set : Bytes → ℤ)
    → (parse (some cs) before).0 ≡ ok
    → IsApplied set (parse (some cs) before).1
apply-parse cs before set e =
    IsLocated-IsApplied set (parse (some cs) before).1 (parse-IsLocated cs before e)
