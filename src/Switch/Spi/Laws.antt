-- ===== src/Switch/Spi/Laws.antt =====
-- Reads and writes of the emulated flash.
use swbt_daemon.Common.{
  ℕ, ◌+◌, ◌-◌, ◌≤◌, ◌<◌, ◌≡◌, refl, ◌⊎◌, inr, ◌∙◌, ap, ◌↔◌, ◌≢◌, ◌&&◌, some, arith, ltb, leb,
  if◌then◌else◌, u32,
}
use swbt_daemon.Common.Buffer.{Buffer, fill, fill_lem, fill_inside, fill_outside}
use swbt_daemon.Switch.Spi.{
  Spi, ok, ReadRequest, init, write, read, read_byte, storage_size, address_limit, max_read_size,
}

-- A write succeeds exactly when its pointer is not NULL and its range lies in the 0x10000 bytes of
-- storage; then every byte of the range is the data's and every other byte keeps its value, and a
-- refused write changes nothing.
pub write_outcome :
    (spi : Spi) (address len j : ℕ) (bytes : Buffer)
    → let (result, spi') = write spi address (some bytes) len in
      ((result ≡ ok) ↔ (address + len ≤ storage_size))
      × (spi'.default_value ≡ spi.default_value)
      × (spi'.bytes j ≡ (
          if leb (address + len) storage_size && leb address j && ltb j (address + len)
          then bytes (j - address)
          else spi.bytes j))
unfolding write
write_outcome spi address len j bytes = ground (arith, fill_lem spi.bytes address len bytes j)

-- A range that fits in the storage is written.
pub write-ok :
    (spi : Spi) (address len : ℕ) (bytes : Buffer)
    → address + len ≤ storage_size
    → write spi address (some bytes) len
      ≡ (ok, record spi { bytes = fill spi.bytes address len bytes })
unfolding write
write-ok spi address len bytes h = ground arith

read_ok :
    (spi : Spi) (request : ReadRequest) (out : Buffer) (capacity : ℕ)
    → request.size ≤ max_read_size
    → request.address + request.size ≤ address_limit
    → request.size ≤ capacity
    → read (some spi) request (some out) capacity ≡ record {
      result = ok;
      out =
          some
            (fill out 0 request.size (λ index. read_byte spi (u32 (request.address + u32 index))));
      written = request.size;
    }
unfolding read
read_ok spi request out capacity h k l = ground arith

-- No address of an accepted read wraps in 32 bits.
no_wrap :
    (spi : Spi) (address index : ℕ)
    → address + index < address_limit
    → read_byte spi (u32 (address + u32 index)) ≡ read_byte spi (address + index)
no_wrap spi address index h = ap (read_byte spi) (omega arith)

-- A read within 0x1D bytes, the address limit 0x80000 and the array is served: byte `i` is the
-- stored byte at address + i, and the default value past the 0x10000 bytes of storage; the array
-- behind the read bytes keeps its value.
pub read_outcome :
    (spi : Spi) (request : ReadRequest) (out : Buffer) (capacity i j : ℕ)
    → request.size ≤ max_read_size
    → request.address + request.size ≤ address_limit
    → request.size ≤ capacity
    → i < request.size
    → request.size ≤ j
    → let r = read (some spi) request (some out) capacity in
      (out' : Buffer) × (r ≡ record { result = ok; out = some out'; written = request.size })
      × (out' i ≡ (
          if ltb (request.address + i) storage_size
          then spi.bytes (request.address + i)
          else spi.default_value))
      × (out' j ≡ out j)
read_outcome spi request out capacity i j h k l ih jh =
    let bytes = λ (index : ℕ). read_byte spi (u32 (request.address + u32 index)) in
    (
      fill out 0 request.size bytes,
      read_ok spi request out capacity h k l,
      ap (fill out 0 request.size bytes) {y = 0 + i} (omega arith)
          ∙ fill_inside out 0 request.size bytes i ih
          ∙ no_wrap spi request.address i (omega arith)
          ∙ (unfold read_byte in refl),
      fill_outside out 0 request.size bytes j (inr (omega arith)),
    )

-- A read outside those bounds is refused, and leaves the array as it was.
pub read_refused :
    (spi : Spi) (request : ReadRequest) (out : Buffer) (capacity : ℕ)
    → (max_read_size < request.size)
      ⊎ (address_limit < request.address + request.size)
      ⊎ (capacity < request.size)
    → let r = read (some spi) request (some out) capacity in (r.result ≢ ok) × (r.out ≡ some out)
unfolding read
read_refused spi request out capacity h = ground arith

-- What was written is read back: a read of any part of a written range gives the written bytes.
pub read-write :
    (spi : Spi) (address len : ℕ) (bytes out : Buffer) (request : ReadRequest) (capacity i : ℕ)
    → address + len ≤ storage_size
    → address ≤ request.address
    → request.address + request.size ≤ address + len
    → request.size ≤ max_read_size
    → request.size ≤ capacity
    → i < request.size
    → let (_, spi') = write spi address (some bytes) len in
      (out' : Buffer) × (read (some spi') request (some out) capacity
        ≡ record { result = ok; out = some out'; written = request.size })
      × (out' i ≡ bytes (request.address + i - address))
read-write spi address len bytes out request capacity i h1 h2 h3 h4 h5 ih =
    let spi' = (write spi address (some bytes) len).1 in
    let w = write_outcome spi address len (request.address + i) bytes in
    let r =
      read_outcome spi' request out capacity i request.size h4 (omega arith) h5 ih (omega arith) in
    (r.0, r.1, ground (arith, r.2, w.2))

-- A fresh store reads as erased everywhere.
pub init-erased : (spi : Spi) (address : ℕ) → read_byte (init spi) address ≡ 0xFF
unfolding init read_byte
init-erased spi address = ground (arith, fill_lem spi.bytes 0 0x10000 (λ _. 0xFF) address)
