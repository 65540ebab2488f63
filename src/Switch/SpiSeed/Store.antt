-- ===== src/Switch/SpiSeed/Store.antt =====
-- The loop that stores entries one after the other.
use swbt_daemon.Common.{
  ℕ, zero, suc, ◌+◌, ◌≤◌, ◌<◌, ◌≡◌, refl, ◌⊎◌, inl, inr, ◌∙◌, subst, false, Option, none, some,
  arith, is_null, ℕ_discrete,
}
use swbt_daemon.Common.Buffer.{Buffer, fill, fill_inside, fill_outside}
use swbt_daemon.Switch.Spi.{Spi, ok}
use swbt_daemon.Switch.Spi.Laws.{write-ok}
use swbt_daemon.Switch.SpiSeed.{
  SeedEntry, SeedField, SeedRange, entry_range, write_entry, write_entries, and_then,
}
use swbt_daemon.Switch.SpiSeed.Validate.{Fits, Apart, IsStorable}

-- The byte that a pointer gives at an offset.
abbrev pub byte_at : Option Buffer → ℕ → ℕ
byte_at none i = 0
byte_at (some bytes) i = bytes i

abbrev pub store_bytes : Spi → ℕ → Option Buffer → ℕ → Spi
store_bytes spi address bytes len = record spi {
  bytes = fill spi.bytes address len (byte_at bytes);
}

pub write_entry-ok :
    (address : ℕ) (bytes : Option Buffer) (len : ℕ) (spi : Spi)
    → is_null bytes ≡ false
    → Fits address len
    → write_entry address bytes len spi ≡ (ok, store_bytes spi address bytes len)
unfolding write_entry
write_entry-ok address none len spi present fits = cc
write_entry-ok address (some bytes) len spi present fits = write-ok spi address len bytes fits

-- An index that a range does not hold.
abbrev pub Outside : ℕ → SeedRange → Type 0
Outside j r = (j < r.address) ⊎ (r.address + r.data_len ≤ j)

abbrev pub at : ℕ → SeedField → SeedEntry
at address field = record { address = address; bytes = field.bytes; data_len = field.data_len }

-- A byte of a range is outside any range apart from it.
pub Apart-Outside :
    (a b : SeedRange) (o : ℕ) → Apart b a → o < a.data_len → Outside (a.address + o) b
Apart-Outside a b o (inl h) lt = inr (omega arith)
Apart-Outside a b o (inr h) lt = inl (omega arith)

module _ (entries : ℕ → SeedEntry) where
  -- What the loop leaves when every entry can be stored.
  unfoldable pub store_all : ℕ → ℕ → Spi → Spi
  store_all zero k spi = spi
  store_all (suc n) k spi =
      store_all n (k + 1)
        (store_bytes spi (entries k).address (entries k).bytes (entries k).data_len)

  abbrev AllStorable : ℕ → ℕ → Type 0
  AllStorable n k = (i : ℕ) → k ≤ i → i < k + n → IsStorable (entries i)

  pub write_entries-ok :
      (n k : ℕ) (spi : Spi)
      → AllStorable n k
      → write_entries entries n k spi ≡ (ok, store_all n k spi)
  unfolding write_entries store_all
  write_entries-ok zero k spi h = refl
  write_entries-ok (suc n) k spi h =
      let s = h k (omega arith) (omega arith) in
      rw
        (
          write_entry-ok (entries k).address (entries k).bytes (entries k).data_len spi s.present
              s.fits,
          and_then,
        )
        (write_entries-ok n (k + 1) _ (λ i p q. h i (omega arith) (omega arith)))

  -- Bytes outside every entry are left alone.
  pub store_all-Outside :
      (n k j : ℕ) (spi : Spi)
      → ((i : ℕ) → k ≤ i → i < k + n → Outside j (entry_range (entries i)))
      → (store_all n k spi).bytes j ≡ spi.bytes j
  unfolding store_all
  store_all-Outside zero k j spi h = refl
  store_all-Outside (suc n) k j spi h =
      store_all-Outside n (k + 1) j _ (λ i p q. h i (omega arith) (omega arith))
      ∙ fill_outside spi.bytes (entries k).address (entries k).data_len (byte_at (entries k).bytes)
          j (h k (omega arith) (omega arith))

  -- The entry that is written first survives the others.
  store_all_first :
      (n k o : ℕ) (spi : Spi)
      → ((b : ℕ)
          → k < b
          → b < k + suc n
          → Apart (entry_range (entries b)) (entry_range (entries k)))
      → o < (entries k).data_len
      → (store_all (suc n) k spi).bytes ((entries k).address + o) ≡ byte_at (entries k).bytes o
  unfolding store_all
  store_all_first n k o spi apart h =
      store_all-Outside n (k + 1) ((entries k).address + o) _ (λ b u v.
        Apart-Outside (entry_range (entries k)) (entry_range (entries b)) o
          (apart b (omega arith) (omega arith)) h)
      ∙ fill_inside spi.bytes (entries k).address (entries k).data_len (byte_at (entries k).bytes) o
          h

  -- Entries that lie apart are all there at the end.
  pub store_all_inside :
      (n k i o : ℕ) (spi : Spi)
      → ((a b : ℕ) → a < b → b < k + n → Apart (entry_range (entries b)) (entry_range (entries a)))
      → k ≤ i
      → i < k + n
      → o < (entries i).data_len
      → (store_all n k spi).bytes ((entries i).address + o) ≡ byte_at (entries i).bytes o
  unfolding store_all
  store_all_inside zero k i o spi apart p q h = absurd (omega arith)
  store_all_inside (suc n) k i o spi apart p q h = elim (ℕ_discrete k i) [
    | yes e ↦
        let P = λ (m : ℕ).
          o < (entries m).data_len
          → (store_all (suc n) k spi).bytes ((entries m).address + o)
            ≡ byte_at (entries m).bytes o in
        subst P e (store_all_first n k o spi (λ b u v. apart k b u v)) h
    | no e ↦
        unfold store_all in
        store_all_inside n (k + 1) i o _ (λ a b u v. apart a b u (omega arith)) (omega arith)
          (omega arith) h
  ]
