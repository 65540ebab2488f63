-- ===== src/Switch/SpiSeed/Validate.antt =====
-- What an accepted seed profile satisfies.
use swbt_daemon.Common.{
  ℕ, zero, suc, ◌+◌, ◌≤◌, ◌<◌, ◌≡◌, ◌⊎◌, false, Option, none, some, arith, is_null, List, [], ◌∷◌,
  All, ℕ_discrete, or_false,
}
use swbt_daemon.Switch.Spi.{SpiResult, ok, storage_size}
use swbt_daemon.Switch.SpiSeed.{
  SeedEntry, SeedField, SeedProfile, SeedRange, entry_range, validate_required_field,
  validate_entry_boundary, ranges_overlap, fixed_ranges, overlaps_fixed, overlaps_previous,
  validate_entry, validate_entries, validate_extra_entries, validate_fields, validate_profile,
  entries_at, ◌&>◌,
}

-- The range lies in the storage.
abbrev pub Fits : ℕ → ℕ → Type 0
Fits address len = address + len ≤ storage_size

abbrev pub Apart : SeedRange → SeedRange → Type 0
Apart a b = (a.address + a.data_len ≤ b.address) ⊎ (b.address + b.data_len ≤ a.address)

-- The overlap test is exact on ranges that lie in the storage and are not empty.
ranges_overlap-Apart :
    (a b : SeedRange)
    → Fits a.address a.data_len
    → Fits b.address b.data_len
    → ranges_overlap a b ≡ false
    → Apart a b
unfolding ranges_overlap
ranges_overlap-Apart a b ha hb e = ground arith

-- An entry that the boundary check accepts has data, and lies in the storage.
pub record IsStorable (entry : SeedEntry) : Type 0 where
  pub present : is_null entry.bytes ≡ false
  pub fits : Fits entry.address entry.data_len

validate_entry_boundary-IsStorable :
    (entry : SeedEntry) → validate_entry_boundary entry ≡ ok → IsStorable entry
unfolding validate_entry_boundary
validate_entry_boundary-IsStorable entry e = ground arith

overlaps_fixed-Apart :
    (r : SeedRange) (fs : List SeedRange)
    → Fits r.address r.data_len
    → All (λ f. Fits f.address f.data_len) fs
    → overlaps_fixed r fs ≡ false
    → All (Apart r) fs
unfolding overlaps_fixed
overlaps_fixed-Apart r [] h hs e = tt
overlaps_fixed-Apart r (f ∷ fs) h hs e =
    let (first, rest) = or_false (ranges_overlap r f) (overlaps_fixed r fs) e in
    (ranges_overlap-Apart r f h hs.0 first, overlaps_fixed-Apart r fs h hs.1 rest)

module _ (entries : ℕ → SeedEntry) where
  -- The entries before `n` lie in the storage.
  abbrev StorableBelow : ℕ → Type 0
  StorableBelow n = (k : ℕ) → k < n → IsStorable (entries k)

  overlaps_previous-Apart :
      (n k : ℕ) (r : SeedRange)
      → Fits r.address r.data_len
      → StorableBelow n
      → overlaps_previous entries n r ≡ false
      → k < n
      → Apart r (entry_range (entries k))
  unfolding overlaps_previous
  overlaps_previous-Apart zero k r h hs e lt = absurd (omega arith)
  overlaps_previous-Apart (suc n) k r h hs e lt =
      let (rest, last) =
        or_false (overlaps_previous entries n r) (ranges_overlap r (entry_range (entries n))) e in
      elim (ℕ_discrete k n) [
        | yes p ↦
            rw p (ranges_overlap-Apart r (entry_range (entries n)) h (hs n (omega arith)).fits last)
        | no p ↦ overlaps_previous-Apart n k r h (λ i q. hs i (omega arith)) rest (omega arith)
      ]

  -- What the checks establish of entry `i`.
  pub record IsAccepted (i : ℕ) : Type 0 where
    pub storable : IsStorable (entries i)
    pub off_fixed : All (Apart (entry_range (entries i))) fixed_ranges
    pub off_previous : (k : ℕ) → k < i → Apart (entry_range (entries i)) (entry_range (entries k))

  validate_entry-IsAccepted :
      (i : ℕ) → StorableBelow i → validate_entry entries i ≡ ok → IsAccepted i
  unfolding validate_entry
  validate_entry-IsAccepted i below e =
      let (boundary, fixed, previous) = checks i e in
      let s = validate_entry_boundary-IsStorable (entries i) boundary in
      record {
        storable = s;
        off_fixed =
            overlaps_fixed-Apart (entry_range (entries i)) fixed_ranges s.fits (omega arith) fixed;
        off_previous =
            λ k h. overlaps_previous-Apart i k (entry_range (entries i)) s.fits below previous h;
      }
    where
      checks :
          (i : ℕ)
          → validate_entry entries i ≡ ok
          → (validate_entry_boundary (entries i) ≡ ok)
            × (overlaps_fixed (entry_range (entries i)) fixed_ranges ≡ false)
            × (overlaps_previous entries i (entry_range (entries i)) ≡ false)
      checks i e = ground arith

  -- The loop accepts its entries one by one.
  validate_entries-IsAccepted :
      (n k : ℕ)
      → ((j : ℕ) → j < k → IsAccepted j)
      → validate_entries entries n k ≡ ok
      → (i : ℕ) → i < k + n
      → IsAccepted i
  unfolding validate_entries
  validate_entries-IsAccepted zero k below e i h = below i (omega arith)
  validate_entries-IsAccepted (suc n) k below e i h =
      let (first, rest) = split e in
      let here = validate_entry-IsAccepted k (λ j q. (below j q).storable) first in
      validate_entries-IsAccepted n (k + 1)
        (λ j q. elim (ℕ_discrete j k) [ yes p ↦ rw p here | no p ↦ below j (omega arith) ]) rest i
        (omega arith)
    where
      split :
          validate_entries entries (suc n) k ≡ ok
          → (validate_entry entries k ≡ ok) × (validate_entries entries n (k + 1) ≡ ok)
      split e = ground arith

-- An accepted profile: every required field is present with its size, and every extra entry is
-- accepted.
pub record IsAcceptedField (field : SeedField) (size : ℕ) : Type 0 where
  pub present : is_null field.bytes ≡ false
  pub sized : field.data_len ≡ size

pub record IsAcceptedProfile (p : SeedProfile) : Type 0 where
  pub device_type : IsAcceptedField p.device_type 1
  pub controller_colors : IsAcceptedField p.controller_colors 6
  pub factory_imu_calibration : IsAcceptedField p.factory_imu_calibration 24
  pub left_stick_calibration : IsAcceptedField p.left_stick_calibration 9
  pub right_stick_calibration : IsAcceptedField p.right_stick_calibration 9
  pub user_left_stick_magic : IsAcceptedField p.user_left_stick_magic 2
  pub user_right_stick_magic : IsAcceptedField p.user_right_stick_magic 2
  pub user_imu_magic : IsAcceptedField p.user_imu_magic 2
  pub extra : (i : ℕ) → i < p.extra_entry_count → IsAccepted (entries_at p.extra_entries) i

validate_required_field_iff :
    (field : SeedField) (size : ℕ)
    → validate_required_field field size ≡ ok
    → IsAcceptedField field size
unfolding validate_required_field
validate_required_field_iff field size e = ground arith

&>-ok : (r next : SpiResult) → (r &> next) ≡ ok → (r ≡ ok) × (next ≡ ok)
&>-ok r next e = ground arith

validate_extra_entries-IsAccepted :
    (entries : Option (ℕ → SeedEntry)) (n : ℕ)
    → validate_extra_entries entries n ≡ ok
    → (i : ℕ) → i < n
    → IsAccepted (entries_at entries) i
unfolding validate_extra_entries
validate_extra_entries-IsAccepted entries zero e i h = absurd (omega arith)
validate_extra_entries-IsAccepted none (suc n) e i h = cc
validate_extra_entries-IsAccepted (some entries) (suc n) e i h =
    validate_entries-IsAccepted entries (suc n) 0 (λ j q. absurd (omega arith)) e i (omega arith)

pub validate_profile-IsAcceptedProfile :
    (p : SeedProfile) → validate_profile (some p) ≡ ok → IsAcceptedProfile p
unfolding validate_profile validate_fields
validate_profile-IsAcceptedProfile p e =
    let (fields, extra) = &>-ok _ _ e in
    let (f7, e8) = &>-ok _ _ fields in
    let (f6, e7) = &>-ok _ _ f7 in
    let (f5, e6) = &>-ok _ _ f6 in
    let (f4, e5) = &>-ok _ _ f5 in
    let (f3, e4) = &>-ok _ _ f4 in
    let (f2, e3) = &>-ok _ _ f3 in
    let (e1, e2) = &>-ok _ _ f2 in
    record {
      device_type = validate_required_field_iff _ _ e1;
      controller_colors = validate_required_field_iff _ _ e2;
      factory_imu_calibration = validate_required_field_iff _ _ e3;
      left_stick_calibration = validate_required_field_iff _ _ e4;
      right_stick_calibration = validate_required_field_iff _ _ e5;
      user_left_stick_magic = validate_required_field_iff _ _ e6;
      user_right_stick_magic = validate_required_field_iff _ _ e7;
      user_imu_magic = validate_required_field_iff _ _ e8;
      extra = validate_extra_entries-IsAccepted p.extra_entries p.extra_entry_count extra;
    }
