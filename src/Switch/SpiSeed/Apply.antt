-- ===== src/Switch/SpiSeed/Apply.antt =====
-- Seeding is all or nothing, and every accepted field and entry is found in the flash afterwards.
use swbt_daemon.Common.{
  ℕ, ◌+◌, ◌-◌, ◌<◌, ◌≡◌, refl, ◌⊎◌, inl, inr, ◌∙◌, ltb→lt, Bool-cases, some, arith, ltb,
  if◌then◌else◌,
}
use swbt_daemon.Switch.Spi.{Spi, ok}
use swbt_daemon.Switch.SpiSeed.{
  SeedEntry, SeedProfile, validate_profile, entries_at, write_profile, apply,
}
use swbt_daemon.Switch.SpiSeed.Validate.{validate_profile-IsAcceptedProfile}
use swbt_daemon.Switch.SpiSeed.Store.{byte_at}
use swbt_daemon.Switch.SpiSeed.Fixed.{fixed_entry}
use swbt_daemon.Switch.SpiSeed.Seeded.{extra, write_profile-ok, seeded-fixed, seeded-extra}

apply_accepted :
    (spi : Spi) (p : SeedProfile)
    → validate_profile (some p) ≡ ok
    → apply spi (some p) ≡ write_profile p spi
unfolding apply
apply_accepted spi p h = ground arith

validate-apply_ok :
    (spi : Spi) (p : SeedProfile) → (apply spi (some p)).0 ≡ ok → validate_profile (some p) ≡ ok
unfolding apply
validate-apply_ok spi p h = ground arith

apply_refused :
    (spi : Spi) (p : SeedProfile)
    → (validate_profile (some p) ≡ ok) ⊎ (apply spi (some p) ≡ (validate_profile (some p), spi))
unfolding apply
apply_refused spi p = ground arith

-- Seeding answers what the validation of the profile answers, and a refused profile leaves the
-- flash as it was: no write fails half-way.
pub apply-all_or_nothing :
    (spi : Spi) (p : SeedProfile)
    → let (result, spi') = apply spi (some p) in
      (result ≡ validate_profile (some p)) × ((result ≡ ok) ⊎ (spi' ≡ spi))
apply-all_or_nothing spi p = elim (apply_refused spi p) [
  | inl v ↦ ground (
    arith,
    apply_accepted spi p v,
    write_profile-ok p (validate_profile-IsAcceptedProfile p v) spi,
  )
  | inr e ↦ rw e (refl, inr refl)
]

-- The entries that a profile stands for: the eight required fields, then the extra ones.
abbrev pub profile_entry : SeedProfile → ℕ → SeedEntry
profile_entry p i = if ltb i 8 then fixed_entry p i else entries_at p.extra_entries (i - 8)

-- After a seeding that succeeds, the flash holds every required field and every extra entry of the
-- profile at its address, byte by byte.
pub apply-stores :
    (spi : Spi) (p : SeedProfile) (i o : ℕ)
    → (apply spi (some p)).0 ≡ ok
    → i < 8 + p.extra_entry_count
    → o < (profile_entry p i).data_len
    → let entry = profile_entry p i in
      (apply spi (some p)).1.bytes (entry.address + o) ≡ byte_at entry.bytes o
apply-stores spi p i o h hi ho =
    let v = validate-apply_ok spi p h in
    let a = validate_profile-IsAcceptedProfile p v in
    let e = apply_accepted spi p v ∙ write_profile-ok p a spi in
    rw e (elim (Bool-cases (ltb i 8)) [
      | inl y ↦ rw y (seeded-fixed p a spi i o (ltb→lt i 8 y) (rw y at ho))
      | inr n ↦ rw n (unfold extra in seeded-extra p a spi (i - 8) o (ground arith) (rw n at ho))
    ])
