-- ===== src/Switch/SpiSeed/Fixed.antt =====
-- The eight required fields: their places lie apart, and their writes succeed.
use swbt_daemon.Common.{
  ℕ, zero, suc, ◌+◌, ◌<◌, ◌≡◌, refl, get_or, map, leb→le, Bool, true, false, arith, leb, ◌||◌,
  is_null,
}
use swbt_daemon.Common.Bits.{holds_to, holds_to_sound}
use swbt_daemon.Switch.Spi.{
  Spi, ok, storage_size, address_device_type, address_controller_colors,
  address_factory_imu_calibration, address_left_stick_calibration, address_right_stick_calibration,
  address_user_left_stick_magic, address_user_right_stick_magic, address_user_imu_magic,
}
use swbt_daemon.Switch.SpiSeed.{SeedEntry, SeedProfile, entry_range, fixed_ranges, write_entry}
use swbt_daemon.Switch.SpiSeed.Validate.{Fits, Apart, IsStorable, IsAcceptedProfile}
use swbt_daemon.Switch.SpiSeed.Store.{store_bytes, write_entry-ok, at}

-- The required fields, in the order in which they are written.
abbrev pub fixed_entry : SeedProfile → ℕ → SeedEntry
fixed_entry p zero = at address_device_type p.device_type
fixed_entry p (suc zero) = at address_controller_colors p.controller_colors
fixed_entry p (suc (suc zero)) = at address_factory_imu_calibration p.factory_imu_calibration
fixed_entry p (suc (suc (suc zero))) = at address_left_stick_calibration p.left_stick_calibration
fixed_entry p (suc (suc (suc (suc zero)))) =
    at address_right_stick_calibration p.right_stick_calibration
fixed_entry p (suc (suc (suc (suc (suc zero))))) =
    at address_user_left_stick_magic p.user_left_stick_magic
fixed_entry p (suc (suc (suc (suc (suc (suc zero)))))) =
    at address_user_right_stick_magic p.user_right_stick_magic
fixed_entry p (suc (suc (suc (suc (suc (suc (suc i))))))) =
    at address_user_imu_magic p.user_imu_magic

abbrev pub fixed_size : ℕ → ℕ
fixed_size i = get_or (map (λ r. r.data_len) fixed_ranges) i 2

abbrev pub fixed_address : ℕ → ℕ
fixed_address i = get_or (map (λ r. r.address) fixed_ranges) i 0x8026

abbrev apart_test : ℕ → ℕ → Bool
apart_test b a =
    leb (fixed_address b + fixed_size b) (fixed_address a)
    || leb (fixed_address a + fixed_size a) (fixed_address b)

apart_table : holds_to 8 (λ b. holds_to b (apart_test b)) ≡ true
unfolding holds_to
apart_table = refl

fits_table : holds_to 8 (λ i. leb (fixed_address i + fixed_size i) storage_size) ≡ true
unfolding holds_to
fits_table = refl

fixed-Fits : (i : ℕ) → i < 8 → Fits (fixed_address i) (fixed_size i)
fixed-Fits i h =
    leb→le _ _
      (holds_to_sound 8 i (λ i. leb (fixed_address i + fixed_size i) storage_size) h fits_table)

module _ (p : SeedProfile) (ok_p : IsAcceptedProfile p) where
  pub fixed_entry-address : (i : ℕ) → i < 8 → (fixed_entry p i).address ≡ fixed_address i
  fixed_entry-address zero h = refl
  fixed_entry-address (suc zero) h = refl
  fixed_entry-address (suc (suc zero)) h = refl
  fixed_entry-address (suc (suc (suc zero))) h = refl
  fixed_entry-address (suc (suc (suc (suc zero)))) h = refl
  fixed_entry-address (suc (suc (suc (suc (suc zero))))) h = refl
  fixed_entry-address (suc (suc (suc (suc (suc (suc zero)))))) h = refl
  fixed_entry-address (suc (suc (suc (suc (suc (suc (suc zero))))))) h = refl
  fixed_entry-address (suc (suc (suc (suc (suc (suc (suc (suc i)))))))) h = absurd (omega arith)

  pub fixed_entry-sized : (i : ℕ) → i < 8 → (fixed_entry p i).data_len ≡ fixed_size i
  fixed_entry-sized zero h = ok_p.device_type.sized
  fixed_entry-sized (suc zero) h = ok_p.controller_colors.sized
  fixed_entry-sized (suc (suc zero)) h = ok_p.factory_imu_calibration.sized
  fixed_entry-sized (suc (suc (suc zero))) h = ok_p.left_stick_calibration.sized
  fixed_entry-sized (suc (suc (suc (suc zero)))) h = ok_p.right_stick_calibration.sized
  fixed_entry-sized (suc (suc (suc (suc (suc zero))))) h = ok_p.user_left_stick_magic.sized
  fixed_entry-sized (suc (suc (suc (suc (suc (suc zero)))))) h = ok_p.user_right_stick_magic.sized
  fixed_entry-sized (suc (suc (suc (suc (suc (suc (suc zero))))))) h = ok_p.user_imu_magic.sized
  fixed_entry-sized (suc (suc (suc (suc (suc (suc (suc (suc i)))))))) h = absurd (omega arith)

  fixed_entry-present : (i : ℕ) → is_null (fixed_entry p i).bytes ≡ false
  fixed_entry-present zero = ok_p.device_type.present
  fixed_entry-present (suc zero) = ok_p.controller_colors.present
  fixed_entry-present (suc (suc zero)) = ok_p.factory_imu_calibration.present
  fixed_entry-present (suc (suc (suc zero))) = ok_p.left_stick_calibration.present
  fixed_entry-present (suc (suc (suc (suc zero)))) = ok_p.right_stick_calibration.present
  fixed_entry-present (suc (suc (suc (suc (suc zero))))) = ok_p.user_left_stick_magic.present
  fixed_entry-present (suc (suc (suc (suc (suc (suc zero)))))) = ok_p.user_right_stick_magic.present
  fixed_entry-present (suc (suc (suc (suc (suc (suc (suc i))))))) = ok_p.user_imu_magic.present

  fixed_entry-IsStorable : (i : ℕ) → i < 8 → IsStorable (fixed_entry p i)
  fixed_entry-IsStorable i h = record {
    present = fixed_entry-present i;
    fits = omega (arith, fixed_entry-address i h, fixed_entry-sized i h, fixed-Fits i h);
  }

  pub fixed_entry-Apart :
      (a b : ℕ)
      → a < b
      → b < 8
      → Apart (entry_range (fixed_entry p b)) (entry_range (fixed_entry p a))
  fixed_entry-Apart a b h k = ground (
    arith,
    fixed_entry-address a,
    fixed_entry-sized a,
    fixed_entry-address b,
    fixed_entry-sized b,
    holds_to_sound b a (apart_test b) h
        (holds_to_sound 8 b (λ b. holds_to b (apart_test b)) k apart_table),
  )

  pub write_fixed :
      (i : ℕ) (spi : Spi)
      → i < 8
      → let e = fixed_entry p i in
        write_entry e.address e.bytes e.data_len spi
        ≡ (ok, store_bytes spi e.address e.bytes e.data_len)
  write_fixed i spi h =
      let e = fixed_entry p i in
      let s = fixed_entry-IsStorable i h in
      write_entry-ok e.address e.bytes e.data_len spi s.present s.fits
