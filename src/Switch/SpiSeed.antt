-- ===== src/Switch/SpiSeed.antt =====
-- The contents that the flash is seeded with: swbt/switch/switch_spi_seed.h and switch_spi_seed.c.
-- A field (pointer and length) of the profile is one `SeedField`; an array behind a pointer is a
-- function of the index. The guard against a NULL store is left out, as in `Spi`.
pub mod Validate
pub mod Store
pub mod Fixed
pub mod Seeded
pub mod Apply
use swbt_daemon.Common.{
  ℕ, zero, suc, ◌+◌, ◌-◌, Bool, true, false, ◌&&◌, ◌||◌, not, Option, none, some, ltb, ◌==◌,
  if◌then◌else◌, u32, List, [], ◌∷◌, get_or, length, is_null,
}
use swbt_daemon.Common.Buffer.{Buffer}
use swbt_daemon.Switch.Spi
use swbt_daemon.Switch.Spi.{
  Spi, SpiResult, ok, invalid_argument, address_out_of_range, storage_size, address_device_type,
  address_controller_colors, address_factory_imu_calibration, address_left_stick_calibration,
  address_right_stick_calibration, address_user_left_stick_magic, address_user_right_stick_magic,
  address_user_imu_magic, device_type_pro_controller,
}

abbrev pub device_type_size : ℕ
device_type_size = 1

abbrev pub controller_colors_size : ℕ
controller_colors_size = 6

abbrev pub factory_imu_calibration_size : ℕ
factory_imu_calibration_size = 24

abbrev pub stick_calibration_size : ℕ
stick_calibration_size = 9

abbrev pub user_magic_size : ℕ
user_magic_size = 2

-- `swbt_switch_spi_seed_entry_t`.
pub record SeedEntry : Type 0 where
  pub address : ℕ
  pub bytes : Option Buffer
  pub data_len : ℕ

-- A pointer of the profile with its length.
pub record SeedField : Type 0 where
  pub bytes : Option Buffer
  pub data_len : ℕ

-- `swbt_switch_spi_seed_profile_t`.
pub record SeedProfile : Type 0 where
  pub device_type : SeedField
  pub controller_colors : SeedField
  pub factory_imu_calibration : SeedField
  pub left_stick_calibration : SeedField
  pub right_stick_calibration : SeedField
  pub user_left_stick_magic : SeedField
  pub user_right_stick_magic : SeedField
  pub user_imu_magic : SeedField
  pub extra_entries : Option (ℕ → SeedEntry)
  pub extra_entry_count : ℕ

-- `seed_range_t`.
pub record SeedRange : Type 0 where
  pub address : ℕ
  pub data_len : ℕ

unfoldable pub validate_required_field : SeedField → ℕ → SpiResult
validate_required_field field expected_len =
    if is_null field.bytes || not (field.data_len == expected_len) then invalid_argument else ok

unfoldable pub validate_entry_boundary : SeedEntry → SpiResult
validate_entry_boundary entry =
    let span = u32 entry.data_len in
    if is_null entry.bytes || entry.data_len == 0
    then invalid_argument
    else if ltb storage_size entry.data_len
    then address_out_of_range
    else if ltb (storage_size - span) entry.address
    then address_out_of_range
    else ok

unfoldable pub ranges_overlap : SeedRange → SeedRange → Bool
ranges_overlap lhs rhs =
    let lhs_end = u32 (lhs.address + u32 lhs.data_len) in
    let rhs_end = u32 (rhs.address + u32 rhs.data_len) in
    ltb lhs.address rhs_end && ltb rhs.address lhs_end

abbrev pub range : ℕ → ℕ → SeedRange
range address data_len = record { address = address; data_len = data_len }

-- The table `fixed_ranges`.
abbrev pub fixed_ranges : List SeedRange
fixed_ranges =
    range address_device_type device_type_size
    ∷ range address_controller_colors controller_colors_size
    ∷ range address_factory_imu_calibration factory_imu_calibration_size
    ∷ range address_left_stick_calibration stick_calibration_size
    ∷ range address_right_stick_calibration stick_calibration_size
    ∷ range address_user_left_stick_magic user_magic_size
    ∷ range address_user_right_stick_magic user_magic_size
    ∷ range address_user_imu_magic user_magic_size
    ∷ []

-- The loop over the table.
unfoldable pub overlaps_fixed : SeedRange → List SeedRange → Bool
overlaps_fixed r [] = false
overlaps_fixed r (f ∷ fs) = ranges_overlap r f || overlaps_fixed r fs

abbrev pub entry_range : SeedEntry → SeedRange
entry_range entry = range entry.address entry.data_len

-- The loop over the entries before `index`.
unfoldable pub overlaps_previous : (ℕ → SeedEntry) → ℕ → SeedRange → Bool
overlaps_previous entries zero r = false
overlaps_previous entries (suc n) r =
    overlaps_previous entries n r || ranges_overlap r (entry_range (entries n))

-- The checks of one entry, in the loop's body.
unfoldable pub validate_entry : (ℕ → SeedEntry) → ℕ → SpiResult
validate_entry entries index = elim (validate_entry_boundary (entries index)) [
  | ok ↦
      if overlaps_fixed (entry_range (entries index)) fixed_ranges
      then invalid_argument
      else if overlaps_previous entries index (entry_range (entries index))
      then invalid_argument
      else ok
  | e ↦ e
]

-- The loop over `n` entries from `index` on.
unfoldable pub validate_entries : (ℕ → SeedEntry) → ℕ → ℕ → SpiResult
validate_entries entries zero index = ok
validate_entries entries (suc n) index = elim (validate_entry entries index) [
  | ok ↦ validate_entries entries n (index + 1)
  | e ↦ e
]

unfoldable pub validate_extra_entries : Option (ℕ → SeedEntry) → ℕ → SpiResult
validate_extra_entries entries zero = ok
validate_extra_entries none (suc n) = invalid_argument
validate_extra_entries (some entries) (suc n) = validate_entries entries (suc n) 0

-- `if (result != OK) return result;` between two checks.
infixl 5 ◌&>◌
abbrev pub ◌&>◌ : SpiResult → SpiResult → SpiResult
r &> next = elim r [ ok ↦ next | e ↦ e ]

unfoldable pub validate_fields : SeedProfile → SpiResult
validate_fields p =
    validate_required_field p.device_type device_type_size
    &> validate_required_field p.controller_colors controller_colors_size
    &> validate_required_field p.factory_imu_calibration factory_imu_calibration_size
    &> validate_required_field p.left_stick_calibration stick_calibration_size
    &> validate_required_field p.right_stick_calibration stick_calibration_size
    &> validate_required_field p.user_left_stick_magic user_magic_size
    &> validate_required_field p.user_right_stick_magic user_magic_size
    &> validate_required_field p.user_imu_magic user_magic_size

unfoldable pub validate_profile : Option SeedProfile → SpiResult
validate_profile none = invalid_argument
validate_profile (some p) =
    validate_fields p &> validate_extra_entries p.extra_entries p.extra_entry_count

-- A step on the store that may fail; `>>` returns early.
abbrev pub SpiStep : Type 0
SpiStep = Spi → SpiResult × Spi

abbrev pub and_then : SpiResult × Spi → SpiStep → SpiResult × Spi
and_then (ok, spi) next = next spi
and_then (e, spi) next = (e, spi)

infixl 5 ◌>>◌
abbrev pub ◌>>◌ : SpiStep → SpiStep → SpiStep
◌>>◌ step next spi = and_then (step spi) next

unfoldable pub write_entry : ℕ → Option Buffer → ℕ → SpiStep
write_entry address bytes data_len spi = Spi.write spi address bytes data_len

-- The loop that writes `n` entries from `index` on.
unfoldable pub write_entries : (ℕ → SeedEntry) → ℕ → ℕ → SpiStep
write_entries entries zero index spi = (ok, spi)
write_entries entries (suc n) index spi =
    and_then
      (write_entry (entries index).address (entries index).bytes (entries index).data_len spi)
      (write_entries entries n (index + 1))

abbrev pub no_entry : SeedEntry
no_entry = record { address = 0; bytes = none; data_len = 0 }

-- The array behind `extra_entries`; it is not read when the count is 0.
abbrev pub entries_at : Option (ℕ → SeedEntry) → ℕ → SeedEntry
entries_at none index = no_entry
entries_at (some entries) index = entries index

-- The writes of a profile that has been accepted.
unfoldable pub write_profile : SeedProfile → SpiStep
write_profile p = do
  write_entry address_device_type p.device_type.bytes p.device_type.data_len
  write_entry address_controller_colors p.controller_colors.bytes p.controller_colors.data_len
  write_entry address_factory_imu_calibration p.factory_imu_calibration.bytes
      p.factory_imu_calibration.data_len
  write_entry address_left_stick_calibration p.left_stick_calibration.bytes
      p.left_stick_calibration.data_len
  write_entry address_right_stick_calibration p.right_stick_calibration.bytes
      p.right_stick_calibration.data_len
  write_entry address_user_left_stick_magic p.user_left_stick_magic.bytes
      p.user_left_stick_magic.data_len
  write_entry address_user_right_stick_magic p.user_right_stick_magic.bytes
      p.user_right_stick_magic.data_len
  write_entry address_user_imu_magic p.user_imu_magic.bytes p.user_imu_magic.data_len
  write_entries (entries_at p.extra_entries) p.extra_entry_count 0

-- `swbt_switch_spi_seed_apply`.
unfoldable pub apply : Spi → Option SeedProfile → SpiResult × Spi
apply spi none = (validate_profile none, spi)
apply spi (some p) = elim (validate_profile (some p)) [ ok ↦ write_profile p spi | e ↦ (e, spi) ]

abbrev constant_bytes : List ℕ → SeedField
constant_bytes bytes = record { bytes = some (λ i. get_or bytes i 0); data_len = length bytes }

abbrev dev_user_magic : List ℕ
dev_user_magic = 0xB2 ∷ 0xA1 ∷ []

abbrev dev_left_stick_calibration : List ℕ
dev_left_stick_calibration = 0xB2 ∷ 0xA1 ∷ 0x20 ∷ 0x80 ∷ 0xF0 ∷ 0x7F ∷ 0x10 ∷ 0x80 ∷ 0x00 ∷ []

abbrev dev_right_stick_calibration : List ℕ
dev_right_stick_calibration = 0xB2 ∷ 0xA1 ∷ 0x30 ∷ 0x80 ∷ 0xE0 ∷ 0x7F ∷ 0x20 ∷ 0x80 ∷ 0x00 ∷ []

abbrev dev_controller_colors : List ℕ
dev_controller_colors = 0x0D ∷ 0x0D ∷ 0x0D ∷ 0xFF ∷ 0xFF ∷ 0xFF ∷ []

abbrev dev_factory_imu_calibration : List ℕ
dev_factory_imu_calibration =
    0xB0 ∷ 0xFF ∷ 0xB9 ∷ 0xFE ∷ 0xE0 ∷ 0x00 ∷ 0x00 ∷ 0x40 ∷ 0x00 ∷ 0x40 ∷ 0x00 ∷ 0x40 ∷ 0x0E ∷ 0x00
    ∷ 0xDF ∷ 0xFF ∷ 0xD0 ∷ 0xFF ∷ 0x3B ∷ 0x34 ∷ 0x3B ∷ 0x34 ∷ 0x3B ∷ 0x34 ∷ []

-- `swbt_switch_spi_seed_dev_profile`.
unfoldable pub dev_profile : SeedProfile
dev_profile = record {
  device_type = constant_bytes (device_type_pro_controller ∷ []);
  controller_colors = constant_bytes dev_controller_colors;
  factory_imu_calibration = constant_bytes dev_factory_imu_calibration;
  left_stick_calibration = constant_bytes dev_left_stick_calibration;
  right_stick_calibration = constant_bytes dev_right_stick_calibration;
  user_left_stick_magic = constant_bytes dev_user_magic;
  user_right_stick_magic = constant_bytes dev_user_magic;
  user_imu_magic = constant_bytes dev_user_magic;
  extra_entries = none;
  extra_entry_count = 0;
}
