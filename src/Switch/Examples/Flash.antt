-- ===== src/Switch/Examples/Flash.antt =====
-- The flash and seed theorems at concrete inputs.
use swbt_daemon.Common.{ℕ, ◌+◌, ◌≡◌, refl, ◌∙◌, some, arith}
use swbt_daemon.Common.Buffer.{Buffer}
use swbt_daemon.Switch.Spi.{ok, write, read, ReadRequest}
use swbt_daemon.Switch.Spi.Laws.{read-write}
use swbt_daemon.Switch.SpiSeed.{
  SeedProfile, SeedEntry, SeedField, apply, validate_profile, dev_profile,
}
use swbt_daemon.Switch.SpiSeed
use swbt_daemon.Switch.SpiSeed.Apply.{apply-all_or_nothing, apply-stores}
use swbt_daemon.Switch.Examples.{zeros, dirty, erased}

abbrev request : ReadRequest
request = record { address = 0xFFFF; size = 2 }

read-write_example :
    let (_, spi') = write erased 0x8000 (some dirty) 6 in
    (out' : Buffer) × (read (some spi') (record { address = 0x8002; size = 3 }) (some zeros) 4
      ≡ record { result = ok; out = some out'; written = 3 })
    × (out' 1 ≡ 0xAB)
read-write_example =
    read-write erased 0x8000 6 dirty zeros (record { address = 0x8002; size = 3 }) 4 1 (omega arith)
      (omega arith) (omega arith) (omega arith) (omega arith) (omega arith)

-- A field of a size, with the bytes 0xAB.
abbrev field : ℕ → SeedField
field n = record { bytes = some dirty; data_len = n }

abbrev extra : ℕ → SeedEntry
extra i = record { address = 0x7000 + 8 + i; bytes = some zeros; data_len = 1 }

-- A profile with two extra entries side by side.
abbrev profile : SeedProfile
profile = record {
  device_type = field 1;
  controller_colors = field 6;
  factory_imu_calibration = field 24;
  left_stick_calibration = field 9;
  right_stick_calibration = field 9;
  user_left_stick_magic = field 2;
  user_right_stick_magic = field 2;
  user_imu_magic = field 2;
  extra_entries = some extra;
  extra_entry_count = 2;
}

profile-ok : validate_profile (some profile) ≡ ok
unfolding validate_profile SpiSeed.validate_fields SpiSeed.validate_required_field
    SpiSeed.validate_extra_entries SpiSeed.validate_entries SpiSeed.validate_entry
    SpiSeed.validate_entry_boundary SpiSeed.overlaps_fixed SpiSeed.overlaps_previous
    SpiSeed.ranges_overlap
profile-ok = refl

profile-applied : (apply erased (some profile)).0 ≡ ok
profile-applied = (apply-all_or_nothing erased profile).0 ∙ profile-ok

-- The second extra entry.
apply-stores_example : (apply erased (some profile)).1.bytes 0x7009 ≡ 0
apply-stores_example = apply-stores erased profile 9 0 profile-applied (omega arith) (omega arith)
