-- ===== src/Switch/Spi.antt =====
-- The emulated SPI flash: swbt/switch/switch_spi.h and switch_spi.c. A store that is updated in
-- place is a value: the guards against a NULL store, which no caller passes, are left out of
-- `init` and `write`. The array has 0x10000 bytes; no operation touches an index past them.
pub mod Laws
use swbt_daemon.Common.{ℕ, ◌+◌, ◌-◌, ◌^◌, Option, none, some, ltb, if◌then◌else◌, u32}
use swbt_daemon.Common.Buffer.{Buffer, fill}

abbrev pub address_limit : ℕ
address_limit = 0x80000

abbrev pub storage_size : ℕ
storage_size = 0x10000

abbrev pub max_read_size : ℕ
max_read_size = 0x1D

abbrev pub erased_byte : ℕ
erased_byte = 0xFF

-- The addresses that the seed writes.
abbrev pub address_device_type : ℕ
address_device_type = 0x6012

abbrev pub address_factory_imu_calibration : ℕ
address_factory_imu_calibration = 0x6020

abbrev pub address_left_stick_calibration : ℕ
address_left_stick_calibration = 0x603D

abbrev pub address_right_stick_calibration : ℕ
address_right_stick_calibration = 0x6046

abbrev pub address_controller_colors : ℕ
address_controller_colors = 0x6050

abbrev pub address_user_left_stick_magic : ℕ
address_user_left_stick_magic = 0x8010

abbrev pub address_user_right_stick_magic : ℕ
address_user_right_stick_magic = 0x801B

abbrev pub address_user_imu_magic : ℕ
address_user_imu_magic = 0x8026

abbrev pub device_type_pro_controller : ℕ
device_type_pro_controller = 0x03

-- `swbt_switch_spi_result_t`.
pub data SpiResult : Type 0 where
  ok invalid_argument address_out_of_range read_too_large buffer_too_small : SpiResult

-- `swbt_switch_spi_t`.
pub record Spi : Type 0 where
  pub bytes : Buffer
  pub default_value : ℕ

-- `swbt_switch_spi_read_request_t`.
pub record ReadRequest : Type 0 where
  pub address : ℕ
  pub size : ℕ

-- `swbt_switch_spi_init`.
unfoldable pub init : Spi → Spi
init spi = record {
  bytes = fill spi.bytes 0 storage_size (λ _. erased_byte);
  default_value = erased_byte;
}

-- `swbt_switch_spi_write`.
unfoldable pub write : Spi → ℕ → Option Buffer → ℕ → SpiResult × Spi
write spi address none len = (invalid_argument, spi)
write spi address (some bytes) len =
    let span = u32 len in
    if ltb storage_size len
    then (address_out_of_range, spi)
    else if ltb (storage_size - span) address
    then (address_out_of_range, spi)
    else (ok, record spi { bytes = fill spi.bytes address len bytes })

-- The byte at an absolute address, the default past the storage.
unfoldable pub read_byte : Spi → ℕ → ℕ
read_byte spi absolute_address =
    if ltb absolute_address storage_size then spi.bytes absolute_address else spi.default_value

-- What a read leaves: the result, `out` and `*out_written`.
pub record ReadOutcome : Type 0 where
  pub result : SpiResult
  pub out : Option Buffer
  pub written : ℕ

-- `swbt_switch_spi_read`.
unfoldable pub read : Option Spi → ReadRequest → Option Buffer → ℕ → ReadOutcome
unfolding read_byte
read none request out capacity = record { result = invalid_argument; out = out; written = 0 }
read (some spi) request none capacity = record {
  result = invalid_argument;
  out = none;
  written = 0;
}
read (some spi) request (some out) capacity =
    let span = request.size in
    if ltb max_read_size request.size
    then record { result = read_too_large; out = some out; written = 0 }
    else if ltb (address_limit - span) request.address
    then record { result = address_out_of_range; out = some out; written = 0 }
    else if ltb capacity request.size
    then record { result = buffer_too_small; out = some out; written = request.size }
    else record {
      result = ok;
      out =
          some
            (fill out 0 request.size (λ index. read_byte spi (u32 (request.address + u32 index))));
      written = request.size;
    }
