-- ===== src/Switch/Report.antt =====
-- The standard full input report 0x30: swbt/switch/switch_report.h and switch_report.c.
-- A pointer argument is an option, `none` for NULL; `out_report` is the array behind the pointer.
pub mod Decode
use swbt_daemon.Common.{
  ℕ, zero, suc, ◌+◌, ◌*◌, ◌/◌, ◌^◌, Option, none, some, bit_and, bit_or, ltb, if◌then◌else◌, u8,
}
use swbt_daemon.Common.Buffer.{Buffer, store, fill}
use swbt_daemon.Common.Int.{ℤ, to_u16}
use swbt_daemon.Switch.State.{ControllerState}

abbrev pub standard_full : ℕ
standard_full = 0x30

abbrev pub standard_full_size : ℕ
standard_full_size = 49

-- `swbt_switch_report_result_t`.
pub data ReportResult : Type 0 where
  ok invalid_argument buffer_too_small : ReportResult

-- `swbt_switch_report_options_t`.
pub record ReportOptions : Type 0 where
  pub timer : ℕ
  pub battery_connection : ℕ
  pub vibrator_report : ℕ

unfoldable pub clamp_stick_12bit : ℕ → ℕ
clamp_stick_12bit value = if ltb 0x0FFF value then 0x0FFF else value

unfoldable pub zero_report : Buffer → Buffer
zero_report out = fill out 0 standard_full_size (λ _. 0)

-- `swbt_write_stick(&out[off], x, y)`.
unfoldable pub write_stick : Buffer → ℕ → ℕ → ℕ → Buffer
write_stick out off x y =
    let clamped_x = clamp_stick_12bit x in
    let clamped_y = clamp_stick_12bit y in
    let out0 = store out (off + 0) (u8 (bit_and clamped_x 0xFF)) in
    let out1 =
      store out0 (off + 1)
        (u8 (bit_or (bit_and (clamped_x / 2 ^ 8) 0x0F) (bit_and clamped_y 0x0F * 2 ^ 4))) in
    store out1 (off + 2) (u8 (bit_and (clamped_y / 2 ^ 4) 0xFF))

unfoldable pub write_i16_le : Buffer → ℕ → ℤ → Buffer
write_i16_le out off value =
    let raw = to_u16 value in
    store (store out (off + 0) (u8 (bit_and raw 0xFF))) (off + 1) (u8 (bit_and (raw / 2 ^ 8) 0xFF))

unfoldable pub write_imu_frame : Buffer → ℕ → ControllerState → Buffer
write_imu_frame out off s =
    let out0 = write_i16_le out (off + 0) s.accel_x in
    let out2 = write_i16_le out0 (off + 2) s.accel_y in
    let out4 = write_i16_le out2 (off + 4) s.accel_z in
    let out6 = write_i16_le out4 (off + 6) s.gyro_x in
    let out8 = write_i16_le out6 (off + 8) s.gyro_y in write_i16_le out8 (off + 10) s.gyro_z

-- The loop over the first `n` frames.
unfoldable pub write_imu_frames : ℕ → Buffer → ControllerState → Buffer
write_imu_frames zero out s = out
write_imu_frames (suc n) out s = write_imu_frame (write_imu_frames n out s) (13 + n * 12) s

-- What is written once the guards are passed.
unfoldable pub write_report : ControllerState → ReportOptions → Buffer → Buffer
unfolding zero_report write_stick clamp_stick_12bit write_i16_le write_imu_frame write_imu_frames
write_report s options out =
    let out0 = store (zero_report out) 0 standard_full in
    let out1 = store out0 1 options.timer in
    let out2 = store out1 2 options.battery_connection in
    let out3 = store out2 3 (u8 (bit_and s.buttons 0xFF)) in
    let out4 = store out3 4 (u8 (bit_and (s.buttons / 2 ^ 8) 0xFF)) in
    let out5 = store out4 5 (u8 (bit_and (s.buttons / 2 ^ 16) 0xFF)) in
    let out6 = write_stick out5 6 s.lx s.ly in
    let out9 = write_stick out6 9 s.rx s.ry in
    let out12 = store out9 12 options.vibrator_report in write_imu_frames 3 out12 s

-- The outcome: the result, the array and `*out_written`.
pub record Built (R : Type 0) : Type 0 where
  pub result : R
  pub out : Option Buffer
  pub written : ℕ

-- `swbt_switch_build_standard_full_report`.
unfoldable pub build_standard_full_report :
    Option ControllerState → Option ReportOptions → Option Buffer → ℕ → Built ReportResult
build_standard_full_report none options out size = record {
  result = invalid_argument;
  out = out;
  written = 0;
}
build_standard_full_report (some s) none out size = record {
  result = invalid_argument;
  out = out;
  written = 0;
}
build_standard_full_report (some s) (some options) none size = record {
  result = invalid_argument;
  out = none;
  written = 0;
}
build_standard_full_report (some s) (some options) (some out) size =
    if ltb size standard_full_size
    then record { result = buffer_too_small; out = some out; written = standard_full_size }
    else record {
      result = ok;
      out = some (write_report s options out);
      written = standard_full_size;
    }
