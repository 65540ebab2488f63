-- ===== src/Switch/Report/Decode.antt =====
-- What a reader of report 0x30 finds in it: an independent reading of the layout, and that
-- `build_standard_full_report` writes what it reads.
use mathlib.Core.Logic.{◌⊎◌}
use swbt_daemon.Common.{
  ℕ, zero, suc, ◌+◌, ◌*◌, ◌/◌, ◌%◌, ◌^◌, ◌≤◌, ◌<◌, ◌≡◌, refl, Option, none, some, bit_and, bit_or,
  arith, ltb, if◌then◌else◌, not, ◌&&◌, true, ◌↔◌, is_null,
}
use swbt_daemon.Common.Bits.{bit_and_ff, bit_and_0f, bit_or_disjoint}
use swbt_daemon.Common.Buffer.{Buffer, fill_outside}
use swbt_daemon.Common.Int.{ℤ, to_u16, of_u16, of_u16-to_u16, to_u16-lt, IsInt16}
use swbt_daemon.Switch.State.{ControllerState, InRange}
use swbt_daemon.Switch.Report.{
  ReportOptions, ok, standard_full_size, write_report, build_standard_full_report,
}

-- A stick holds two 12-bit values in three bytes.
abbrev pub stick_x : Buffer → ℕ → ℕ
stick_x out off = out off + out (off + 1) % 16 * 256

abbrev pub stick_y : Buffer → ℕ → ℕ
stick_y out off = out (off + 1) / 16 + out (off + 2) * 16

abbrev pub i16_le : Buffer → ℕ → ℤ
i16_le out off = of_u16 (out off + out (off + 1) * 256)

-- A reader's view of the report, with frame `k` of the three inertial ones.
abbrev pub decode_state : Buffer → ℕ → ControllerState
decode_state out k = record {
  buttons = out 3 + out 4 * 2 ^ 8 + out 5 * 2 ^ 16;
  lx = stick_x out 6;
  ly = stick_y out 6;
  rx = stick_x out 9;
  ry = stick_y out 9;
  accel_x = i16_le out (13 + k * 12);
  accel_y = i16_le out (15 + k * 12);
  accel_z = i16_le out (17 + k * 12);
  gyro_x = i16_le out (19 + k * 12);
  gyro_y = i16_le out (21 + k * 12);
  gyro_z = i16_le out (23 + k * 12);
}

abbrev pub saturate : ℕ → ℕ
saturate v = if ltb 4095 v then 4095 else v

-- What the format can carry of a state: 24 buttons and sticks of 12 bits.
abbrev pub carried : ControllerState → ControllerState
carried s = record s {
  buttons = s.buttons % 2 ^ 24;
  lx = saturate s.lx;
  ly = saturate s.ly;
  rx = saturate s.rx;
  ry = saturate s.ry;
}

-- The three bytes of a stick, as arithmetic.
stick_bytes :
    (x y : ℕ)
    → (bit_and x 0xFF % 2 ^ 8 ≡ x % 256)
      × (bit_or (bit_and (x / 2 ^ 8) 0x0F) (bit_and y 0x0F * 2 ^ 4) % 2 ^ 8
          ≡ x / 256 % 16 + y % 16 * 16)
      × (bit_and (y / 2 ^ 4) 0xFF % 2 ^ 8 ≡ y / 16 % 256)
stick_bytes x y = (
  omega (arith, bit_and_ff x),
  rw (bit_and_0f (x / 2 ^ 8), bit_and_0f y)
      (omega (arith, bit_or_disjoint 4 (x / 2 ^ 8 % 2 ^ 4) (y % 2 ^ 4) (omega arith))),
  omega (arith, bit_and_ff (y / 2 ^ 4)),
)

abbrev low : ℕ → ℕ → ℕ
low x y =
    bit_and x 0xFF % 2 ^ 8
    + bit_or (bit_and (x / 2 ^ 8) 0x0F) (bit_and y 0x0F * 2 ^ 4) % 2 ^ 8 % 16 * 256

abbrev high : ℕ → ℕ → ℕ
high x y =
    bit_or (bit_and (x / 2 ^ 8) 0x0F) (bit_and y 0x0F * 2 ^ 4) % 2 ^ 8 / 16
    + bit_and (y / 2 ^ 4) 0xFF % 2 ^ 8 * 16

abbrev word : ℤ → ℤ
word z = of_u16 (bit_and (to_u16 z) 0xFF % 2 ^ 8 + bit_and (to_u16 z / 2 ^ 8) 0xFF % 2 ^ 8 * 256)

-- A stick comes back saturated at 12 bits.
stick_fields :
    (x y : ℕ)
    → (low (saturate x) (saturate y) ≡ saturate x) × (high (saturate x) (saturate y) ≡ saturate y)
stick_fields x y = ground (arith, stick_bytes (saturate x) (saturate y))

-- An inertial value comes back with its sign.
i16_bytes : (z : ℤ) → IsInt16 z → word z ≡ z
i16_bytes z h =
    let whole : bit_and (to_u16 z) 0xFF % 2 ^ 8 + bit_and (to_u16 z / 2 ^ 8) 0xFF % 2 ^ 8 * 256
        ≡ to_u16 z =
      omega (arith, bit_and_ff (to_u16 z), bit_and_ff (to_u16 z / 2 ^ 8), to_u16-lt z) in
    rw whole (of_u16-to_u16 z h)

button_bytes :
    (b : ℕ)
    → bit_and b 0xFF % 2 ^ 8
        + bit_and (b / 2 ^ 8) 0xFF % 2 ^ 8 * 2 ^ 8
        + bit_and (b / 2 ^ 16) 0xFF % 2 ^ 8 * 2 ^ 16
      ≡ b % 2 ^ 24
button_bytes b = omega (arith, bit_and_ff b, bit_and_ff (b / 2 ^ 8), bit_and_ff (b / 2 ^ 16))

-- The fields as the bytes of the report give them.
abbrev raw : ControllerState → ControllerState
raw s = record {
  buttons =
      bit_and s.buttons 0xFF % 2 ^ 8
      + bit_and (s.buttons / 2 ^ 8) 0xFF % 2 ^ 8 * 2 ^ 8
      + bit_and (s.buttons / 2 ^ 16) 0xFF % 2 ^ 8 * 2 ^ 16;
  lx = low (saturate s.lx) (saturate s.ly);
  ly = high (saturate s.lx) (saturate s.ly);
  rx = low (saturate s.rx) (saturate s.ry);
  ry = high (saturate s.rx) (saturate s.ry);
  accel_x = word s.accel_x;
  accel_y = word s.accel_y;
  accel_z = word s.accel_z;
  gyro_x = word s.gyro_x;
  gyro_y = word s.gyro_y;
  gyro_z = word s.gyro_z;
}

raw-eq-carried : {s : ControllerState} → InRange s → raw s ≡ carried s
raw-eq-carried {s} r = λ i. record {
  buttons = button_bytes s.buttons i;
  lx = (stick_fields s.lx s.ly).0 i;
  ly = (stick_fields s.lx s.ly).1 i;
  rx = (stick_fields s.rx s.ry).0 i;
  ry = (stick_fields s.rx s.ry).1 i;
  accel_x = i16_bytes s.accel_x r.accel_x_i16 i;
  accel_y = i16_bytes s.accel_y r.accel_y_i16 i;
  accel_z = i16_bytes s.accel_z r.accel_z_i16 i;
  gyro_x = i16_bytes s.gyro_x r.gyro_x_i16 i;
  gyro_y = i16_bytes s.gyro_y r.gyro_y_i16 i;
  gyro_z = i16_bytes s.gyro_z r.gyro_z_i16 i;
}

-- Each of the three frames reads back the same state.
decode_state-write_report :
    {s : ControllerState} (o : ReportOptions) (out : Buffer) (k : ℕ)
    → InRange s
    → k < 3
    → decode_state (write_report s o out) k ≡ carried s
unfolding write_report
decode_state-write_report o out zero r h = raw-eq-carried r
decode_state-write_report o out (suc zero) r h = raw-eq-carried r
decode_state-write_report o out (suc (suc zero)) r h = raw-eq-carried r
decode_state-write_report o out (suc (suc (suc k))) r h = absurd (omega arith)

-- Nothing is written past the report's 49 bytes.
write_report_outside :
    (s : ControllerState) (o : ReportOptions) (out : Buffer) (j : ℕ)
    → 49 ≤ j
    → write_report s o out j ≡ out j
unfolding write_report
write_report_outside s o out j h = ground (arith, fill_outside out 0 49 (λ _. 0) j)

-- Into an array of at least 49 bytes the report is built: the result is OK and 49 bytes are
-- written; a reader finds the id, the options and, in each of the three inertial frames, the state
-- that the format can carry (the low 24 button bits, sticks saturated at 4095, signed inertial
-- values unchanged); bytes past the 49 keep their value.
pub build-decode :
    {s : ControllerState} (o : ReportOptions) (out : Buffer) (size k j : ℕ)
    → InRange s
    → standard_full_size ≤ size
    → k < 3
    → 49 ≤ j
    → let b = build_standard_full_report (some s) (some o) (some out) size in
      (report : Buffer) × (b
        ≡ record { result = ok; out = some report; written = standard_full_size })
      × (report 0 ≡ 0x30)
      × (record { timer = report 1; battery_connection = report 2; vibrator_report = report 12 }
          ≡ o)
      × (decode_state report k ≡ carried s)
      × (report j ≡ out j)
unfolding build_standard_full_report
build-decode {s} o out size k j r h kh jh = (
  write_report s o out,
  ground arith,
  unfold write_report in refl,
  unfold write_report in refl,
  decode_state-write_report o out k r kh,
  write_report_outside s o out j jh,
)

-- The report is built exactly when no pointer is NULL and the array has 49 bytes; else the array
-- is unchanged, and `*out_written` is 49 when only its size was wrong, 0 otherwise.
pub build_outcome :
    (s : Option ControllerState) (o : Option ReportOptions) (out : Option Buffer) (size : ℕ)
    → let b = build_standard_full_report s o out size in
      let pointers = not (is_null s) && not (is_null o) && not (is_null out) in
      ((b.result ≡ ok) ↔ ((pointers ≡ true) × (49 ≤ size)))
      × ((b.result ≡ ok) ⊎ (b.out ≡ out))
      × (b.written ≡ (if pointers then 49 else 0))
unfolding build_standard_full_report
build_outcome none o out size = ground arith
build_outcome (some s) none out size = ground arith
build_outcome (some s) (some o) none size = ground arith
build_outcome (some s) (some o) (some out) size = ground arith
