-- ===== src/Switch/State.antt =====
-- The controller state: swbt/switch/switch_controller_state.h and switch_controller_state.c.
use swbt_daemon.Common.{ℕ, ◌^◌, ◌<◌}
use swbt_daemon.Common.Int.{ℤ, pos, IsInt16}

-- The button flags.
pub data Button : Type 0 where
  y x b a sr_r sl_r r zr minus plus r_stick l_stick home capture : Button
  down up right left sr_l sl_l l zl : Button

-- The bit of each flag.
unfoldable pub flag : Button → ℕ
flag y = 2 ^ 0
flag x = 2 ^ 1
flag b = 2 ^ 2
flag a = 2 ^ 3
flag sr_r = 2 ^ 4
flag sl_r = 2 ^ 5
flag r = 2 ^ 6
flag zr = 2 ^ 7
flag minus = 2 ^ 8
flag plus = 2 ^ 9
flag r_stick = 2 ^ 10
flag l_stick = 2 ^ 11
flag home = 2 ^ 12
flag capture = 2 ^ 13
flag down = 2 ^ 16
flag up = 2 ^ 17
flag right = 2 ^ 18
flag left = 2 ^ 19
flag sr_l = 2 ^ 20
flag sl_l = 2 ^ 21
flag l = 2 ^ 22
flag zl = 2 ^ 23

-- `swbt_state_t`; the inertial values are `int16_t`.
pub record ControllerState : Type 0 where
  pub buttons : ℕ
  pub lx : ℕ
  pub ly : ℕ
  pub rx : ℕ
  pub ry : ℕ
  pub accel_x : ℤ
  pub accel_y : ℤ
  pub accel_z : ℤ
  pub gyro_x : ℤ
  pub gyro_y : ℤ
  pub gyro_z : ℤ

-- `swbt_state_neutral`.
unfoldable pub neutral : ControllerState
neutral = record {
  buttons = 0;
  lx = 2048;
  ly = 2048;
  rx = 2048;
  ry = 2048;
  accel_x = pos 0;
  accel_y = pos 0;
  accel_z = pos 0;
  gyro_x = pos 0;
  gyro_y = pos 0;
  gyro_z = pos 0;
}

-- What the C types guarantee of a state.
pub record InRange (s : ControllerState) : Type 0 where
  pub buttons_u32 : s.buttons < 2 ^ 32
  pub lx_u16 : s.lx < 2 ^ 16
  pub ly_u16 : s.ly < 2 ^ 16
  pub rx_u16 : s.rx < 2 ^ 16
  pub ry_u16 : s.ry < 2 ^ 16
  pub accel_x_i16 : IsInt16 s.accel_x
  pub accel_y_i16 : IsInt16 s.accel_y
  pub accel_z_i16 : IsInt16 s.accel_z
  pub gyro_x_i16 : IsInt16 s.gyro_x
  pub gyro_y_i16 : IsInt16 s.gyro_y
  pub gyro_z_i16 : IsInt16 s.gyro_z
