-- ===== src/Ipc/Decode/States.antt =====
-- The controller states that are decoded: swbt/ipc/ipc_json.c.
use swbt_daemon.Common.{
  ℕ, zero, suc, ◌-◌, ◌^◌, ◌≤◌, ◌<◌, ◌≡◌, refl, Bool, true, false, Option, none, some, bit_and, ◌==◌,
  arith, if◌then◌else◌, if_both,
}
use swbt_daemon.Common.Int.{ℤ, pos, negsuc, IsInt16}
use swbt_daemon.Common.Text.{
  Bytes, text, peek, strtoll_10, signed_64, signed_number, read_number, read_sign, skip_ws,
}
use swbt_daemon.Switch.State.{ControllerState, neutral}
use swbt_daemon.Ipc.Keys.{
  whole_value, Field, missing, invalid, found, read_i64, get_i64, find_key_value, ends_value,
}
use swbt_daemon.Ipc.Fields.{
  ◌>>=◌, defined_button_mask, stick_max, i16_of, stick_of, buttons_of, parse_required_i64,
  parse_i16_field, parse_stick_field, sequence_of, parse_sequence, parse_controls, parse_state,
}

-- What an optional result satisfies where there is one.
pub data Holds {A : Type 0} (P : A → Type 0) : Option A → Type 0 where
  nothing : Holds P none
  just : (a : A) → P a → Holds P (some a)

bind-Holds :
    {A B : Type 0} {P : A → Type 0} {Q : B → Type 0} {next : A → Option B} (o : Option A)
    → Holds P o
    → ((a : A) → P a → Holds Q (next a))
    → Holds Q (o >>= next)
unfolding ◌>>=◌
bind-Holds _ nothing k = nothing
bind-Holds _ (just a h) k = k a h

-- The same, by computation.
abbrev pub Has : {A : Type 0} → (A → Type 0) → Option A → Type 0
Has P none = Unit
Has P (some a) = P a

of_Has : {A : Type 0} {P : A → Type 0} (o : Option A) → Has P o → Holds P o
of_Has none h = nothing
of_Has (some a) h = just a h

-- Only buttons that exist, stick positions of 12 bits and inertial values of 16.
pub record IsDecodable (s : ControllerState) : Type 0 where
  pub buttons_u32 : s.buttons < 2 ^ 32
  pub buttons_exist : bit_and s.buttons (2 ^ 32 - 1 - defined_button_mask) ≡ 0
  pub lx_stick : s.lx ≤ stick_max
  pub ly_stick : s.ly ≤ stick_max
  pub rx_stick : s.rx ≤ stick_max
  pub ry_stick : s.ry ≤ stick_max
  pub accel_x_i16 : IsInt16 s.accel_x
  pub accel_y_i16 : IsInt16 s.accel_y
  pub accel_z_i16 : IsInt16 s.accel_z
  pub gyro_x_i16 : IsInt16 s.gyro_x
  pub gyro_y_i16 : IsInt16 s.gyro_y
  pub gyro_z_i16 : IsInt16 s.gyro_z

pub neutral-IsDecodable : IsDecodable neutral
unfolding neutral defined_button_mask
neutral-IsDecodable = record {
  buttons_u32 = omega arith;
  buttons_exist = refl;
  lx_stick = omega arith;
  ly_stick = omega arith;
  rx_stick = omega arith;
  ry_stick = omega arith;
  accel_x_i16 = omega arith;
  accel_y_i16 = omega arith;
  accel_z_i16 = omega arith;
  gyro_x_i16 = omega arith;
  gyro_y_i16 = omega arith;
  gyro_z_i16 = omega arith;
}

i16_of-Has : (z : ℤ) → Has IsInt16 (i16_of z)
i16_of-Has (pos n) = ground arith
i16_of-Has (negsuc n) = ground arith

stick_of-Has : (z : ℤ) → Has (λ n. n ≤ stick_max) (stick_of z)
stick_of-Has (pos n) = ground arith
stick_of-Has (negsuc n) = tt

abbrev AreButtons : ℕ → Type 0
AreButtons n = (n < 2 ^ 32) × (bit_and n (2 ^ 32 - 1 - defined_button_mask) ≡ 0)

buttons_of-Has : (z : ℤ) → Has AreButtons (buttons_of z)
buttons_of-Has (pos n) = ground arith
buttons_of-Has (negsuc n) = tt

any-Holds : {A : Type 0} (o : Option A) → Holds (λ a. Unit) o
any-Holds none = nothing
any-Holds (some a) = just a tt

i16_field-Holds : (line key : Bytes) → Holds IsInt16 (parse_i16_field line key)
unfolding parse_i16_field
i16_field-Holds line key =
    bind-Holds (parse_required_i64 line key) (any-Holds _) (λ z h. of_Has (i16_of z) (i16_of-Has z))

stick_field-Holds : (line key : Bytes) → Holds (λ n. n ≤ stick_max) (parse_stick_field line key)
unfolding parse_stick_field
stick_field-Holds line key =
    bind-Holds (parse_required_i64 line key) (any-Holds _)
      (λ z h. of_Has (stick_of z) (stick_of-Has z))

controls-Holds : (json : Bytes) → Holds IsDecodable (parse_controls json)
unfolding parse_controls
controls-Holds json = bind-Holds (parse_required_i64 json (text "buttons")) (any-Holds _) λ z _.
    bind-Holds (buttons_of z) (of_Has (buttons_of z) (buttons_of-Has z)) λ buttons hb.
      bind-Holds (parse_stick_field json (text "lx")) (stick_field-Holds json _) λ lx h1.
        bind-Holds (parse_stick_field json (text "ly")) (stick_field-Holds json _) λ ly h2.
          bind-Holds (parse_stick_field json (text "rx")) (stick_field-Holds json _) λ rx h3.
            bind-Holds (parse_stick_field json (text "ry")) (stick_field-Holds json _) λ ry h4.
              bind-Holds (parse_i16_field json (text "accel_x")) (i16_field-Holds json _) λ ax h5.
                bind-Holds (parse_i16_field json (text "accel_y")) (i16_field-Holds json _) λ ay h6.
                  bind-Holds (parse_i16_field json (text "accel_z")) (i16_field-Holds json _)
                    λ az h7.
                      bind-Holds (parse_i16_field json (text "gyro_x")) (i16_field-Holds json _)
                        λ gx h8.
                          bind-Holds (parse_i16_field json (text "gyro_y")) (i16_field-Holds json _)
                            λ gy h9.
                              bind-Holds (parse_i16_field json (text "gyro_z"))
                                (i16_field-Holds json _)
                                λ gz h10. just _ (record {
                                  buttons_u32 = hb.0;
                                  buttons_exist = hb.1;
                                  lx_stick = h1;
                                  ly_stick = h2;
                                  rx_stick = h3;
                                  ry_stick = h4;
                                  accel_x_i16 = h5;
                                  accel_y_i16 = h6;
                                  accel_z_i16 = h7;
                                  gyro_x_i16 = h8;
                                  gyro_y_i16 = h9;
                                  gyro_z_i16 = h10;
                                })

-- An integer of 64 bits.
abbrev IsInt64 : ℤ → Type 0
IsInt64 (pos n) = n < 2 ^ 63
IsInt64 (negsuc n) = n < 2 ^ 63

signed_64-Has : (negative : Bool) (n : ℕ) → Has IsInt64 (signed_64 negative n)
signed_64-Has true zero = omega arith
signed_64-Has true (suc n) = ground arith
signed_64-Has false n = ground arith

-- What a field satisfies where its value is found.
abbrev IsFoundInt64 : Field ℤ → Type 0
IsFoundInt64 missing = Unit
IsFoundInt64 invalid = Unit
IsFoundInt64 (found z) = IsInt64 z

get_i64-IsFoundInt64 : (json key : Bytes) → IsFoundInt64 (get_i64 json key)
unfolding get_i64 read_i64 strtoll_10
get_i64-IsFoundInt64 json key = by_value (find_key_value json key)
  where
    by_sign :
        (negative : Bool) (end : Bytes) (o : Option ℤ)
        → Has IsInt64 o
        → IsFoundInt64 (whole_value (elim o [ none ↦ none | some z ↦ some (z, end) ]))
    by_sign negative end none h = tt
    by_sign negative end (some z) h = if_both IsFoundInt64 (ends_value end) h tt

    by_number :
        (negative : Bool) (o : Option (ℕ × Bytes))
        → IsFoundInt64 (whole_value (signed_number negative o))
    by_number negative none = tt
    by_number negative (some (n, end)) =
        by_sign negative end (signed_64 negative n) (signed_64-Has negative n)

    by_value : (o : Option Bytes) → IsFoundInt64 (read_i64 o)
    by_value none = tt
    by_value (some value) =
        by_number (read_sign (skip_ws value)).0 (read_number 10 (read_sign (skip_ws value)).1)

sequence-Has : (f : Field ℤ) → IsFoundInt64 f → Has (λ n. n < 2 ^ 63) (sequence_of f)
sequence-Has missing h = omega arith
sequence-Has invalid h = tt
sequence-Has (found (pos n)) h = h
sequence-Has (found (negsuc n)) h = tt

abbrev pub IsUpdate : ControllerState × ℕ → Type 0
IsUpdate (state, sequence) = IsDecodable state × (sequence < 2 ^ 63)

pub state-Holds : (line : Bytes) → Holds IsUpdate (parse_state line)
unfolding parse_state parse_sequence
state-Holds line = bind-Holds (find_key_value line (text "state")) (any-Holds _) λ json _.
    bind-Holds (if peek json == b'{' then some json else none) (any-Holds _) λ object _.
      bind-Holds (parse_controls object) (controls-Holds object) λ state h.
        bind-Holds (parse_sequence line)
          (of_Has (parse_sequence line)
            (sequence-Has (get_i64 line (text "seq")) (get_i64-IsFoundInt64 line _)))
          λ sequence h'. just (state, sequence) (h, h')
