-- ===== src/Switch/PlayerLights.antt =====
-- The player lights: swbt/switch/switch_player_lights.h and switch_player_lights.c. The state is
-- updated in place and is a value; the guards against a NULL state, which no caller passes, are
-- left out of `init` and `apply_set`.
pub mod Masks
use swbt_daemon.Common.{
  ℕ, ◌+◌, ◌-◌, ◌/◌, ◌^◌, Bool, true, false, Option, none, some, bit_and, ltb, if◌then◌else◌, u8,
}
use swbt_daemon.Common.Buffer.{Buffer, store}

abbrev pub mask : ℕ
mask = 0x0F

abbrev pub reply_data_size : ℕ
reply_data_size = 1

-- `swbt_switch_player_lights_result_t`.
pub data LightsResult : Type 0 where
  ok invalid_argument buffer_too_small : LightsResult

-- `swbt_switch_player_lights_state_t`.
pub record PlayerLights : Type 0 where
  pub raw : ℕ
  pub on_mask : ℕ
  pub flash_mask : ℕ
  pub effective_flash_mask : ℕ
  pub updated : Bool

-- `~on_mask` cast to a byte is `0xFF - on_mask`.
unfoldable pub apply_raw : ℕ → PlayerLights
apply_raw raw =
    let on_mask = bit_and raw mask in
    let flash_mask = bit_and (raw / 2 ^ 4) mask in
    record {
      raw = raw;
      on_mask = on_mask;
      flash_mask = flash_mask;
      effective_flash_mask = bit_and (bit_and flash_mask (0xFF - on_mask)) mask;
      updated = true;
    }

-- `swbt_switch_player_lights_init`.
unfoldable pub init : PlayerLights
init = record { raw = 0; on_mask = 0; flash_mask = 0; effective_flash_mask = 0; updated = false }

-- `swbt_switch_player_lights_apply_set`.
unfoldable pub apply_set : PlayerLights → Option Buffer → ℕ → LightsResult × PlayerLights
unfolding apply_raw
apply_set lights none len = (invalid_argument, lights)
apply_set lights (some payload) len =
    if ltb len reply_data_size then (invalid_argument, lights) else (ok, apply_raw (payload 0))

-- `swbt_switch_player_lights_get_reply_data`: the result, `out_data` and `*out_written`.
unfoldable pub get_reply_data :
    Option PlayerLights → Option Buffer → ℕ → LightsResult × Option Buffer × ℕ
get_reply_data none out size = (invalid_argument, out, 0)
get_reply_data (some lights) none size = (invalid_argument, none, 0)
get_reply_data (some lights) (some out) size =
    if ltb size reply_data_size
    then (buffer_too_small, some out, 0)
    else (ok, some (store out 0 lights.raw), reply_data_size)
