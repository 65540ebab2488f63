-- ===== src/Switch/Rumble.antt =====
-- The rumble state: swbt/switch/switch_rumble.h and switch_rumble.c. `raw` is an array of 8 bytes.
-- The state is updated in place and is a value; the guards against a NULL state, which no caller
-- passes, are left out of `init` and `update`.
pub mod Neutral
use swbt_daemon.Common.{
  ℕ, zero, suc, Bool, true, false, ◌&&◌, Option, none, some, ◌==◌, List, [], ◌∷◌, get_or,
}
use swbt_daemon.Common.Buffer.{Buffer, fill}

abbrev pub data_size : ℕ
data_size = 8

-- `SWBT_SWITCH_RUMBLE_NEUTRAL_PAYLOAD`.
unfoldable pub neutral_payload : Buffer
neutral_payload i = get_or (0x00 ∷ 0x01 ∷ 0x40 ∷ 0x40 ∷ 0x00 ∷ 0x01 ∷ 0x40 ∷ 0x40 ∷ []) i 0

-- `swbt_switch_rumble_result_t`.
pub data RumbleResult : Type 0 where
  ok invalid_argument : RumbleResult

-- `swbt_switch_rumble_state_t`.
pub record Rumble : Type 0 where
  pub raw : Buffer
  pub updated_at_ms : ℕ
  pub updated : Bool

unfoldable pub copy : Buffer → Buffer → Buffer
copy out payload = fill out 0 data_size payload

-- `swbt_switch_rumble_init`.
unfoldable pub init : Rumble → Rumble
unfolding copy
init r = record { raw = copy r.raw neutral_payload; updated_at_ms = 0; updated = false }

-- `swbt_switch_rumble_update`.
unfoldable pub update : Rumble → Option Buffer → ℕ → RumbleResult × Rumble
unfolding copy
update r none at = (invalid_argument, r)
update r (some payload) at =
    (ok, record { raw = copy r.raw payload; updated_at_ms = at; updated = true })

-- The comparison of the first `n` bytes.
unfoldable pub same_as_neutral : ℕ → Buffer → Bool
same_as_neutral zero payload = true
same_as_neutral (suc n) payload = same_as_neutral n payload && payload n == neutral_payload n

-- `swbt_switch_rumble_payload_is_neutral`.
unfoldable pub payload_is_neutral : Option Buffer → Bool
unfolding same_as_neutral neutral_payload
payload_is_neutral none = false
payload_is_neutral (some payload) = same_as_neutral data_size payload

-- `swbt_switch_rumble_state_is_neutral`.
unfoldable pub state_is_neutral : Option Rumble → Bool
unfolding payload_is_neutral
state_is_neutral none = false
state_is_neutral (some r) = payload_is_neutral (some r.raw)
