-- ===== src/Daemon/Config.antt =====
-- The configuration: swbt/daemon/config.h and config.c. A configuration is updated in place and is a
-- value; the guards against a NULL configuration are left out. A C string is the list of its
-- characters; the two addresses are arrays of 18 characters.
pub mod Numbers
pub mod Bounds
pub mod Outcome
use swbt_daemon.Common.{
  ℕ, zero, suc, ◌-◌, ◌^◌, Bool, true, false, ◌&&◌, ◌||◌, not, Option, none, some, List, [], ◌∷◌,
  ltb, ◌==◌, if◌then◌else◌,
}
use swbt_daemon.Common.Buffer.{Buffer}
use swbt_daemon.Common.Int.{ℤ, pos, negsuc}
use swbt_daemon.Common.Text.{Bytes, text, same_text, strtoul_10}
use swbt_daemon.Switch.Report.{ReportOptions}
use swbt_daemon.Switch.DeviceInfo.{DeviceInfo, swbt_pro}
use swbt_daemon.Daemon.SwitchAddress.{normalize}

abbrev pub ipc_host_size : ℕ
ipc_host_size = 16

-- `swbt_daemon_config_t`.
pub record Config : Type 0 where
  pub report_period_us : ℕ
  pub ipc_host : Bytes
  pub ipc_port : ℕ
  pub ipc_backlog : ℤ
  pub ipc_heartbeat_timeout_ms : ℕ
  pub explicit_switch_address : Buffer
  pub learned_switch_address : Buffer
  pub report_options : ReportOptions
  pub device_info : DeviceInfo

-- `swbt_daemon_config_env_t`.
pub record ConfigEnv : Type 0 where
  pub report_period_us : Option Bytes
  pub ipc_host : Option Bytes
  pub ipc_port : Option Bytes
  pub ipc_backlog : Option Bytes
  pub ipc_heartbeat_timeout_ms : Option Bytes
  pub device_info_profile : Option Bytes

-- The loop of `set_ipc_host`, for the places that are left: what is copied, and whether all of it
-- was.
unfoldable pub copy_host : ℕ → Bytes → Bytes × Bool
copy_host places [] = ([], true)
copy_host zero (c ∷ host) = ([], false)
copy_host (suc places) (c ∷ host) = let (copied, all) = copy_host places host in (c ∷ copied, all)

-- `swbt_daemon_config_set_ipc_host`; a text that is too long is cut, and refused.
unfoldable pub set_ipc_host : Config → Option Bytes → Bool × Config
unfolding copy_host
set_ipc_host config none = (false, config)
set_ipc_host config (some []) = (false, config)
set_ipc_host config (some (c ∷ host)) =
    let (copied, all) = copy_host 15 (c ∷ host) in (all, record config { ipc_host = copied })

-- `swbt_daemon_config_set_active_reconnect_explicit_switch_address`.
unfoldable pub set_explicit_switch_address : Config → Option Buffer → Bool × Config
set_explicit_switch_address config none = (false, config)
set_explicit_switch_address config (some address) =
    let (accepted, normalized) = normalize config.explicit_switch_address address in
    (accepted, record config { explicit_switch_address = normalized })

-- `swbt_daemon_config_set_active_reconnect_learned_switch_address`.
unfoldable pub set_learned_switch_address : Config → Option Buffer → Bool × Config
set_learned_switch_address config none = (false, config)
set_learned_switch_address config (some address) =
    let (accepted, normalized) = normalize config.learned_switch_address address in
    (accepted, record config { learned_switch_address = normalized })

-- `swbt_daemon_config_effective_reconnect_switch_address`.
unfoldable pub effective_reconnect_switch_address : Config → Option Buffer
effective_reconnect_switch_address config =
    if not (config.explicit_switch_address 0 == 0)
    then some config.explicit_switch_address
    else if not (config.learned_switch_address 0 == 0)
    then some config.learned_switch_address
    else none

-- A number that was read to the end of its text; where nothing is read the end is the text itself,
-- which is not empty.
abbrev pub whole_u32 : Option (ℕ × Bytes) → Option ℕ
whole_u32 none = none
whole_u32 (some (parsed, c ∷ end)) = none
whole_u32 (some (parsed, [])) = if ltb (2 ^ 32 - 1) parsed then none else some parsed

-- `swbt_daemon_parse_u32`; the first argument is the number of bits of `unsigned long`, which is 64
-- or, on Windows, 32.
unfoldable pub parse_u32 : ℕ → Bytes → Option ℕ
parse_u32 bits [] = none
parse_u32 bits (c ∷ value) = whole_u32 (strtoul_10 bits (c ∷ value))

-- `swbt_daemon_parse_u16`.
unfoldable pub parse_u16 : ℕ → Bytes → Option ℕ
parse_u16 bits value = elim (parse_u32 bits value) [
  | none ↦ none
  | some parsed ↦ if ltb (2 ^ 16 - 1) parsed then none else some parsed
]

-- `swbt_daemon_parse_int`.
unfoldable pub parse_int : ℕ → Bytes → Option ℤ
parse_int bits value = elim (parse_u32 bits value) [
  | none ↦ none
  | some parsed ↦ if ltb (2 ^ 31 - 1) parsed then none else some (pos parsed)
]

-- `swbt_daemon_config_default`.
unfoldable pub default : Config
default = record {
  report_period_us = 8000;
  ipc_host = text "127.0.0.1";
  ipc_port = 0;
  ipc_backlog = pos 1;
  ipc_heartbeat_timeout_ms = 0;
  explicit_switch_address = λ _. 0;
  learned_switch_address = λ _. 0;
  report_options = record { timer = 0; battery_connection = 0x8E; vibrator_report = 0x80 };
  device_info = swbt_pro;
}

-- `swbt_daemon_config_apply_device_info_profile`.
unfoldable pub apply_device_info_profile : Config → Option Bytes → Bool × Config
apply_device_info_profile config none = (true, config)
apply_device_info_profile config (some []) = (true, config)
apply_device_info_profile config (some (c ∷ profile)) =
    if same_text (c ∷ profile) (text "swbt-pro") || same_text (c ∷ profile) (text "default")
    then (true, record config { device_info = swbt_pro })
    else (false, config)

-- A variable that is read by `parse` where it is set, and else leaves the value.
abbrev pub env_value : {A : Type 0} → (Bytes → Option A) → Option Bytes → A → Option A
env_value parse none value = some value
env_value parse (some chars) value = parse chars

abbrev pub checked : Bool × Config → Option Config
checked (accepted, config) = if accepted then some config else none

-- A listen backlog that is positive.
abbrev pub is_positive : ℤ → Bool
is_positive (pos n) = ltb 0 n
is_positive (negsuc n) = false

-- A field of `next` is set to the value, where there is one.
abbrev pub stored : {A : Type 0} → (A → Config) → Option A → Option Config
stored set none = none
stored set (some value) = some (set value)

-- The steps of `apply_env`, in its order; a step that gives `none` returns false.
unfoldable pub set_period : ℕ → ConfigEnv → Config → Option Config
set_period bits env next =
    stored (λ period. record next { report_period_us = period })
      (env_value (parse_u32 bits) env.report_period_us next.report_period_us)

abbrev pub env_host : Option Bytes → Config → Option Config
env_host none next = some next
env_host (some []) next = some next
env_host (some (c ∷ host)) next = checked (set_ipc_host next (some (c ∷ host)))

unfoldable pub set_host : ConfigEnv → Config → Option Config
set_host env next = env_host env.ipc_host next

unfoldable pub set_port : ℕ → ConfigEnv → Config → Option Config
set_port bits env next =
    stored (λ port. record next { ipc_port = port })
      (env_value (parse_u16 bits) env.ipc_port next.ipc_port)

unfoldable pub set_backlog : ℕ → ConfigEnv → Config → Option Config
set_backlog bits env next =
    stored (λ backlog. record next { ipc_backlog = backlog })
      (env_value (parse_int bits) env.ipc_backlog next.ipc_backlog)

unfoldable pub set_timeout : ℕ → ConfigEnv → Config → Option Config
set_timeout bits env next =
    stored (λ timeout. record next { ipc_heartbeat_timeout_ms = timeout })
      (env_value (parse_u32 bits) env.ipc_heartbeat_timeout_ms next.ipc_heartbeat_timeout_ms)

unfoldable pub set_profile : ConfigEnv → Config → Option Config
set_profile env next = checked (apply_device_info_profile next env.device_info_profile)

unfoldable pub check_next : Config → Option Config
check_next next =
    if next.report_period_us == 0 || not (is_positive next.ipc_backlog) then none else some next

abbrev pub steps : ℕ → ConfigEnv → List (Config → Option Config)
steps bits env =
    set_period bits env
    ∷ set_host env
    ∷ set_port bits env
    ∷ set_backlog bits env
    ∷ set_timeout bits env
    ∷ set_profile env
    ∷ check_next
    ∷ []

-- One step after the other.
unfoldable pub run : List (Config → Option Config) → Config → Option Config
run [] next = some next
run (step ∷ later) next = elim (step next) [ none ↦ none | some next' ↦ run later next' ]

-- `swbt_daemon_config_apply_env`.
unfoldable pub apply_env : ℕ → Config → ConfigEnv → Bool × Config
apply_env bits config env = elim (run (steps bits env) config) [
  | none ↦ (false, config)
  | some next ↦ (true, next)
]
