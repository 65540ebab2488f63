-- ===== src/Daemon/Launch.antt =====
-- What the daemon is launched with: swbt/daemon/launch_options.h and launch_options.c. The reader of
-- the configuration file is a parameter, since it uses a library that is not here.
pub mod Prepare
use swbt_daemon.Common.{ℕ, Bool, true, false, Option, none, some, if◌then◌else◌}
use swbt_daemon.Common.Text.{Bytes}
use swbt_daemon.Daemon.Config
use swbt_daemon.Daemon.Config.{Config, ConfigEnv, apply_env}
use swbt_daemon.Daemon.Options.{LaunchOptions}

-- `swbt_daemon_config_file_result_t`.
pub data FileResult : Type 0 where
  ok invalid_argument io parse_error invalid_value : FileResult

-- `swbt_daemon_config_apply_file` on a file that is required: its reader is a library's.
abbrev pub ApplyFile : Type 0
ApplyFile = Config → Bytes → FileResult × Config

-- `swbt_daemon_launch_config_t`.
pub record LaunchConfig : Type 0 where
  pub config : Config
  pub learned_switch_address_target : Option Bytes
  pub learned_switch_address_target_configured : Bool
  pub link_key_db_path : Option Bytes
  pub link_key_db_configured : Bool
  pub hci_dump_path : Option Bytes
  pub adapter_location : Option Bytes
  pub adapter_location_configured : Bool

-- The launch configuration of a configuration, with nothing else set.
abbrev pub launch_config_of : Config → LaunchConfig
launch_config_of config = record {
  config = config;
  learned_switch_address_target = none;
  learned_switch_address_target_configured = false;
  link_key_db_path = none;
  link_key_db_configured = false;
  hci_dump_path = none;
  adapter_location = none;
  adapter_location_configured = false;
}

-- The configuration file, where there is one.
unfoldable pub with_file : ApplyFile → Option Bytes → LaunchConfig → Option LaunchConfig
with_file apply_file none launch = some launch
with_file apply_file (some path) launch =
    let (result, config) = apply_file launch.config path in
    elim result [
      | FileResult.ok ↦ some (record launch {
        config = config;
        learned_switch_address_target = some path;
        learned_switch_address_target_configured = true;
      })
      | _ ↦ none
    ]

abbrev pub is_some : Option Bytes → Bool
is_some none = false
is_some (some chars) = true

abbrev pub with_paths : LaunchOptions → LaunchConfig → LaunchConfig
with_paths options launch = record launch {
  link_key_db_path = options.link_key_db_path;
  link_key_db_configured = is_some options.link_key_db_path;
  hci_dump_path = options.hci_dump_path;
  adapter_location = options.adapter_location;
  adapter_location_configured = is_some options.adapter_location;
}

unfoldable pub with_env : ℕ → ConfigEnv → LaunchConfig → Option LaunchConfig
with_env bits env launch =
    let (accepted, config) = apply_env bits launch.config env in
    if accepted then some (record launch { config = config }) else none

-- `swbt_daemon_launch_config_prepare`: the launch configuration, `none` for a failure, after which
-- `*launch_config` is zeroed.
unfoldable pub prepare : ℕ → ApplyFile → LaunchOptions → ConfigEnv → Option LaunchConfig
prepare bits apply_file options env =
    elim (with_file apply_file options.config_path (launch_config_of Config.default)) [
      | none ↦ none
      | some launch ↦ with_env bits env (with_paths options launch)
    ]
