-- ===== src/Daemon/Launch/Prepare.antt =====
-- What the daemon is launched with: swbt/daemon/launch_options.c.
use swbt_daemon.Common.{
  ℕ, ◌≡◌, ◌≢◌, refl, sym, ap, subst, ◌⊎◌, inl, inr, Bool, true, false, Option, none, some,
  if◌then◌else◌, arith,
}
use swbt_daemon.Common.Text.{Bytes}
use swbt_daemon.Daemon.Config
use swbt_daemon.Daemon.Config.{Config, ConfigEnv, apply_env}
use swbt_daemon.Daemon.Config.Bounds.{IsBounded, IsApplied}
use swbt_daemon.Daemon.Config.Outcome.{Wanted, apply_env-IsApplied}
use swbt_daemon.Daemon.Options.{LaunchOptions}
use swbt_daemon.Daemon.Launch.{
  ApplyFile, FileResult, LaunchConfig, launch_config_of, with_file, with_paths, with_env, is_some,
  prepare,
}

-- What the environment is applied to: the defaults, or what the file made of them.
abbrev pub IsBase : ApplyFile → Option Bytes → Config → Type 0
IsBase apply_file none base = base ≡ Config.default
IsBase apply_file (some path) base = apply_file Config.default path ≡ (FileResult.ok, base)

-- The launch configuration that the options and the environment ask for.
pub record IsPrepared (bits : ℕ) (apply_file : ApplyFile) (options : LaunchOptions)
    (env : ConfigEnv) (launch : LaunchConfig) : Type 0 where
  pub base : Config
  pub base_read : IsBase apply_file options.config_path base
  pub env_applied : IsApplied bits base env launch.config
  pub bounded : IsBounded launch.config
  pub target : launch.learned_switch_address_target ≡ options.config_path
  pub target_set : launch.learned_switch_address_target_configured ≡ is_some options.config_path
  pub link_keys : launch.link_key_db_path ≡ options.link_key_db_path
  pub link_keys_set : launch.link_key_db_configured ≡ is_some options.link_key_db_path
  pub hci_dump : launch.hci_dump_path ≡ options.hci_dump_path
  pub adapter : launch.adapter_location ≡ options.adapter_location
  pub adapter_set : launch.adapter_location_configured ≡ is_some options.adapter_location

-- Why there is none: the file is refused, or the environment is.
abbrev pub IsRefused : ℕ → ApplyFile → LaunchOptions → ConfigEnv → Type 0
IsRefused bits apply_file options env =
    ((path : Bytes) × (options.config_path ≡ some path)
      × ((apply_file Config.default path).0 ≢ FileResult.ok))
    ⊎ ((base : Config) × IsBase apply_file options.config_path base × (¬ Wanted bits base env))

abbrev pub Outcome : ℕ → ApplyFile → LaunchOptions → ConfigEnv → Option LaunchConfig → Type 0
Outcome bits apply_file options env none = IsRefused bits apply_file options env
Outcome bits apply_file options env (some launch) = IsPrepared bits apply_file options env launch

pub default-IsBounded : IsBounded Config.default
unfolding Config.default
default-IsBounded = record {
  period = omega arith;
  host = omega arith;
  port = omega arith;
  backlog = omega arith;
  timeout = omega arith;
}

-- What the file leaves.
abbrev loaded : Option Bytes → Config → LaunchConfig
loaded path base = record (launch_config_of base) {
  learned_switch_address_target = path;
  learned_switch_address_target_configured = is_some path;
}

abbrev Loaded : ApplyFile → Option Bytes → Option LaunchConfig → Type 0
Loaded apply_file path none =
    (p : Bytes) × (path ≡ some p) × ((apply_file Config.default p).0 ≢ FileResult.ok)
Loaded apply_file path (some launch) =
    (base : Config) × (launch ≡ loaded path base) × IsBase apply_file path base × IsBounded base

with_file-Loaded :
    (apply_file : ApplyFile) (path : Option Bytes)
    → ((config : Config) (p : Bytes) → IsBounded config → IsBounded (apply_file config p).1)
    → Loaded apply_file path (with_file apply_file path (launch_config_of Config.default))
unfolding with_file
with_file-Loaded apply_file none keeps = (Config.default, refl, refl, default-IsBounded)
with_file-Loaded apply_file (some path) keeps = by_result (apply_file Config.default path).0 refl
  where
    by_result :
        (result : FileResult)
        → (apply_file Config.default path).0 ≡ result
        → Loaded apply_file (some path) (elim result as (λ _. Option LaunchConfig) [
          | FileResult.ok ↦ some (loaded (some path) (apply_file Config.default path).1)
          | _ ↦ none
        ])
    by_result FileResult.ok e = (
      (apply_file Config.default path).1,
      refl,
      ap (λ r. (r, (apply_file Config.default path).1)) e,
      keeps Config.default path default-IsBounded,
    )
    by_result FileResult.invalid_argument e = (path, refl, λ o. cc)
    by_result FileResult.io e = (path, refl, λ o. cc)
    by_result FileResult.parse_error e = (path, refl, λ o. cc)
    by_result FileResult.invalid_value e = (path, refl, λ o. cc)

with_env-Outcome :
    (bits : ℕ) (apply_file : ApplyFile) (options : LaunchOptions) (env : ConfigEnv) (base : Config)
    → IsBase apply_file options.config_path base
    → IsBounded base
    → Outcome bits apply_file options env
        (with_env bits env (with_paths options (loaded options.config_path base)))
unfolding with_env
with_env-Outcome bits apply_file options env base read b =
    by_applied (apply_env bits base env).0 refl (apply_env-IsApplied bits base env b)
  where
    by_applied :
        (accepted : Bool)
        → (apply_env bits base env).0 ≡ accepted
        → (((apply_env bits base env).0 ≡ false)
            × ((apply_env bits base env).1 ≡ base)
            × (¬ Wanted bits base env))
          ⊎ (((apply_env bits base env).0 ≡ true)
              × IsApplied bits base env (apply_env bits base env).1
              × IsBounded (apply_env bits base env).1)
        → Outcome bits apply_file options env (
            if accepted
            then some (record (with_paths options (loaded options.config_path base)) {
              config = (apply_env bits base env).1;
            })
            else none)
    by_applied false e (inl (_, _, w)) = inr (base, read, w)
    by_applied false e (inr (r, _, _)) = cc
    by_applied true e (inl (r, _, _)) = cc
    by_applied true e (inr (_, applied, bounded)) = record {
      base = base;
      base_read = read;
      env_applied = applied;
      bounded = bounded;
      target = refl;
      target_set = refl;
      link_keys = refl;
      link_keys_set = refl;
      hci_dump = refl;
      adapter = refl;
      adapter_set = refl;
    }

-- The launch configuration is the defaults, changed by the configuration file where one is given,
-- then by the environment, which wins over the file, with the paths and the adapter of the options
-- and a configuration within the bounds of its types, provided that reading a file keeps those.
-- There is none only where the file is refused, or where what the environment asks for is no
-- configuration within those bounds.
pub prepare-Outcome :
    (bits : ℕ) (apply_file : ApplyFile) (options : LaunchOptions) (env : ConfigEnv)
    → ((config : Config) (path : Bytes) → IsBounded config → IsBounded (apply_file config path).1)
    → Outcome bits apply_file options env (prepare bits apply_file options env)
unfolding prepare
prepare-Outcome bits apply_file options env keeps =
    by_file (with_file apply_file options.config_path (launch_config_of Config.default))
      (with_file-Loaded apply_file options.config_path keeps)
  where
    by_file :
        (answer : Option LaunchConfig)
        → Loaded apply_file options.config_path answer
        → Outcome bits apply_file options env (elim answer as (λ _. Option LaunchConfig) [
          | none ↦ none
          | some launch ↦ with_env bits env (with_paths options launch)
        ])
    by_file none (path, e, refused) = inl (path, e, refused)
    by_file (some launch) (base, e, read, b) =
        subst (λ l. Outcome bits apply_file options env (with_env bits env (with_paths options l)))
          (sym e) (with_env-Outcome bits apply_file options env base read b)
