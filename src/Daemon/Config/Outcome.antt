-- ===== src/Daemon/Config/Outcome.antt =====
-- The environment is applied exactly where it asks for a configuration that can be:
-- swbt/daemon/config.c.
use swbt_daemon.Common.{
  ℕ, zero, suc, ◌≤◌, ◌≡◌, refl, sym, ◌∙◌, ap, subst, ◌⊎◌, inl, inr, Bool, true, false, Option, none,
  some, List, [], ◌∷◌, length, if◌then◌else◌, arith,
}
use swbt_daemon.Common.Text.{Bytes}
use swbt_daemon.Switch.DeviceInfo.{DeviceInfo, swbt_pro}
use swbt_daemon.Daemon.Config.{
  Config, ConfigEnv, copy_host, set_ipc_host, parse_u32, parse_u16, parse_int, env_value, checked,
  stored, set_period, env_host, set_host, set_port, set_backlog, set_timeout, set_profile,
  check_next, steps, run, apply_device_info_profile, is_positive, apply_env,
}
use swbt_daemon.Daemon.Config.Numbers.{Follows, Reads-u32, Reads-u16, ReadsInt-int}
use swbt_daemon.Daemon.Config.Bounds.{
  IsBounded, HostFollows, ProfileFollows, IsApplied, run-IsApplied,
}

run-next :
    (step : Config → Option Config) (later : List (Config → Option Config)) {next next' : Config}
    → step next ≡ some next'
    → run (step ∷ later) next ≡ run later next'
unfolding run
run-next step later e =
    ap (λ a. elim a as (λ _. Option Config) [ none ↦ none | some n ↦ run later n ]) e

stored-Follows :
    {A : Type 0} (parse : Bytes → Option A) (env : Option Bytes) (before after : A)
    (set : A → Config)
    → Follows parse env before after
    → stored set (env_value parse env before) ≡ some (set after)
stored-Follows parse none before after set f = ap (λ v. some (set v)) (sym f)
stored-Follows parse (some chars) before after set f = ap (stored set) f

copy_host-fits :
    (places : ℕ) (host : Bytes) → length host ≤ places → copy_host places host ≡ (host, true)
unfolding copy_host
copy_host-fits places [] h = refl
copy_host-fits zero (c ∷ host) h = absurd (omega arith)
copy_host-fits (suc places) (c ∷ host) h =
    ap (λ r. (c ∷ r.0, r.1)) (copy_host-fits places host (omega arith))

host-Follows :
    (env : Option Bytes) (config : Config) (host : Bytes)
    → HostFollows env config.ipc_host host
    → length host ≤ 15
    → env_host env config ≡ some (record config { ipc_host = host })
unfolding set_ipc_host
host-Follows none config host f h = ap (λ v. some (record config { ipc_host = v })) (sym f)
host-Follows (some []) config host f h = ap (λ v. some (record config { ipc_host = v })) (sym f)
host-Follows (some (c ∷ cs)) config host f h =
    ap (λ r. checked (r.1, record config { ipc_host = r.0 }))
      (copy_host-fits 15 (c ∷ cs) (subst (λ v. length v ≤ 15) f h))
    ∙ ap (λ v. some (record config { ipc_host = v })) (sym f)

profile-Follows :
    (profile : Option Bytes) (config : Config) (info : DeviceInfo)
    → ProfileFollows profile config.device_info info
    → checked (apply_device_info_profile config profile)
      ≡ some (record config { device_info = info })
unfolding apply_device_info_profile
profile-Follows none config info f = ap (λ v. some (record config { device_info = v })) (sym f)
profile-Follows (some []) config info f = ap (λ v. some (record config { device_info = v })) (sym f)
profile-Follows (some (c ∷ name)) config info (k, f) =
    ap
      (λ known.
        checked
          (if known then (true, record config { device_info = swbt_pro }) else (false, config)))
      k
    ∙ ap (λ v. some (record config { device_info = v })) (sym f)

check-positive :
    (next : Config)
    → 1 ≤ next.report_period_us
    → is_positive next.ipc_backlog ≡ true
    → check_next next ≡ some next
unfolding check_next
check-positive next p b = ground arith

-- Where the environment asks for a configuration, no step refuses.
run-accepts :
    (bits : ℕ) (config next : Config) (env : ConfigEnv)
    → IsApplied bits config env next
    → IsBounded next
    → (last : Config) × (run (steps bits env) config ≡ some last)
unfolding set_period set_host set_port set_backlog set_timeout set_profile
run-accepts bits config next env a b =
    let c1 : Config = record config { report_period_us = next.report_period_us } in
    let c2 : Config = record c1 { ipc_host = next.ipc_host } in
    let c3 : Config = record c2 { ipc_port = next.ipc_port } in
    let c4 : Config = record c3 { ipc_backlog = next.ipc_backlog } in
    let c5 : Config = record c4 { ipc_heartbeat_timeout_ms = next.ipc_heartbeat_timeout_ms } in
    let c6 : Config = record c5 { device_info = next.device_info } in
    (
      c6,
      run-next _ _ (
            stored-Follows (parse_u32 bits) env.report_period_us config.report_period_us
              next.report_period_us (λ v. record config { report_period_us = v })
              (Reads-u32 bits env.report_period_us config.report_period_us next.report_period_us
                a.period_reads b.period))
          ∙ run-next _ _ (host-Follows env.ipc_host c1 next.ipc_host a.host_follows b.host)
          ∙ run-next _ _ (
              stored-Follows (parse_u16 bits) env.ipc_port config.ipc_port next.ipc_port
                (λ v. record c2 { ipc_port = v })
                (Reads-u16 bits env.ipc_port config.ipc_port next.ipc_port a.port_reads b.port))
          ∙ run-next _ _ (
              stored-Follows (parse_int bits) env.ipc_backlog config.ipc_backlog next.ipc_backlog
                (λ v. record c3 { ipc_backlog = v })
                (ReadsInt-int bits env.ipc_backlog config.ipc_backlog next.ipc_backlog
                  a.backlog_reads b.backlog))
          ∙ run-next _ _ (
              stored-Follows (parse_u32 bits) env.ipc_heartbeat_timeout_ms
                config.ipc_heartbeat_timeout_ms next.ipc_heartbeat_timeout_ms
                (λ v. record c4 { ipc_heartbeat_timeout_ms = v })
                (Reads-u32 bits env.ipc_heartbeat_timeout_ms config.ipc_heartbeat_timeout_ms
                  next.ipc_heartbeat_timeout_ms a.timeout_reads b.timeout))
          ∙ run-next _ _
              (profile-Follows env.device_info_profile c5 next.device_info a.profile_follows)
          ∙ run-next _ _ (check-positive c6 a.period_positive a.backlog_positive)
          ∙ (unfold run in refl),
    )

-- A configuration that the environment asks for, within the bounds of its types and arrays.
abbrev pub Wanted : ℕ → Config → ConfigEnv → Type 0
Wanted bits config env = (next : Config) × IsApplied bits config env next × IsBounded next

-- The environment is applied as a whole or not at all, and it is refused only where it asks for no
-- configuration that could be: then the configuration stays. When it is accepted, every number that
-- is set is what `strtoul` reads from a text that is not empty, to the end of that text; a host that
-- is set and not empty is taken as it is, and a profile that is set and not empty is a known one,
-- whose identity is taken; every other value is the one before. The period and the backlog are
-- positive, and a configuration within the bounds of its types and of its arrays stays so. This
-- holds for any number of bits of `unsigned long`.
pub apply_env-IsApplied :
    (bits : ℕ) (config : Config) (env : ConfigEnv)
    → IsBounded config
    → let (accepted, config') = apply_env bits config env in
      ((accepted ≡ false) × (config' ≡ config) × (¬ Wanted bits config env))
      ⊎ ((accepted ≡ true) × IsApplied bits config env config' × IsBounded config')
unfolding apply_env
apply_env-IsApplied bits config env b = by_run (run (steps bits env) config) refl
  where
    outcome : Option Config → Bool × Config
    outcome none = (false, config)
    outcome (some next) = (true, next)

    by_run :
        (answer : Option Config)
        → run (steps bits env) config ≡ answer
        → let (accepted, config') = outcome answer in
          ((accepted ≡ false) × (config' ≡ config) × (¬ Wanted bits config env))
          ⊎ ((accepted ≡ true) × IsApplied bits config env config' × IsBounded config')
    by_run none e =
        inl (refl, refl, λ (next, a, b'). refused (run-accepts bits config next env a b'))
      where
        refused : ((last : Config) × (run (steps bits env) config ≡ some last)) → ⊥
        refused (last, e') = cc
    by_run (some next) e = inr (
      refl,
      (run-IsApplied bits config next env b e).0,
      (run-IsApplied bits config next env b e).1,
    )
