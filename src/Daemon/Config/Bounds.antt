-- ===== src/Daemon/Config/Bounds.antt =====
-- What a configuration may hold after the environment was applied.
use swbt_daemon.Common.{
  ℕ, zero, suc, ◌^◌, ◌≤◌, ◌<◌, ◌≡◌, refl, sym, subst, ap, Bool, true, false, not, ◌||◌, Option,
  none, some, List, [], ◌∷◌, length, ◌==◌, if◌then◌else◌, arith,
}
use swbt_daemon.Common.Text.{Bytes, text, same_text}
use swbt_daemon.Switch.DeviceInfo.{DeviceInfo, swbt_pro}
use swbt_daemon.Daemon.Config.Numbers.{
  IsInt, Follows, Reads, ReadsInt, parse_u32-lt, parse_u16-lt, Follows-lt, Follows-IsInt,
  Follows-transport, u32-Reads, u16-Reads, int-ReadsInt,
}
use swbt_daemon.Daemon.Config.{
  Config, ConfigEnv, copy_host, set_ipc_host, parse_u32, parse_u16, parse_int, env_value, checked,
  stored, set_period, env_host, set_host, set_port, set_backlog, set_timeout, set_profile,
  check_next, steps, run, apply_device_info_profile, is_positive,
}

-- The numbers fit their types, and the host its array.
pub record IsBounded (config : Config) : Type 0 where
  pub period : config.report_period_us < 2 ^ 32
  pub host : length config.ipc_host ≤ 15
  pub port : config.ipc_port < 2 ^ 16
  pub backlog : IsInt config.ipc_backlog
  pub timeout : config.ipc_heartbeat_timeout_ms < 2 ^ 32

pub some_inj : {A : Type 0} {a b : A} → some a ≡ some b → a ≡ b
some_inj e = cc

-- A run that succeeds goes through each step.
pub run-step :
    (step : Config → Option Config) (later : List (Config → Option Config)) {next last : Config}
    → run (step ∷ later) next ≡ some last
    → (next' : Config) × (step next ≡ some next') × (run later next' ≡ some last)
unfolding run
run-step step later {next} {last} e = by_answer (step next) refl e
  where
    by_answer :
        (answer : Option Config)
        → step next ≡ answer
        → (elim answer as (λ _. Option Config) [ none ↦ none | some next' ↦ run later next' ])
          ≡ some last
        → (next' : Config) × (step next ≡ some next') × (run later next' ≡ some last)
    by_answer none d e' = ground arith
    by_answer (some next') d e' = (next', d, e')

run-end : {next last : Config} → run [] next ≡ some last → last ≡ next
unfolding run
run-end e = sym (some_inj e)

stored_lem :
    {A : Type 0} (parse : Bytes → Option A) (env : Option Bytes) (before : A) (set : A → Config)
    (next' : Config)
    → stored set (env_value parse env before) ≡ some next'
    → (after : A) × (next' ≡ set after) × Follows parse env before after
stored_lem parse none before set next' e = (before, sym (some_inj e), refl)
stored_lem parse (some chars) before set next' e = by_value (parse chars) refl e
  where
    by_value :
        (value : Option _)
        → parse chars ≡ value
        → stored set value ≡ some next'
        → (after : _) × (next' ≡ set after) × (parse chars ≡ some after)
    by_value none d e' = ground arith
    by_value (some after) d e' = (after, sym (some_inj e'), d)

copy_host-length : (places : ℕ) (host : Bytes) → length (copy_host places host).0 ≤ places
unfolding copy_host
copy_host-length places [] = omega arith
copy_host-length zero (c ∷ host) = omega arith
copy_host-length (suc places) (c ∷ host) = omega (arith, copy_host-length places host)

copy_host-all :
    (places : ℕ) (host : Bytes)
    → (copy_host places host).1 ≡ true
    → (copy_host places host).0 ≡ host
unfolding copy_host
copy_host-all places [] e = refl
copy_host-all zero (c ∷ host) e = ground arith
copy_host-all (suc places) (c ∷ host) e = ap (λ h. c ∷ h) (copy_host-all places host e)

-- The host after the environment: the very text of the variable, where it is set and not empty.
abbrev pub HostFollows : Option Bytes → Bytes → Bytes → Type 0
HostFollows none before after = after ≡ before
HostFollows (some []) before after = after ≡ before
HostFollows (some (c ∷ host)) before after = after ≡ c ∷ host

host_lem :
    (env : Option Bytes) (config config' : Config)
    → length config.ipc_host ≤ 15
    → env_host env config ≡ some config'
    → (host : Bytes) × (config' ≡ record config { ipc_host = host })
      × HostFollows env config.ipc_host host
      × (length host ≤ 15)
unfolding set_ipc_host
host_lem none config config' h e = (config.ipc_host, sym (some_inj e), refl, h)
host_lem (some []) config config' h e = (config.ipc_host, sym (some_inj e), refl, h)
host_lem (some (c ∷ host)) config config' h e = by_all (copy_host 15 (c ∷ host)).1 refl e
  where
    by_all :
        (all : Bool)
        → (copy_host 15 (c ∷ host)).1 ≡ all
        → (if all then some (record config { ipc_host = (copy_host 15 (c ∷ host)).0 }) else none)
          ≡ some config'
        → (h' : Bytes) × (config' ≡ record config { ipc_host = h' })
          × (h' ≡ c ∷ host)
          × (length h' ≤ 15)
    by_all false d e' = ground arith
    by_all true d e' = (
      (copy_host 15 (c ∷ host)).0,
      sym (some_inj e'),
      copy_host-all 15 (c ∷ host) d,
      copy_host-length 15 (c ∷ host),
    )

-- A profile that is known by its name.
abbrev pub is_profile : Bytes → Bool
is_profile name = same_text name (text "swbt-pro") || same_text name (text "default")

-- The identity after the environment: that of the profile, where it is set and not empty.
abbrev pub ProfileFollows : Option Bytes → DeviceInfo → DeviceInfo → Type 0
ProfileFollows none before after = after ≡ before
ProfileFollows (some []) before after = after ≡ before
ProfileFollows (some (c ∷ name)) before after = (is_profile (c ∷ name) ≡ true) × (after ≡ swbt_pro)

profile_lem :
    (config config' : Config) (profile : Option Bytes)
    → checked (apply_device_info_profile config profile) ≡ some config'
    → (info : DeviceInfo) × (config' ≡ record config { device_info = info })
      × ProfileFollows profile config.device_info info
unfolding apply_device_info_profile
profile_lem config config' none e = (config.device_info, sym (some_inj e), refl)
profile_lem config config' (some []) e = (config.device_info, sym (some_inj e), refl)
profile_lem config config' (some (c ∷ profile)) e = by_name (is_profile (c ∷ profile)) refl e
  where
    by_name :
        (known : Bool)
        → is_profile (c ∷ profile) ≡ known
        → checked
            (if known then (true, record config { device_info = swbt_pro }) else (false, config))
          ≡ some config'
        → (info : DeviceInfo) × (config' ≡ record config { device_info = info })
          × ProfileFollows (some (c ∷ profile)) config.device_info info
    by_name true k e' = (swbt_pro, sym (some_inj e'), (k, refl))
    by_name false k e' = ground arith

-- What the environment has made of a configuration.
pub record IsApplied (bits : ℕ) (config : Config) (env : ConfigEnv) (config' : Config)
    : Type 0 where
  pub period_reads :
      Reads bits env.report_period_us config.report_period_us config'.report_period_us
  pub host_follows : HostFollows env.ipc_host config.ipc_host config'.ipc_host
  pub port_reads : Reads bits env.ipc_port config.ipc_port config'.ipc_port
  pub backlog_reads : ReadsInt bits env.ipc_backlog config.ipc_backlog config'.ipc_backlog
  pub timeout_reads :
      Reads bits env.ipc_heartbeat_timeout_ms config.ipc_heartbeat_timeout_ms
        config'.ipc_heartbeat_timeout_ms
  pub profile_follows :
      ProfileFollows env.device_info_profile config.device_info config'.device_info
  pub explicit_kept : config'.explicit_switch_address ≡ config.explicit_switch_address
  pub learned_kept : config'.learned_switch_address ≡ config.learned_switch_address
  pub options_kept : config'.report_options ≡ config.report_options
  pub period_positive : 1 ≤ config'.report_period_us
  pub backlog_positive : is_positive config'.ipc_backlog ≡ true

check_lem :
    (next config' : Config)
    → check_next next ≡ some config'
    → (config' ≡ next) × (1 ≤ next.report_period_us) × (is_positive next.ipc_backlog ≡ true)
unfolding check_next
check_lem next config' e =
    by_tests (next.report_period_us == 0) (is_positive next.ipc_backlog) refl refl e
  where
    by_tests :
        (zero_period positive : Bool)
        → (next.report_period_us == 0) ≡ zero_period
        → is_positive next.ipc_backlog ≡ positive
        → (if zero_period || not positive then none else some next) ≡ some config'
        → (config' ≡ next) × (1 ≤ next.report_period_us) × (is_positive next.ipc_backlog ≡ true)
    by_tests true positive z p e' = ground arith
    by_tests false false z p e' = ground arith
    by_tests false true z p e' = (sym (some_inj e'), ground arith, p)

-- The seven steps, each with what it gave.
steps_lem :
    (bits : ℕ) (config c1 c2 c3 c4 c5 c6 c7 : Config) (env : ConfigEnv)
    → IsBounded config
    → set_period bits env config ≡ some c1
    → set_host env c1 ≡ some c2
    → set_port bits env c2 ≡ some c3
    → set_backlog bits env c3 ≡ some c4
    → set_timeout bits env c4 ≡ some c5
    → set_profile env c5 ≡ some c6
    → check_next c6 ≡ some c7
    → IsApplied bits config env c7 × IsBounded c7
unfolding set_period set_host set_port set_backlog set_timeout set_profile
steps_lem bits config c1 c2 c3 c4 c5 c6 c7 env b e1 e2 e3 e4 e5 e6 e7 =
    let (period, q1, f1) =
      stored_lem (parse_u32 bits) env.report_period_us config.report_period_us
        (λ v. record config { report_period_us = v }) c1 e1 in
    let (host, q2, f2, l) = host_lem env.ipc_host c1 c2 (rw q1 b.host) e2 in
    let (port, q3, f3) =
      stored_lem (parse_u16 bits) env.ipc_port c2.ipc_port (λ v. record c2 { ipc_port = v }) c3
        e3 in
    let (backlog, q4, f4) =
      stored_lem (parse_int bits) env.ipc_backlog c3.ipc_backlog
        (λ v. record c3 { ipc_backlog = v }) c4 e4 in
    let (timeout, q5, f5) =
      stored_lem (parse_u32 bits) env.ipc_heartbeat_timeout_ms c4.ipc_heartbeat_timeout_ms
        (λ v. record c4 { ipc_heartbeat_timeout_ms = v }) c5 e5 in
    let (info, q6, f6) = profile_lem c5 c6 env.device_info_profile e6 in
    let (q7, p7, k7) = check_lem c6 c7 e7 in
    let last : Config = record config {
      report_period_us = period;
      ipc_host = host;
      ipc_port = port;
      ipc_backlog = backlog;
      ipc_heartbeat_timeout_ms = timeout;
      device_info = info;
    } in
    let all : c7 ≡ last = ground arith in
    let host0 : c1.ipc_host ≡ config.ipc_host = ground arith in
    let port0 : c2.ipc_port ≡ config.ipc_port = ground arith in
    let backlog0 : c3.ipc_backlog ≡ config.ipc_backlog = ground arith in
    let timeout0 : c4.ipc_heartbeat_timeout_ms ≡ config.ipc_heartbeat_timeout_ms = ground arith in
    let info0 : c5.device_info ≡ config.device_info = ground arith in
    let backlog' =
      Follows-transport (parse_int bits) env.ipc_backlog {after' = backlog} backlog0 refl f4 in
    let period0 : c6.report_period_us ≡ period = ground arith in
    let positive0 : c6.ipc_backlog ≡ backlog = ground arith in
    let port' = Follows-transport (parse_u16 bits) env.ipc_port {after' = port} port0 refl f3 in
    let timeout' =
      Follows-transport (parse_u32 bits) env.ipc_heartbeat_timeout_ms {after' = timeout} timeout0
        refl f5 in
    let applied : IsApplied bits config env last = record {
      period_reads = u32-Reads bits env.report_period_us config.report_period_us period f1;
      host_follows = subst (λ h. HostFollows env.ipc_host h host) host0 f2;
      port_reads = u16-Reads bits env.ipc_port config.ipc_port port port';
      backlog_reads = int-ReadsInt bits env.ipc_backlog config.ipc_backlog backlog backlog';
      timeout_reads =
          u32-Reads bits env.ipc_heartbeat_timeout_ms config.ipc_heartbeat_timeout_ms timeout
            timeout';
      profile_follows = subst (λ d. ProfileFollows env.device_info_profile d info) info0 f6;
      explicit_kept = refl;
      learned_kept = refl;
      options_kept = refl;
      period_positive = subst (λ v. 1 ≤ v) period0 p7;
      backlog_positive = subst (λ v. is_positive v ≡ true) positive0 k7;
    } in
    let bounded : IsBounded last = record {
      period =
          Follows-lt (2 ^ 32) (parse_u32 bits) env.report_period_us config.report_period_us period
            (parse_u32-lt bits) b.period f1;
      host = l;
      port =
          Follows-lt (2 ^ 16) (parse_u16 bits) env.ipc_port config.ipc_port port (parse_u16-lt bits)
            b.port port';
      backlog = Follows-IsInt bits env.ipc_backlog config.ipc_backlog backlog b.backlog backlog';
      timeout =
          Follows-lt (2 ^ 32) (parse_u32 bits) env.ipc_heartbeat_timeout_ms
            config.ipc_heartbeat_timeout_ms timeout (parse_u32-lt bits) b.timeout timeout';
    } in
    subst (λ c. IsApplied bits config env c × IsBounded c) (sym all) (applied, bounded)

pub run-IsApplied :
    (bits : ℕ) (config config' : Config) (env : ConfigEnv)
    → IsBounded config
    → run (steps bits env) config ≡ some config'
    → IsApplied bits config env config' × IsBounded config'
run-IsApplied bits config config' env b e =
    let (c1, e1, r1) = run-step _ _ e in
    let (c2, e2, r2) = run-step _ _ r1 in
    let (c3, e3, r3) = run-step _ _ r2 in
    let (c4, e4, r4) = run-step _ _ r3 in
    let (c5, e5, r5) = run-step _ _ r4 in
    let (c6, e6, r6) = run-step _ _ r5 in
    let (c7, e7, r7) = run-step _ _ r6 in
    subst (λ c. IsApplied bits config env c × IsBounded c) (sym (run-end r7))
      (steps_lem bits config c1 c2 c3 c4 c5 c6 c7 env b e1 e2 e3 e4 e5 e6 e7)
