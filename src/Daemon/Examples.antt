-- ===== src/Daemon/Examples.antt =====
-- The theorems on the daemon at concrete inputs.
use swbt_daemon.Common.{
  ℕ, ◌+◌, ◌<◌, ◌≡◌, ◌⊎◌, refl, true, false, Option, none, some, List, [], ◌∷◌, ◌++◌, arith,
}
use swbt_daemon.Common.Text.{Bytes, text}
use swbt_daemon.Domain.App.{create}
use swbt_daemon.Control.{Control}
use swbt_daemon.Ipc.Server
use swbt_daemon.Ipc.Server.{Server, ListenCalls, bind_control, listen}
use swbt_daemon.Daemon.Config
use swbt_daemon.Daemon.Config.{Config, ConfigEnv, apply_env}
use swbt_daemon.Daemon.Config.Bounds.{IsBounded, IsApplied}
use swbt_daemon.Daemon.Config.Outcome.{Wanted, apply_env-IsApplied}
use swbt_daemon.Daemon.Options
use swbt_daemon.Daemon.Options.{zero_options, parse, parse_arguments}
use swbt_daemon.Daemon.Options.Parse.{IsUsable, parse-IsUsable, joined-separate}
use swbt_daemon.Daemon.Launch.{ApplyFile, FileResult, prepare}
use swbt_daemon.Daemon.Launch.Prepare.{Outcome, default-IsBounded, prepare-Outcome}
use swbt_daemon.Daemon.IpcRunner
use swbt_daemon.Daemon.IpcRunner.{Runner, Poll, runner_of, default_config, start, start_with, stop}
use swbt_daemon.Daemon.IpcRunner.Clients.{IsFree, Holds}
use swbt_daemon.Daemon.IpcRunner.Rounds.{IsServing}
use swbt_daemon.Daemon.IpcRunner.Polls.{poll_all, poll_all-guarded}
use swbt_daemon.Common.Buffer.{Buffer}
use swbt_daemon.Daemon.SwitchAddress.{parse_bytes, format_bytes}
use swbt_daemon.Daemon.SwitchAddress.RoundTrip.{parse-format_bytes}

-- The address A0:A1:A2:A3:A4:A5.
abbrev address : Buffer
address i = 0xA0 + i

abbrev zeros : Buffer
zeros _ = 0

parse-format_bytes_example :
    let (valid, address') = parse_bytes (format_bytes address zeros) zeros in
    (valid ≡ true) × ((i : ℕ) → i < 6 → address' i ≡ 0xA0 + i)
parse-format_bytes_example = parse-format_bytes address zeros zeros (λ i h. omega arith)

-- A period of 5 milliseconds, a host, a port, a backlog and a profile.
abbrev env : ConfigEnv
env = record {
  report_period_us = some (text "5000");
  ipc_host = some (text "127.0.0.1");
  ipc_port = some (text "9000");
  ipc_backlog = some (text "4");
  ipc_heartbeat_timeout_ms = none;
  device_info_profile = some (text "swbt-pro");
}

apply_env-IsApplied_example :
    let (accepted, config') = apply_env 32 Config.default env in
    ((accepted ≡ false) × (config' ≡ Config.default) × (¬ Wanted 32 Config.default env))
    ⊎ ((accepted ≡ true) × IsApplied 32 Config.default env config' × IsBounded config')
apply_env-IsApplied_example = apply_env-IsApplied 32 Config.default env default-IsBounded

-- Arguments of which the third is refused.
abbrev arguments : List (Option Bytes)
arguments =
    some (text "--config=swbt.json")
    ∷ some (text "--adapter-location")
    ∷ some (text "libusb:3:1.4")
    ∷ some (text "--backend=none")
    ∷ []

parse-IsUsable_example : IsUsable (parse arguments).1
parse-IsUsable_example = parse-IsUsable arguments

joined-separate_example :
    parse_arguments zero_options
      (some (text "--adapter-location=" ++ text "libusb:3:1.4") ∷ arguments)
    ≡ parse_arguments zero_options
        (some (text "--adapter-location") ∷ some (text "libusb:3:1.4") ∷ arguments)
joined-separate_example =
    joined-separate Options.adapter_location (text "libusb:3:1.4") zero_options arguments

-- A file that sets the port.
abbrev port_file : ApplyFile
port_file config path = (FileResult.ok, record config { ipc_port = 9000 })

prepare-Outcome_example :
    Outcome 64 port_file
      (record zero_options { config_path = some (text "swbt.json") })
      env
      (prepare 64 port_file (record zero_options { config_path = some (text "swbt.json") }) env)
prepare-Outcome_example =
    prepare-Outcome 64 port_file (record zero_options { config_path = some (text "swbt.json") }) env
      (λ config path b. record {
        period = b.period;
        host = b.host;
        port = omega arith;
        backlog = b.backlog;
        timeout = b.timeout;
      })

-- A runner that was initialised, and the control layer of a fresh domain.
abbrev idle : Runner
idle =
    record (runner_of (record {
      listen_open = false;
      control = none;
      next_client_id = 1;
      bound_port = 0;
      listening = false;
    })) { config = default_config; initialized = true }

abbrev control : Control
control = record { app = create true; read_runtime_status = none; next_direct_sequence = 0 }

abbrev listens : ListenCalls
listens = record {
  created = true;
  reusable = true;
  bound = true;
  listens = true;
  named = true;
  port = 9000;
}

idle-starts : (start idle (some control) default_config listens).0 ≡ IpcRunner.ok
unfolding start start_with bind_control listen
idle-starts = refl

-- A client connects, asks for the controller, and its connection ends.
abbrev polls : List Poll
polls =
    record {
      now_ms = 10;
      ready = some true;
      accepted = true;
      send = λ offset remaining. some remaining;
      arrivals = [];
    }
    ∷ record {
      now_ms = 20;
      ready = some true;
      accepted = false;
      send = λ offset remaining. some remaining;
      arrivals = Server.byte b'{' ∷ Server.byte b'}' ∷ Server.byte 0x0A ∷ [];
    }
    ∷ record {
      now_ms = 30;
      ready = some true;
      accepted = false;
      send = λ offset remaining. some remaining;
      arrivals = Server.closed ∷ [];
    }
    ∷ []

poll_all-guarded_example :
    let after = poll_all (text "0.1") (start idle (some control) default_config listens).1 polls in
    IsServing after × Holds IsFree (stop after).1
poll_all-guarded_example =
    poll_all-guarded (text "0.1") idle control default_config listens polls refl refl idle-starts
