-- ===== src/Daemon/IpcRunner.antt =====
-- The runner of the IPC server: swbt/daemon/ipc_runner.h and ipc_runner.c, which drives the server
-- of swbt/ipc/ipc_server.c with one connection at a time. Pointers to the runner are not NULL. The
-- server's pointer to the control layer is what it points to; `stop` gives that back, since the
-- server drops its pointer there. What the operating system answers are arguments.
pub mod Clients
pub mod Rounds
pub mod Polls
use swbt_daemon.Common.{
  ℕ, zero, suc, Bool, true, false, ◌&&◌, ◌||◌, not, Option, none, some, List, [], ◌∷◌, ◌==◌,
  if◌then◌else◌,
}
use swbt_daemon.Common.Int.{ℤ, pos, negsuc}
use swbt_daemon.Common.Text.{Bytes, text}
use swbt_daemon.Control.{Control}
use swbt_daemon.Ipc.Adapter.{handle_disconnect, handle_shutdown}
use swbt_daemon.Ipc.Server
use swbt_daemon.Ipc.Server.{
  Server, ServerResult, Connection, Arrival, Send, ListenCalls, bind_control, listen, accept,
  configure_heartbeat, close_connection,
}
use swbt_daemon.Ipc.Server.Serve
use swbt_daemon.Ipc.Server.Serve.{
  Round, serve_connection_once, check_heartbeat, has_pending_connection, has_pending_data,
}
use swbt_daemon.Daemon.Config.{Config}

-- `swbt_daemon_ipc_runner_result_t`.
pub data RunnerResult : Type 0 where
  ok invalid_argument socket unsupported_bind disconnected not_running : RunnerResult

-- `swbt_daemon_ipc_runner_config_t`.
pub record RunnerConfig : Type 0 where
  pub host : Option Bytes
  pub port : ℕ
  pub backlog : ℤ
  pub heartbeat_timeout_ms : ℕ

-- `swbt_daemon_ipc_endpoint_t`.
pub record Endpoint : Type 0 where
  pub host : Bytes
  pub port : ℕ
  pub bound : Bool

-- `swbt_daemon_ipc_runner_t`.
pub record Runner : Type 0 where
  pub server : Server
  pub connection : Connection
  pub config : RunnerConfig
  pub endpoint : Endpoint
  pub initialized : Bool
  pub running : Bool
  pub has_connection : Bool

-- `swbt_daemon_ipc_runner_map_server_result`.
unfoldable pub map_server_result : ServerResult → RunnerResult
map_server_result Server.ok = ok
map_server_result Server.unsupported_bind = unsupported_bind
map_server_result Server.disconnected = disconnected
map_server_result Server.invalid_argument = invalid_argument
map_server_result Server.socket = socket
map_server_result Server.message_too_long = socket
map_server_result Server.heartbeat_timeout = socket

-- `swbt_daemon_ipc_runner_clear_endpoint`; of the host its first byte.
abbrev pub cleared : Endpoint
cleared = record { host = []; port = 0; bound = false }

-- The loop of `swbt_daemon_ipc_runner_copy_host`, for the places that are left.
unfoldable pub copy_host : ℕ → Bytes → Bytes
copy_host places [] = []
copy_host zero (c ∷ host) = []
copy_host (suc places) (c ∷ host) = c ∷ copy_host places host

-- `swbt_daemon_ipc_runner_config_from_daemon_config`.
unfoldable pub config_from_daemon_config : Option Config → RunnerConfig
config_from_daemon_config none = record {
  host = none;
  port = 0;
  backlog = pos 0;
  heartbeat_timeout_ms = 0;
}
config_from_daemon_config (some config) = record {
  host = some config.ipc_host;
  port = config.ipc_port;
  backlog = config.ipc_backlog;
  heartbeat_timeout_ms = config.ipc_heartbeat_timeout_ms;
}

-- A runner of the server that was initialised.
abbrev pub runner_of : Server → Runner
runner_of server = record {
  server = server;
  connection = record {
    socket_open = false;
    client_id = 0;
    line_buffer = [];
    last_heartbeat_ms = 0;
    heartbeat_timeout_ms = 0;
    heartbeat_enabled = false;
    is_open = false;
  };
  config = record { host = none; port = 0; backlog = pos 0; heartbeat_timeout_ms = 0 };
  endpoint = cleared;
  initialized = false;
  running = false;
  has_connection = false;
}

abbrev pub default_config : RunnerConfig
default_config = record {
  host = some (text "127.0.0.1");
  port = 0;
  backlog = pos 1;
  heartbeat_timeout_ms = 0;
}

abbrev pub init_with : ServerResult × Server → RunnerResult × Runner
init_with (Server.ok, server) =
    (ok, record (runner_of server) { config = default_config; initialized = true })
init_with (other, server) = (socket, runner_of server)

-- `swbt_daemon_ipc_runner_init`; the argument says whether there is memory for the server.
unfoldable pub init : Bool → RunnerResult × Runner
init memory = init_with (Server.init memory)

-- The end of `start`, behind the answer of `listen`.
abbrev pub after_listen :
    Runner → RunnerConfig → Bytes → ServerResult × Server → RunnerResult × Runner
after_listen runner config host (Server.ok, server) = (
  ok,
  record runner {
    server = server;
    config = config;
    endpoint = record {
      host = copy_host 15 host;
      port = server.bound_port;
      bound = not (server.bound_port == 0);
    };
    running = true;
    has_connection = false;
  },
)
after_listen runner config host (other, server) =
    (map_server_result other, record runner { server = Serve.close server })

abbrev pub after_bind :
    Runner → RunnerConfig → Bytes → ListenCalls → ServerResult × Server → RunnerResult × Runner
after_bind runner config host calls (Server.ok, server) =
    after_listen runner config host (listen server (some host) config.backlog calls)
after_bind runner config host calls (other, server) =
    (map_server_result other, record runner { server = server })

-- The test of the backlog.
abbrev pub is_positive : ℤ → Bool
is_positive (pos n) = not (n == 0)
is_positive (negsuc n) = false

-- `start` with the host of its configuration.
unfoldable pub start_with :
    Runner → Option Control → RunnerConfig → Option Bytes → ListenCalls → RunnerResult × Runner
start_with runner none config host calls = (invalid_argument, runner)
start_with runner (some control) config none calls = (invalid_argument, runner)
start_with runner (some control) config (some host) calls =
    if not (is_positive config.backlog) || not runner.initialized
    then (invalid_argument, runner)
    else if runner.running
    then (ok, runner)
    else after_bind runner config host calls (bind_control runner.server (some control))

-- `swbt_daemon_ipc_runner_start` with a configuration; `control` is `none` for NULL.
unfoldable pub start : Runner → Option Control → RunnerConfig → ListenCalls → RunnerResult × Runner
unfolding start_with
start runner control config calls = start_with runner control config config.host calls

-- `swbt_daemon_ipc_runner_endpoint`.
unfoldable pub endpoint_of : Runner → Option Endpoint → RunnerResult × Option Endpoint
endpoint_of runner none = (invalid_argument, none)
endpoint_of runner (some before) =
    if runner.initialized then (ok, some runner.endpoint) else (invalid_argument, some before)

abbrev pub after_accept : Runner → ℕ → ServerResult × Server × Connection → RunnerResult × Runner
after_accept runner now_ms (Server.ok, server, connection) = (
  ok,
  record runner {
    server = server;
    connection =
        configure_heartbeat connection
          (record { now_ms = now_ms; timeout_ms = runner.config.heartbeat_timeout_ms });
    has_connection = true;
  },
)
after_accept runner now_ms (other, server, connection) =
    (map_server_result other, record runner { server = server; connection = connection })

-- `swbt_daemon_ipc_runner_accept_at`; the last argument says whether `accept` gave a socket.
unfoldable pub accept_at : Runner → ℕ → Bool → RunnerResult × Runner
accept_at runner now_ms accepted =
    if not runner.running
    then (not_running, runner)
    else if runner.has_connection
    then (invalid_argument, runner)
    else after_accept runner now_ms (accept runner.server runner.connection accepted)

-- `swbt_daemon_ipc_runner_accept`.
abbrev pub accept_once : Runner → Bool → RunnerResult × Runner
accept_once runner accepted = accept_at runner 0 accepted

-- The runner after a round of the server, and after one that ended the connection.
abbrev pub keeps : Runner → Round → Runner
keeps runner round = record runner { server = round.server; connection = round.connection }

abbrev pub drops : Runner → Round → Runner
drops runner round = record runner {
  server = round.server;
  connection = close_connection round.connection;
  has_connection = false;
}

abbrev pub after_round : Runner → ServerResult → Round → Runner
after_round runner Server.disconnected round = drops runner round
after_round runner Server.message_too_long round = drops runner round
after_round runner other round = keeps runner round

-- `swbt_daemon_ipc_runner_serve_connection_once_at`, and without a time
-- `swbt_daemon_ipc_runner_serve_connection_once`. The version string is that of the build.
unfoldable pub serve_once : Bytes → Runner → Option ℕ → Send → List Arrival → RunnerResult × Runner
serve_once version runner now_ms send arrivals =
    if not runner.running
    then (not_running, runner)
    else if not runner.has_connection
    then (invalid_argument, runner)
    else (let round =
          serve_connection_once version runner.server runner.connection now_ms send arrivals in
        (map_server_result round.result, after_round runner round.result round))

abbrev pub after_check : Runner → ServerResult × Server → RunnerResult × Runner
after_check runner (Server.heartbeat_timeout, server) = (
  ok,
  record runner {
    server = server;
    connection = close_connection runner.connection;
    has_connection = false;
  },
)
after_check runner (other, server) = (map_server_result other, record runner { server = server })

-- `swbt_daemon_ipc_runner_check_heartbeat`.
unfoldable pub check_runner : Runner → ℕ → RunnerResult × Runner
check_runner runner now_ms =
    after_check runner (check_heartbeat runner.server runner.connection now_ms)

-- What a poll meets: the time, what `select` and `accept` answer, and what arrives.
pub record Poll : Type 0 where
  pub now_ms : ℕ
  pub ready : Option Bool
  pub accepted : Bool
  pub send : Send
  pub arrivals : List Arrival

-- What is done when the test for something pending has answered.
abbrev pub poll_listening : Runner → Poll → ServerResult × Bool → RunnerResult × Runner
poll_listening runner poll (Server.ok, pending) =
    if not pending then (ok, runner) else accept_at runner poll.now_ms poll.accepted
poll_listening runner poll (other, pending) = (map_server_result other, runner)

abbrev pub poll_connected : Bytes → Runner → Poll → ServerResult × Bool → RunnerResult × Runner
poll_connected version runner poll (Server.ok, pending) =
    if not pending
    then check_runner runner poll.now_ms
    else serve_once version runner (some poll.now_ms) poll.send poll.arrivals
poll_connected version runner poll (other, pending) = (map_server_result other, runner)

-- `swbt_daemon_ipc_runner_poll_once_at`; at the time 0 it is `swbt_daemon_ipc_runner_poll_once`.
unfoldable pub poll_once_at : Bytes → Runner → Poll → RunnerResult × Runner
poll_once_at version runner poll =
    if not runner.running
    then (not_running, runner)
    else if not runner.has_connection
    then poll_listening runner poll (has_pending_connection runner.server poll.ready)
    else poll_connected version runner poll (has_pending_data runner.connection poll.ready)

-- The control layer when the runner tells it that it ends.
unfoldable pub told : Runner → Option Control
unfolding handle_disconnect handle_shutdown
told runner =
    if runner.has_connection
    then (handle_disconnect runner.server.control runner.connection.client_id).1
    else elim runner.server.control [
      | none ↦ none
      | some control ↦ (handle_shutdown (some control)).1
    ]

abbrev pub disconnect_runner : Runner → Runner
disconnect_runner runner =
    if runner.has_connection
    then record runner { connection = close_connection runner.connection; has_connection = false }
    else runner

-- `swbt_daemon_ipc_runner_stop`: the runner, and the control layer of its server.
unfoldable pub stop : Runner → Runner × Option Control
stop runner =
    if not runner.initialized
    then (runner, runner.server.control)
    else if not runner.running && not runner.has_connection
    then (record runner { endpoint = cleared }, runner.server.control)
    else (
      record (disconnect_runner runner) {
        server = Serve.close runner.server;
        endpoint = cleared;
        running = false;
      },
      told runner,
    )

-- `swbt_daemon_ipc_runner_backend_start`.
unfoldable pub backend_start : Runner → Option Control → ListenCalls → Bool × Runner
backend_start runner control calls =
    let (result, started) = start runner control runner.config calls in
    elim result [ ok ↦ (true, started) | _ ↦ (false, started) ]
