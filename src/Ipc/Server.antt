-- ===== src/Ipc/Server.antt =====
-- The server: swbt/ipc/ipc_server.h and ipc_server.c. Pointers to the server and to a connection
-- are not NULL. The operating system's sockets are parameters: what `select` and `recv` give is a
-- list of arrivals, what `send` accepts is a function, and each call that can fail is a Boolean.
-- Of a socket the model keeps whether it is open. `control` is what the server's pointer points to;
-- the default control layer is made by `init` and freed by `close`, and `bind_control` leaves it.
pub mod Serve
pub mod Lines
pub mod Splits
pub mod Runs
use swbt_daemon.Common.{
  ℕ, zero, suc, ◌+◌, ◌-◌, ◌^◌, Bool, true, false, ◌&&◌, ◌||◌, not, Option, none, some, List, [],
  ◌∷◌, ◌++◌, length, ltb, leb, ◌==◌, if◌then◌else◌, u32,
}
use swbt_daemon.Common.Int.{ℤ, pos, negsuc}
use swbt_daemon.Common.Text.{Bytes, text, same_text}
use swbt_daemon.Domain.App.{Domain, create}
use swbt_daemon.Control.{Control}
use swbt_daemon.Ipc.{JsonResult, json_line_max, json_response_max}
use swbt_daemon.Ipc.Adapter.{handle_line, handle_disconnect, handle_heartbeat_timeout}

-- `swbt_ipc_server_result_t`.
pub data ServerResult : Type 0 where
  ok invalid_argument socket unsupported_bind disconnected message_too_long heartbeat_timeout :
      ServerResult

-- `swbt_ipc_heartbeat_config_t`.
pub record HeartbeatConfig : Type 0 where
  pub now_ms : ℕ
  pub timeout_ms : ℕ

-- `swbt_ipc_connection_t`; the buffer holds the first `line_length` bytes of its array.
pub record Connection : Type 0 where
  pub socket_open : Bool
  pub client_id : ℕ
  pub line_buffer : Bytes
  pub last_heartbeat_ms : ℕ
  pub heartbeat_timeout_ms : ℕ
  pub heartbeat_enabled : Bool
  pub is_open : Bool

-- `swbt_ipc_server_t`.
pub record Server : Type 0 where
  pub listen_open : Bool
  pub control : Option Control
  pub next_client_id : ℕ
  pub bound_port : ℕ
  pub listening : Bool

-- What a round of the reader gets: `select` fails, nothing is there, `recv` fails or finds the
-- connection closed, or a byte arrives.
pub data Arrival : Type 0 where
  select_failed not_ready receive_failed closed : Arrival
  byte : ℕ → Arrival

-- `swbt_ipc_connection_configure_heartbeat`.
unfoldable pub configure_heartbeat : Connection → HeartbeatConfig → Connection
configure_heartbeat connection config = record connection {
  last_heartbeat_ms = config.now_ms;
  heartbeat_timeout_ms = config.timeout_ms;
  heartbeat_enabled = ltb 0 config.timeout_ms;
}

-- `swbt_ipc_connection_record_heartbeat`.
unfoldable pub record_heartbeat : Connection → ℕ → Connection
record_heartbeat connection now_ms =
    if connection.heartbeat_enabled
    then record connection { last_heartbeat_ms = now_ms }
    else connection

-- `swbt_ipc_connection_close`, and what `accept` writes first.
unfoldable pub close_connection : Connection → Connection
close_connection connection = record {
  socket_open = false;
  client_id = 0;
  line_buffer = [];
  last_heartbeat_ms = 0;
  heartbeat_timeout_ms = 0;
  heartbeat_enabled = false;
  is_open = false;
}

abbrev pub init_with : Option Domain → ServerResult × Server
init_with none = (
  socket,
  record {
    listen_open = false;
    control = none;
    next_client_id = 0;
    bound_port = 0;
    listening = false;
  },
)
init_with (some app) = (
  ok,
  record {
    listen_open = false;
    control =
        some (record { app = some app; read_runtime_status = none; next_direct_sequence = 0 });
    next_client_id = 1;
    bound_port = 0;
    listening = false;
  },
)

-- `swbt_ipc_server_init`; the argument says whether there is memory for the domain.
unfoldable pub init : Bool → ServerResult × Server
init memory = init_with (create memory)

-- `swbt_ipc_server_bind_control`.
unfoldable pub bind_control : Server → Option Control → ServerResult × Server
bind_control server none = (invalid_argument, server)
bind_control server (some control) =
    if server.listening
    then (invalid_argument, server)
    else (ok, record server { control = some control })

-- The calls of the operating system that `listen` makes, and the port that was bound.
pub record ListenCalls : Type 0 where
  pub created : Bool
  pub reusable : Bool
  pub bound : Bool
  pub listens : Bool
  pub named : Bool
  pub port : ℕ

-- `swbt_ipc_server_listen` with `options.host`, `options.backlog` and the outcomes of the calls.
unfoldable pub listen : Server → Option Bytes → ℤ → ListenCalls → ServerResult × Server
listen server none backlog calls = (invalid_argument, server)
listen server (some host) (negsuc n) calls = (invalid_argument, server)
listen server (some host) (pos backlog) calls =
    if backlog == 0
    then (invalid_argument, server)
    else if not (same_text host (text "127.0.0.1"))
    then (unsupported_bind, server)
    else if not calls.created
    then (socket, server)
    else if calls.reusable && calls.bound && calls.listens && calls.named
    then (ok, record server { listen_open = true; bound_port = calls.port; listening = true })
    else (socket, record server { listen_open = false })

-- `swbt_ipc_server_accept`; the last argument says whether `accept` gave a socket.
unfoldable pub accept : Server → Connection → Bool → ServerResult × Server × Connection
unfolding close_connection
accept server connection accepted =
    if not server.listening
    then (invalid_argument, server, connection)
    else (let blank = close_connection connection in
        if accepted
        then (
          ok,
          record server { next_client_id = u32 (server.next_client_id + 1) },
          record blank { socket_open = true; client_id = server.next_client_id; is_open = true },
        )
        else (socket, server, blank))

-- What a call of the reader leaves: its result, the connection, the line where it is complete, and
-- what has not been received yet.
pub record Reading : Type 0 where
  pub result : ServerResult
  pub connection : Connection
  pub line : Option Bytes
  pub rest : List Arrival

abbrev pub stopped_reading : ServerResult → Connection → List Arrival → Reading
stopped_reading result connection rest = record {
  result = result;
  connection = connection;
  line = none;
  rest = rest;
}

-- A byte behind those that were read: the line is too long, complete, or goes on.
abbrev pub read_byte : Connection → Bytes → ℕ → List Arrival → (Bytes → Reading) → Reading
read_byte connection read c rest rounds =
    if leb (json_line_max + 1) (length read + 1)
    then stopped_reading message_too_long (record connection { line_buffer = [] }) rest
    else if c == 0x0A
    then record {
      result = ok;
      connection = record connection { line_buffer = [] };
      line = some (read ++ c ∷ []);
      rest = rest;
    }
    else rounds (read ++ c ∷ [])

-- The loop of `swbt_ipc_read_line` behind what was read. Once nothing more arrives it is not ready.
-- Where `recv` fails, the bytes of this call are lost with the connection.
unfoldable pub read_loop : Connection → Bytes → List Arrival → Reading
read_loop connection read [] = stopped_reading ok (record connection { line_buffer = read }) []
read_loop connection read (not_ready ∷ rest) =
    stopped_reading ok (record connection { line_buffer = read }) rest
read_loop connection read (select_failed ∷ rest) = stopped_reading socket connection rest
read_loop connection read (receive_failed ∷ rest) = stopped_reading socket connection rest
read_loop connection read (closed ∷ rest) = stopped_reading disconnected connection rest
read_loop connection read (byte c ∷ rest) =
    read_byte connection read c rest (λ read'. read_loop connection read' rest)

-- `swbt_ipc_read_line` with the server's buffer of 8193 bytes.
unfoldable pub read_line : Connection → List Arrival → Reading
unfolding read_loop
read_line connection arrivals =
    if connection.is_open && connection.socket_open
    then read_loop connection connection.line_buffer arrivals
    else stopped_reading invalid_argument connection arrivals

-- What `send` accepts of the bytes that remain, from an offset on: their number, or `none` where it
-- fails or accepts nothing.
abbrev pub Send : Type 0
Send = ℕ → ℕ → Option ℕ

-- `swbt_ipc_socket_send_all` from an offset on. Each round sends at least one byte, so the number
-- of those that remain is fuel enough.
unfoldable pub send_from : ℕ → Send → ℕ → ℕ → ServerResult
send_from zero send offset remaining = ok
send_from (suc fuel) send offset zero = ok
send_from (suc fuel) send offset (suc remaining) = elim (send offset (suc remaining)) [
  | none ↦ socket
  | some zero ↦ socket
  | some (suc sent) ↦ send_from fuel send (offset + suc sent) (remaining - sent)
]

unfoldable pub send_all : Connection → Send → Bytes → ServerResult
unfolding send_from
send_all connection send message =
    if connection.socket_open
    then send_from (length message) send 0 (length message)
    else invalid_argument

-- The C string that an array of bytes holds.
abbrev pub c_string : Bytes → Bytes
c_string [] = []
c_string (c ∷ cs) = if c == 0 then [] else c ∷ c_string cs
