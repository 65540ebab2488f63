-- ===== src/Ipc/Server/Serve.antt =====
-- A round of the server for one connection: swbt/ipc/ipc_server.c.
use swbt_daemon.Common.{
  ℕ, ◌-◌, Bool, true, false, not, Option, none, some, List, [], ◌∷◌, ltb, if◌then◌else◌,
}
use swbt_daemon.Common.Text.{Bytes}
use swbt_daemon.Ipc.{JsonResult, json_response_max}
use swbt_daemon.Ipc.Adapter.{handle_line, handle_disconnect, handle_heartbeat_timeout}
use swbt_daemon.Ipc.Server.{
  Server, ServerResult, ok, invalid_argument, socket, disconnected, message_too_long,
  heartbeat_timeout, Connection, Arrival, Reading, Send, record_heartbeat, close_connection,
  read_line, send_all, c_string,
}

-- What a round leaves: its result, the server, the connection, what has not been received yet and
-- the text that was handed to `send`.
pub record Round : Type 0 where
  pub result : ServerResult
  pub server : Server
  pub connection : Connection
  pub rest : List Arrival
  pub response : Bytes

-- The end of a client.
abbrev pub dropped : ServerResult → Server → ℕ → Connection → List Arrival → Round
dropped result server client_id connection rest = record {
  result = result;
  server = record server { control = (handle_disconnect server.control client_id).1 };
  connection = connection;
  rest = rest;
  response = [];
}

abbrev pub unchanged : ServerResult → Server → Connection → List Arrival → Round
unchanged result server connection rest = record {
  result = result;
  server = server;
  connection = connection;
  rest = rest;
  response = [];
}

-- The result of sending a response, of which an empty one is not sent.
abbrev pub sent : JsonResult → Connection → Send → Bytes → ServerResult
sent JsonResult.ok connection send [] = ok
sent JsonResult.ok connection send (c ∷ cs) = send_all connection send (c ∷ cs)
sent _ connection send response = socket

-- The heartbeat is recorded, where a time is given.
unfoldable pub alive_at : Connection → Option ℕ → Connection
unfolding record_heartbeat
alive_at connection none = connection
alive_at connection (some now_ms) = record_heartbeat connection now_ms

-- A complete line is handled.
unfoldable pub serve_line :
    Bytes → Server → Connection → Option ℕ → Send → Bytes → List Arrival → Round
unfolding alive_at handle_line send_all
serve_line version server connection now_ms send line rest =
    let alive = alive_at connection now_ms in
    let (result, response, control) =
      handle_line version server.control alive.client_id (c_string line) json_response_max in
    record {
      result = sent result alive send response;
      server = record server { control = control };
      connection = alive;
      rest = rest;
      response = response;
    }

abbrev pub after_line : Bytes → Server → Option ℕ → Send → Reading → Option Bytes → Round
after_line version server now_ms send r none = unchanged ok server r.connection r.rest
after_line version server now_ms send r (some line) =
    serve_line version server r.connection now_ms send line r.rest

abbrev pub after_reading : Bytes → Server → Option ℕ → Send → ServerResult → Reading → Round
after_reading version server now_ms send disconnected r =
    dropped disconnected server (r.connection.client_id) r.connection r.rest
after_reading version server now_ms send socket r =
    dropped disconnected server (r.connection.client_id) r.connection r.rest
after_reading version server now_ms send message_too_long r =
    dropped message_too_long server (r.connection.client_id) (close_connection r.connection) r.rest
after_reading version server now_ms send ok r = after_line version server now_ms send r r.line
after_reading version server now_ms send result r = unchanged result server r.connection r.rest

-- `swbt_ipc_server_serve_connection_once_internal`: `now_ms` is `none` where the heartbeat is not
-- updated. The version string is that of the build.
unfoldable pub serve_connection_once :
    Bytes → Server → Connection → Option ℕ → Send → List Arrival → Round
unfolding read_line handle_disconnect close_connection serve_line
serve_connection_once version server connection now_ms send arrivals =
    if connection.is_open
    then (let reading = read_line connection arrivals in
        after_reading version server now_ms send reading.result reading)
    else unchanged invalid_argument server connection arrivals

-- `swbt_ipc_server_check_heartbeat`.
unfoldable pub check_heartbeat : Server → Connection → ℕ → ServerResult × Server
unfolding handle_heartbeat_timeout
check_heartbeat server connection now_ms =
    if not connection.heartbeat_enabled
    then (ok, server)
    else if ltb now_ms connection.last_heartbeat_ms
    then (ok, server)
    else if ltb (now_ms - connection.last_heartbeat_ms) connection.heartbeat_timeout_ms
    then (ok, server)
    else (
      heartbeat_timeout,
      record server { control = (handle_heartbeat_timeout server.control connection.client_id).1 },
    )

-- `swbt_ipc_server_close`.
unfoldable pub close : Server → Server
close server = record server {
  listen_open = false;
  control = none;
  bound_port = 0;
  listening = false;
}

-- `swbt_ipc_socket_can_receive` of a socket that is open or not: `none` where `select` fails, else
-- whether there is something to receive. What it writes is false before.
abbrev pub can_receive : Bool → Option Bool → ServerResult × Bool
can_receive false ready = (invalid_argument, false)
can_receive true none = (socket, false)
can_receive true (some ready) = (ok, ready)

-- `swbt_ipc_server_has_pending_connection`.
unfoldable pub has_pending_connection : Server → Option Bool → ServerResult × Bool
has_pending_connection server ready =
    if server.listening then can_receive server.listen_open ready else (invalid_argument, false)

-- `swbt_ipc_connection_has_pending_data`.
unfoldable pub has_pending_data : Connection → Option Bool → ServerResult × Bool
has_pending_data connection ready =
    if connection.is_open
    then can_receive connection.socket_open ready
    else (invalid_argument, false)
