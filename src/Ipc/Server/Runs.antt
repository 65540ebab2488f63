-- ===== src/Ipc/Server/Runs.antt =====
-- What any rounds of the server do to the control layer: swbt/ipc/ipc_server.c.
use swbt_daemon.Common.{
  Bool, ℕ, ◌≡◌, refl, ◌∙◌, not, Option, none, some, List, [], ◌∷◌, ◌++◌, ltb, ◌-◌, if_both, All,
  length, leb, ◌+◌, ◌==◌, ◌&&◌,
}
use swbt_daemon.Common.Text.{Bytes}
use swbt_daemon.Control.{Control}
use swbt_daemon.Ipc.{json_line_max, json_response_max}
use swbt_daemon.Ipc.Adapter.Sessions.{Event, stopped, line, disconnected, timed_out, handle_all}
use swbt_daemon.Ipc.Server.{
  Server, ServerResult, Connection, Arrival, Reading, Send, init, accept, read_loop, read_line,
  record_heartbeat, c_string,
}
use swbt_daemon.Ipc.Server
use swbt_daemon.Ipc.Server.Serve.{
  Round, alive_at, serve_line, after_reading, after_line, serve_connection_once, check_heartbeat,
}

-- An event of a client.
abbrev pub IsOf : ℕ → Event → Type 0
IsOf client (line c text size) = c ≡ client
IsOf client (disconnected c) = c ≡ client
IsOf client (timed_out c) = c ≡ client
IsOf client stopped = ⊥

-- The control layer is what some events of the client left of the one before.
abbrev pub ByEvents : Bytes → ℕ → Option Control → Option Control → Type 0
ByEvents version client before after =
    (es : List Event) × (after ≡ handle_all version before es) × All (IsOf client) es

read_loop-client_id :
    (connection : Connection) (read : Bytes) (arrivals : List Arrival)
    → (read_loop connection read arrivals).connection.client_id ≡ connection.client_id
unfolding read_loop
read_loop-client_id connection read [] = refl
read_loop-client_id connection read (Server.not_ready ∷ rest) = refl
read_loop-client_id connection read (Server.select_failed ∷ rest) = refl
read_loop-client_id connection read (Server.receive_failed ∷ rest) = refl
read_loop-client_id connection read (Server.closed ∷ rest) = refl
read_loop-client_id connection read (Server.byte c ∷ rest) =
    if_both (λ (r : Reading). r.connection.client_id ≡ connection.client_id)
      (leb (json_line_max + 1) (length read + 1)) refl
      (if_both (λ (r : Reading). r.connection.client_id ≡ connection.client_id) (c == 0x0A) refl
        (read_loop-client_id connection (read ++ c ∷ []) rest))

pub read_line-client_id :
    (connection : Connection) (arrivals : List Arrival)
    → (read_line connection arrivals).connection.client_id ≡ connection.client_id
unfolding read_line
read_line-client_id connection arrivals =
    if_both (λ (r : Reading). r.connection.client_id ≡ connection.client_id)
      (connection.is_open && connection.socket_open)
      (read_loop-client_id connection connection.line_buffer arrivals) refl

pub alive_at-client_id :
    (connection : Connection) (now_ms : Option ℕ)
    → (alive_at connection now_ms).client_id ≡ connection.client_id
unfolding alive_at record_heartbeat
alive_at-client_id connection none = refl
alive_at-client_id connection (some now_ms) =
    if_both (λ (c : Connection). c.client_id ≡ connection.client_id) connection.heartbeat_enabled
      refl refl

pub after_reading-ByEvents :
    (version : Bytes) (server : Server) (now_ms : Option ℕ) (send : Send) (client : ℕ)
    (result : ServerResult) (r : Reading)
    → r.connection.client_id ≡ client
    → ByEvents version client server.control
        (after_reading version server now_ms send result r).server.control
unfolding serve_line
after_reading-ByEvents version server now_ms send client Server.disconnected r e =
    (disconnected r.connection.client_id ∷ [], refl, (e, tt))
after_reading-ByEvents version server now_ms send client Server.socket r e =
    (disconnected r.connection.client_id ∷ [], refl, (e, tt))
after_reading-ByEvents version server now_ms send client Server.message_too_long r e =
    (disconnected r.connection.client_id ∷ [], refl, (e, tt))
after_reading-ByEvents version server now_ms send client Server.ok r e = by_line r.line
  where
    by_line :
        (o : Option Bytes)
        → ByEvents version client server.control
            (after_line version server now_ms send r o).server.control
    by_line none = ([], refl, tt)
    by_line (some text) = (
      line (alive_at r.connection now_ms).client_id (c_string text) json_response_max ∷ [],
      refl,
      (alive_at-client_id r.connection now_ms ∙ e, tt),
    )
after_reading-ByEvents version server now_ms send client Server.invalid_argument r e =
    ([], refl, tt)
after_reading-ByEvents version server now_ms send client Server.unsupported_bind r e =
    ([], refl, tt)
after_reading-ByEvents version server now_ms send client Server.heartbeat_timeout r e =
    ([], refl, tt)

-- A round for a connection, whatever arrives and whatever the calls of the operating system give,
-- does to the control layer what some events of that connection's client do.
pub serve-ByEvents :
    (version : Bytes) (server : Server) (connection : Connection) (now_ms : Option ℕ) (send : Send)
    (arrivals : List Arrival)
    → ByEvents version connection.client_id server.control
        (serve_connection_once version server connection now_ms send arrivals).server.control
unfolding serve_connection_once
serve-ByEvents version server connection now_ms send arrivals =
    let reading = read_line connection arrivals in
    if_both (λ (r : Round). ByEvents version connection.client_id server.control r.server.control)
      connection.is_open
      (after_reading-ByEvents version server now_ms send connection.client_id reading.result reading
        (read_line-client_id connection arrivals))
      ([], refl, tt)

-- A check of the heartbeat does to the control layer nothing, or what the timeout of that
-- connection's client does.
pub check_heartbeat-ByEvents :
    (version : Bytes) (server : Server) (connection : Connection) (now_ms : ℕ)
    → ByEvents version connection.client_id server.control
        (check_heartbeat server connection now_ms).1.control
unfolding check_heartbeat
check_heartbeat-ByEvents version server connection now_ms =
    let Q = λ (r : ServerResult × Server).
      ByEvents version connection.client_id server.control r.1.control in
    if_both Q (not connection.heartbeat_enabled) ([], refl, tt)
      (if_both Q (ltb now_ms connection.last_heartbeat_ms) ([], refl, tt)
        (if_both Q (ltb (now_ms - connection.last_heartbeat_ms) connection.heartbeat_timeout_ms)
          ([], refl, tt) (timed_out connection.client_id ∷ [], refl, (refl, tt))))

pub accept-control :
    (server : Server) (connection : Connection) (accepted : Bool)
    → (accept server connection accepted).1.control ≡ server.control
unfolding accept
accept-control server connection accepted =
    let Q = λ (r : ServerResult × Server × Connection). r.1.control ≡ server.control in
    if_both Q (not server.listening) refl (if_both Q accepted refl refl)
