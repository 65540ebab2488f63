-- ===== src/Daemon/IpcRunner/Polls.antt =====
-- What the runner's polls and its stop do to the controller: swbt/daemon/ipc_runner.c on top of
-- swbt/ipc/ipc_server.c.
use swbt_daemon.Common.{
  ℕ, ◌≡◌, refl, sym, subst, inl, Bool, true, false, ◌||◌, ◌&&◌, not, if_known, if_both, Option,
  none, some, List, [], ◌∷◌, ◌==◌, arith,
}
use swbt_daemon.Common.Int.{ℤ, pos, negsuc}
use swbt_daemon.Common.Text.{Bytes, text, same_text}
use swbt_daemon.Domain.App.{Domain, create}
use swbt_daemon.Control.{Control}
use swbt_daemon.Ipc.Adapter.{handle_shutdown}
use swbt_daemon.Ipc.Server
use swbt_daemon.Ipc.Server.{
  Server, ServerResult, Connection, Arrival, Reading, Send, ListenCalls, bind_control, listen,
  accept, send_from, send_all, read_line, c_string, configure_heartbeat,
}
use swbt_daemon.Ipc.Server.Serve.{has_pending_connection, has_pending_data}
use swbt_daemon.Ipc.Server.Runs.{accept-control}
use swbt_daemon.Daemon.IpcRunner.{
  Runner, RunnerResult, ok, RunnerConfig, Poll, map_server_result, start, start_with, after_bind,
  after_listen, is_positive, accept_at, after_accept, poll_listening, poll_connected, poll_once_at,
  told, stop,
}
use swbt_daemon.Daemon.IpcRunner.Clients.{
  Only, IsFree, HoldsApp, Holds, disconnected_frees, stopped_frees, fresh-Holds,
}
use swbt_daemon.Daemon.IpcRunner.Rounds.{
  Guarded, IsServing, serve_once-IsServing, check_runner-IsServing,
}

free-Only :
    (client : ℕ) (control : Option Control) → Holds IsFree control → Holds (Only client) control
free-Only client none h = absurd h
free-Only client (some control) h = by_app control.app h
  where
    by_app : (app : Option Domain) → HoldsApp IsFree app → HoldsApp (Only client) app
    by_app none h' = absurd h'
    by_app (some app) (e, valid) = (inl e, valid)

unconnected :
    (runner : Runner) (server : Server) (connection : Connection)
    → runner.initialized ≡ true
    → runner.running ≡ true
    → runner.has_connection ≡ false
    → Holds IsFree server.control
    → IsServing (record runner { server = server; connection = connection })
unconnected runner server connection i u d h = record {
  ready = i;
  runs = u;
  guarded = subst (λ b. Guarded b connection.client_id server.control) (sym d) h;
}

after_accept-IsServing :
    (runner : Runner) (now_ms : ℕ) (result : ServerResult) (server : Server)
    (connection : Connection)
    → runner.initialized ≡ true
    → runner.running ≡ true
    → runner.has_connection ≡ false
    → Holds IsFree server.control
    → IsServing (after_accept runner now_ms (result, server, connection)).1
after_accept-IsServing runner now_ms result server connection i u d h = by_result result
  where
    by_result :
        (result' : ServerResult)
        → IsServing (after_accept runner now_ms (result', server, connection)).1
    by_result Server.ok = record {
      ready = i;
      runs = u;
      guarded =
          free-Only
            (configure_heartbeat connection (record {
              now_ms = now_ms;
              timeout_ms = runner.config.heartbeat_timeout_ms;
            })).client_id
            server.control h;
    }
    by_result Server.invalid_argument = unconnected runner server connection i u d h
    by_result Server.socket = unconnected runner server connection i u d h
    by_result Server.unsupported_bind = unconnected runner server connection i u d h
    by_result Server.disconnected = unconnected runner server connection i u d h
    by_result Server.message_too_long = unconnected runner server connection i u d h
    by_result Server.heartbeat_timeout = unconnected runner server connection i u d h

accept_at-IsServing :
    (runner : Runner) (now_ms : ℕ) (accepted : Bool)
    → IsServing runner
    → IsServing (accept_at runner now_ms accepted).1
unfolding accept_at
accept_at-IsServing runner now_ms accepted s =
    let Q = λ (r : RunnerResult × Runner). IsServing r.1 in
    let answer = accept runner.server runner.connection accepted in
    if_both Q (not runner.running) s (
      if_known Q runner.has_connection (λ _. s)
        (λ d. after_accept-IsServing runner now_ms answer.0 answer.1 answer.2 s.ready s.runs d (
          subst (Holds IsFree) (sym (accept-control runner.server runner.connection accepted)) (
            subst (λ b. Guarded b runner.connection.client_id runner.server.control) d s.guarded))))

-- The runner after polls, one after the other.
abbrev pub poll_all : Bytes → Runner → List Poll → Runner
poll_all version runner [] = runner
poll_all version runner (poll ∷ later) = poll_all version (poll_once_at version runner poll).1 later

poll_listening-IsServing :
    (runner : Runner) (poll : Poll) (answer : ServerResult × Bool)
    → IsServing runner
    → IsServing (poll_listening runner poll answer).1
poll_listening-IsServing runner poll (Server.ok, pending) s =
    if_both (λ (r : RunnerResult × Runner). IsServing r.1) (not pending) s
      (accept_at-IsServing runner poll.now_ms poll.accepted s)
poll_listening-IsServing runner poll (Server.invalid_argument, pending) s = s
poll_listening-IsServing runner poll (Server.socket, pending) s = s
poll_listening-IsServing runner poll (Server.unsupported_bind, pending) s = s
poll_listening-IsServing runner poll (Server.disconnected, pending) s = s
poll_listening-IsServing runner poll (Server.message_too_long, pending) s = s
poll_listening-IsServing runner poll (Server.heartbeat_timeout, pending) s = s

poll_connected-IsServing :
    (version : Bytes) (runner : Runner) (poll : Poll) (answer : ServerResult × Bool)
    → IsServing runner
    → runner.has_connection ≡ true
    → IsServing (poll_connected version runner poll answer).1
poll_connected-IsServing version runner poll (Server.ok, pending) s c =
    if_both (λ (r : RunnerResult × Runner). IsServing r.1) (not pending)
      (check_runner-IsServing runner poll.now_ms s c)
      (serve_once-IsServing version runner (some poll.now_ms) poll.send poll.arrivals s)
poll_connected-IsServing version runner poll (Server.invalid_argument, pending) s c = s
poll_connected-IsServing version runner poll (Server.socket, pending) s c = s
poll_connected-IsServing version runner poll (Server.unsupported_bind, pending) s c = s
poll_connected-IsServing version runner poll (Server.disconnected, pending) s c = s
poll_connected-IsServing version runner poll (Server.message_too_long, pending) s c = s
poll_connected-IsServing version runner poll (Server.heartbeat_timeout, pending) s c = s

poll_once_at-IsServing :
    (version : Bytes) (runner : Runner) (poll : Poll)
    → IsServing runner
    → IsServing (poll_once_at version runner poll).1
unfolding poll_once_at
poll_once_at-IsServing version runner poll s =
    let Q = λ (r : RunnerResult × Runner). IsServing r.1 in
    if_both Q (not runner.running) s (
      if_known Q (not runner.has_connection)
        (λ _.
          poll_listening-IsServing runner poll (has_pending_connection runner.server poll.ready) s)
        (λ d.
          poll_connected-IsServing version runner poll
            (has_pending_data runner.connection poll.ready) s (ground arith)))

poll_all-IsServing :
    (version : Bytes) (runner : Runner) (polls : List Poll)
    → IsServing runner
    → IsServing (poll_all version runner polls)
poll_all-IsServing version runner [] s = s
poll_all-IsServing version runner (poll ∷ later) s =
    poll_all-IsServing version (poll_once_at version runner poll).1 later
      (poll_once_at-IsServing version runner poll s)

stop-IsFree : (runner : Runner) → IsServing runner → Holds IsFree (stop runner).1
unfolding stop told
stop-IsFree runner s =
    let Q = λ (r : Runner × Option Control). Holds IsFree r.1 in
    let control = runner.server.control in
    let client = runner.connection.client_id in
    if_known Q (not runner.initialized) (λ i. ground (arith, s.ready))
      (λ _.
        if_known Q (not runner.running && not runner.has_connection) (λ u. ground (arith, s.runs))
          (λ _.
            if_known (Holds IsFree) runner.has_connection
              (λ c.
                disconnected_frees [] client control
                  (subst (λ b. Guarded b client control) c s.guarded))
              (λ d. by_control control (subst (λ b. Guarded b client control) d s.guarded))))
  where
    by_control :
        (control : Option Control)
        → Holds IsFree control
        → Holds IsFree (elim control as (λ _. Option Control) [
          | none ↦ none
          | some c ↦ (handle_shutdown (some c)).1
        ])
    by_control none h = absurd h
    by_control (some c) h = stopped_frees [] (some c) h

listen-control :
    (server : Server) (host : Bytes) (backlog : ℤ) (calls : ListenCalls)
    → (listen server (some host) backlog calls).1.control ≡ server.control
unfolding listen
listen-control server host (negsuc n) calls = refl
listen-control server host (pos n) calls =
    let Q = λ (r : ServerResult × Server). r.1.control ≡ server.control in
    if_both Q (n == 0) refl (
      if_both Q (not (same_text host (text "127.0.0.1"))) refl (
        if_both Q (not calls.created) refl
          (if_both Q (calls.reusable && calls.bound && calls.listens && calls.named) refl refl)))

-- What is asked of a start that answers that it started.
abbrev Starts : RunnerResult × Runner → Type 0
Starts r = r.0 ≡ ok → IsServing r.1

after_listen-Starts :
    (runner : Runner) (config : RunnerConfig) (host : Bytes) (result : ServerResult)
    (server : Server)
    → runner.initialized ≡ true
    → Holds IsFree server.control
    → Starts (after_listen runner config host (result, server))
unfolding map_server_result
after_listen-Starts runner config host Server.ok server i h e = record {
  ready = i;
  runs = refl;
  guarded = h;
}
after_listen-Starts runner config host Server.invalid_argument server i h e = cc
after_listen-Starts runner config host Server.socket server i h e = cc
after_listen-Starts runner config host Server.unsupported_bind server i h e = cc
after_listen-Starts runner config host Server.disconnected server i h e = cc
after_listen-Starts runner config host Server.message_too_long server i h e = cc
after_listen-Starts runner config host Server.heartbeat_timeout server i h e = cc

start_with-Starts :
    (runner : Runner) (control : Control) (config : RunnerConfig) (host : Option Bytes)
    (calls : ListenCalls)
    → control.app ≡ create true
    → runner.running ≡ false
    → Starts (start_with runner (some control) config host calls)
unfolding start_with bind_control map_server_result
start_with-Starts runner control config none calls fresh idle = λ e. cc
start_with-Starts runner control config (some host) calls fresh idle =
    let bound : Server = record (runner.server) { control = some control } in
    let listened = listen bound (some host) config.backlog calls in
    if_known Starts (not (is_positive config.backlog) || not runner.initialized) (λ _ e. cc)
      (λ i.
        if_known Starts runner.running (λ u. cc)
          (λ _.
            if_both (λ (r : ServerResult × Server). Starts (after_bind runner config host calls r))
              runner.server.listening (λ e. cc)
              (after_listen-Starts runner config host listened.0 listened.1 (ground arith) (
                subst (Holds IsFree) (sym (listen-control bound host config.backlog calls))
                  (fresh-Holds control fresh)))))

-- After a runner was started on a fresh domain, whatever polls it makes, at any times, and whatever
-- arrives and the operating system answers: it runs on, with a connection no other client than that
-- of the connection can hold the controller, and as soon as there is no connection the controller
-- is free and neutral. When it is stopped, at any point, it leaves the controller free and neutral.
pub poll_all-guarded :
    (version : Bytes) (runner : Runner) (control : Control) (config : RunnerConfig)
    (calls : ListenCalls) (polls : List Poll)
    → control.app ≡ create true
    → runner.running ≡ false
    → (start runner (some control) config calls).0 ≡ ok
    → let after = poll_all version (start runner (some control) config calls).1 polls in
      IsServing after × Holds IsFree (stop after).1
unfolding start
poll_all-guarded version runner control config calls polls fresh idle e =
    let serving =
      poll_all-IsServing version (start_with runner (some control) config config.host calls).1 polls
        (start_with-Starts runner control config config.host calls fresh idle e) in
    (serving, stop-IsFree _ serving)
