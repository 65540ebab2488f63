-- ===== src/Daemon/IpcRunner/Rounds.antt =====
-- What a round of the runner's connection, and a check of its heartbeat, do to the controller:
-- swbt/daemon/ipc_runner.c on top of swbt/ipc/ipc_server.c.
use swbt_daemon.Common.{
  ℕ, zero, suc, ◌+◌, ◌-◌, ◌≡◌, refl, sym, subst, ◌∙◌, Bool, true, false, not, if_known, if_both,
  Option, none, some, List, [], ◌∷◌, length, ltb, arith,
}
use swbt_daemon.Common.Text.{Bytes, text}
use swbt_daemon.Control.{Control}
use swbt_daemon.Ipc.{JsonResult, json_response_max}
use swbt_daemon.Ipc.Adapter.{handle_line}
use swbt_daemon.Ipc.Server
use swbt_daemon.Ipc.Server.{
  Server, ServerResult, Connection, Arrival, Reading, Send, ListenCalls, bind_control, listen,
  accept, send_from, send_all, read_line, c_string, configure_heartbeat,
}
use swbt_daemon.Ipc.Server.Serve.{
  Round, sent, alive_at, serve_line, after_line, after_reading, serve_connection_once,
  check_heartbeat,
}
use swbt_daemon.Ipc.Server.Runs.{
  ByEvents, read_line-client_id, alive_at-client_id, after_reading-ByEvents,
}
use swbt_daemon.Daemon.IpcRunner.{
  Runner, RunnerResult, serve_once, keeps, after_round, check_runner, after_check,
}
use swbt_daemon.Daemon.IpcRunner.Clients.{
  Only, IsFree, Holds, client_events, disconnected_frees, timed_out_frees,
}

-- With a connection its client alone can hold the controller; without one it is free and neutral.
abbrev pub Guarded : Bool → ℕ → Option Control → Type 0
Guarded false client control = Holds IsFree control
Guarded true client control = Holds (Only client) control

-- A runner that runs.
pub record IsServing (runner : Runner) : Type 0 where
  pub ready : runner.initialized ≡ true
  pub runs : runner.running ≡ true
  pub guarded : Guarded runner.has_connection runner.connection.client_id runner.server.control

by_events :
    (version : Bytes) (client : ℕ) (before after : Option Control)
    → ByEvents version client before after
    → Holds (Only client) before
    → Holds (Only client) after
by_events version client before after (es, e, i) h =
    subst (Holds (Only client)) (sym e) (client_events version client es before i h)

-- Results after which the connection stays.
abbrev Keeps : ServerResult → Type 0
Keeps result =
    (runner : Runner) (round : Round) → after_round runner result round ≡ keeps runner round

send_from-Keeps :
    (fuel : ℕ) (send : Send) (offset remaining : ℕ) → Keeps (send_from fuel send offset remaining)
unfolding send_from
send_from-Keeps zero send offset remaining = λ runner round. refl
send_from-Keeps (suc fuel) send offset zero = λ runner round. refl
send_from-Keeps (suc fuel) send offset (suc remaining) =
    by_answer (send offset (suc remaining))
      (λ n. send_from-Keeps fuel send (offset + suc n) (remaining - n))
  where
    by_answer :
        (answer : Option ℕ)
        → ((n : ℕ) → Keeps (send_from fuel send (offset + suc n) (remaining - n)))
        → Keeps (elim answer as (λ _. ServerResult) [
          | none ↦ Server.socket
          | some zero ↦ Server.socket
          | some (suc n) ↦ send_from fuel send (offset + suc n) (remaining - n)
        ])
    by_answer none later = λ runner round. refl
    by_answer (some zero) later = λ runner round. refl
    by_answer (some (suc n)) later = later n

send_all-Keeps :
    (connection : Connection) (send : Send) (message : Bytes)
    → Keeps (send_all connection send message)
unfolding send_all
send_all-Keeps connection send message =
    if_both Keeps connection.socket_open (send_from-Keeps (length message) send 0 (length message))
      (λ runner round. refl)

sent-Keeps :
    (result : JsonResult) (connection : Connection) (send : Send) (response : Bytes)
    → Keeps (sent result connection send response)
sent-Keeps JsonResult.ok connection send [] = λ runner round. refl
sent-Keeps JsonResult.ok connection send (c ∷ cs) = send_all-Keeps connection send (c ∷ cs)
sent-Keeps JsonResult.invalid_argument connection send response = λ runner round. refl
sent-Keeps JsonResult.response_too_small connection send response = λ runner round. refl

keeps-IsServing :
    (runner : Runner) (round : Round)
    → runner.initialized ≡ true
    → runner.running ≡ true
    → runner.has_connection ≡ true
    → round.connection.client_id ≡ runner.connection.client_id
    → Holds (Only runner.connection.client_id) round.server.control
    → IsServing (keeps runner round)
keeps-IsServing runner round i u c e h = record {
  ready = i;
  runs = u;
  guarded =
      subst (λ b. Guarded b round.connection.client_id round.server.control) (sym c)
        (subst (λ n. Holds (Only n) round.server.control) (sym e) h);
}

-- The runner after a round of its connection.
after_reading-IsServing :
    (version : Bytes) (runner : Runner) (now_ms : Option ℕ) (send : Send) (result : ServerResult)
    (r : Reading)
    → runner.initialized ≡ true
    → runner.running ≡ true
    → runner.has_connection ≡ true
    → r.connection.client_id ≡ runner.connection.client_id
    → Holds (Only runner.connection.client_id) runner.server.control
    → let round = after_reading version runner.server now_ms send result r in
      IsServing (after_round runner round.result round)
unfolding serve_line
after_reading-IsServing version runner now_ms send Server.disconnected r i u c e h = record {
  ready = i;
  runs = u;
  guarded =
      disconnected_frees version r.connection.client_id runner.server.control
        (subst (λ n. Holds (Only n) runner.server.control) (sym e) h);
}
after_reading-IsServing version runner now_ms send Server.message_too_long r i u c e h = record {
  ready = i;
  runs = u;
  guarded =
      disconnected_frees version r.connection.client_id runner.server.control
        (subst (λ n. Holds (Only n) runner.server.control) (sym e) h);
}
after_reading-IsServing version runner now_ms send Server.socket r i u c e h = record {
  ready = i;
  runs = u;
  guarded =
      disconnected_frees version r.connection.client_id runner.server.control
        (subst (λ n. Holds (Only n) runner.server.control) (sym e) h);
}
after_reading-IsServing version runner now_ms send Server.ok r i u c e h = by_line r.line
  where
    by_line :
        (o : Option Bytes)
        → let round = after_line version runner.server now_ms send r o in
          IsServing (after_round runner round.result round)
    by_line none =
        keeps-IsServing runner (after_line version runner.server now_ms send r none) i u c e h
    by_line (some text) =
        let round = after_line version runner.server now_ms send r (some text) in
        let alive = alive_at r.connection now_ms in
        let answer =
          handle_line version runner.server.control alive.client_id (c_string text)
            json_response_max in
        let stays : after_round runner round.result round ≡ keeps runner round =
          sent-Keeps answer.0 alive send answer.1 runner round in
        subst IsServing (sym stays) (
          keeps-IsServing runner round i u c (alive_at-client_id r.connection now_ms ∙ e) (
            by_events version runner.connection.client_id _ _
              (after_reading-ByEvents version runner.server now_ms send runner.connection.client_id
                Server.ok (record r { line = some text }) e)
              h))
after_reading-IsServing version runner now_ms send Server.invalid_argument r i u c e h =
    keeps-IsServing runner
      (after_reading version runner.server now_ms send Server.invalid_argument r) i u c e h
after_reading-IsServing version runner now_ms send Server.unsupported_bind r i u c e h =
    keeps-IsServing runner
      (after_reading version runner.server now_ms send Server.unsupported_bind r) i u c e h
after_reading-IsServing version runner now_ms send Server.heartbeat_timeout r i u c e h =
    keeps-IsServing runner
      (after_reading version runner.server now_ms send Server.heartbeat_timeout r) i u c e h

pub serve_once-IsServing :
    (version : Bytes) (runner : Runner) (now_ms : Option ℕ) (send : Send) (arrivals : List Arrival)
    → IsServing runner
    → IsServing (serve_once version runner now_ms send arrivals).1
unfolding serve_once serve_connection_once
serve_once-IsServing version runner now_ms send arrivals s =
    let Q = λ (r : RunnerResult × Runner). IsServing r.1 in
    let client = runner.connection.client_id in
    let reading = read_line runner.connection arrivals in
    if_both Q (not runner.running) s (
      if_known Q (not runner.has_connection) (λ _. s)
        (λ d.
          let c : runner.has_connection ≡ true = ground arith in
          let h : Holds (Only client) runner.server.control =
            subst (λ b. Guarded b client runner.server.control) c s.guarded in
          if_both (λ (round : Round). IsServing (after_round runner round.result round))
            runner.connection.is_open
            (after_reading-IsServing version runner now_ms send reading.result reading s.ready
              s.runs c (read_line-client_id runner.connection arrivals) h)
            s))

pub check_runner-IsServing :
    (runner : Runner) (now_ms : ℕ)
    → IsServing runner
    → runner.has_connection ≡ true
    → IsServing (check_runner runner now_ms).1
unfolding check_runner check_heartbeat
check_runner-IsServing runner now_ms s c =
    let Q = λ (r : ServerResult × Server). IsServing (after_check runner r).1 in
    let client = runner.connection.client_id in
    let h : Holds (Only client) runner.server.control =
      subst (λ b. Guarded b client runner.server.control) c s.guarded in
    if_both Q (not runner.connection.heartbeat_enabled) s (
      if_both Q (ltb now_ms runner.connection.last_heartbeat_ms) s (
        if_both Q
          (ltb (now_ms - runner.connection.last_heartbeat_ms)
            runner.connection.heartbeat_timeout_ms)
          s
          (record {
            ready = s.ready;
            runs = s.runs;
            guarded = timed_out_frees [] client runner.server.control h;
          })))
