-- ===== src/Runtime.antt =====
-- The runtime host: swbt/runtime/host.h and host.c. Pointers to the host are not NULL. The backend
-- is a parameter: its functions' answers are arguments of the operation that calls them, and the
-- calls are recorded, the last one first. The pointer to the domain is the host's and the control
-- layer's, so the model keeps it once.
pub mod LifeCycle
pub mod Failure
mod Examples
use swbt_daemon.Common.{
  ℕ, Bool, true, false, ◌&&◌, not, Option, none, some, List, [], ◌∷◌, if◌then◌else◌, ◌==◌,
}
use swbt_daemon.Common.Int.{ℤ, pos, negsuc}
use swbt_daemon.Common.Buffer.{Buffer}
use swbt_daemon.Switch.State.{ControllerState, neutral}
use swbt_daemon.Switch.Report.{ReportOptions}
use swbt_daemon.Switch.DeviceInfo.{DeviceInfo}
use swbt_daemon.Switch.Subcommand.{OutputReport}
use swbt_daemon.Switch.Dispatcher.{Response, Action, no_action, reply}
use swbt_daemon.Domain.Status.{DaemonStatus}
use swbt_daemon.Domain.App.{Domain, DomainResult, create, revoke, shutdown, read_controller_state}
use swbt_daemon.Domain.App
use swbt_daemon.Domain.Records.{set_daemon_status, handle_output_report}
use swbt_daemon.Control.{Control, RuntimeStatus, StatusReader}

-- `swbt_runtime_host_result_t`.
pub data HostResult : Type 0 where
  ok pending invalid_argument backend : HostResult

-- The calls of the backend that do something; the first and the fifth with whether they succeed.
pub data Call : Type 0 where
  hid_register : Bool → Call
  hid_stop : Call
  output_handler_start : Call
  output_handler_stop : Call
  report_timer_start : Bool → Call
  report_timer_stop : Call
  report_timer_send_neutral_now : Call
  subcommand_reply_enqueue : ℕ → Buffer → ℕ → Call

-- `swbt_runtime_host_config_t`.
pub record HostConfig : Type 0 where
  pub report_options : ReportOptions
  pub device_info : DeviceInfo
  pub daemon_status : DaemonStatus

-- `swbt_runtime_host_status_t`.
pub record HostStatus : Type 0 where
  pub initialized : Bool
  pub running : Bool
  pub hid_registered : Bool
  pub output_handler_started : Bool
  pub report_timer_started : Bool

-- `swbt_runtime_host_t`, with the calls of its backend so far.
pub record Host : Type 0 where
  pub app : Option Domain
  pub next_direct_sequence : ℕ
  pub report_options : ReportOptions
  pub device_info : DeviceInfo
  pub initialized : Bool
  pub running : Bool
  pub hid_registered : Bool
  pub output_handler_started : Bool
  pub report_timer_started : Bool
  pub calls : List Call

abbrev pub call : Call → Host → Host
call c host = record host { calls = c ∷ host.calls }

-- Whether a function of the backend answers 0.
abbrev pub succeeds : ℤ → Bool
succeeds (pos n) = n == 0
succeeds (negsuc n) = false

-- `swbt_runtime_host_read_state`.
unfoldable pub read_state : Host → ControllerState
read_state host = elim (host.app) [ none ↦ neutral | some app ↦ app.state ]

-- `swbt_runtime_host_store_neutral`.
unfoldable pub store_neutral : Host → Host
unfolding revoke
store_neutral host = record host { app = (revoke host.app shutdown 0).1 }

-- `swbt_runtime_host_read_status_for_control`.
unfoldable pub read_status_for_control : Host → StatusReader
read_status_for_control host before = (
  pos 0,
  record {
    initialized = host.initialized;
    running = host.running;
    hid_registered = host.hid_registered;
    output_handler_started = host.output_handler_started;
    report_timer_started = host.report_timer_started;
  },
)

-- `swbt_runtime_host_control`: what `runtime->control` holds.
unfoldable pub control : Host → Control
unfolding read_status_for_control
control host = record {
  app = host.app;
  read_runtime_status = some (read_status_for_control host);
  next_direct_sequence = host.next_direct_sequence;
}

-- The host of a domain whose status was set.
abbrev pub init_with : HostConfig → DomainResult × Option Domain → Host → HostResult × Host
init_with config (DomainResult.ok, app) zeroed = (
  ok,
  record zeroed {
    app = app;
    report_options = config.report_options;
    device_info = config.device_info;
    initialized = true;
  },
)
init_with config (_, app) zeroed = (invalid_argument, zeroed)

-- `swbt_runtime_host_init` with a configuration and a valid backend; the arguments say whether there
-- is memory for the domain, and give the zeroed host.
unfoldable pub init : HostConfig → Bool → Host → HostResult × Host
unfolding set_daemon_status
init config memory zeroed =
    init_with config (set_daemon_status (create memory) (some config.daemon_status)) zeroed

-- `swbt_runtime_host_stop`, where the host is initialised: the three parts in turn.
unfoldable pub stop_timer : Host → Host
stop_timer host =
    if host.report_timer_started
    then record (call report_timer_stop host) { report_timer_started = false }
    else host

unfoldable pub stop_handler : Host → Host
stop_handler host =
    if host.output_handler_started
    then record (call output_handler_stop host) { output_handler_started = false }
    else host

unfoldable pub stop_hid : Host → Host
stop_hid host =
    if host.hid_registered then record (call hid_stop host) { hid_registered = false } else host

-- `swbt_runtime_host_stop`.
unfoldable pub stop : Host → Host
unfolding store_neutral stop_timer stop_handler stop_hid
stop host =
    if host.initialized
    then record (stop_hid (stop_handler (stop_timer (store_neutral host)))) { running = false }
    else host

-- The timer's start, once the other parts are up.
unfoldable pub start_timer : Host → ℤ → HostResult × Host
unfolding stop
start_timer host timer =
    let called = call (report_timer_start (succeeds timer)) host in
    if succeeds timer
    then (ok, record called { report_timer_started = true; running = true })
    else (backend, stop called)

abbrev pub registered : Host → Host
registered host = record (call output_handler_start (call (hid_register true) host)) {
  hid_registered = true;
  output_handler_started = true;
}

-- `swbt_runtime_host_start` with the answers of `hid_register` and `report_timer_start`.
unfoldable pub start : Host → ℤ → ℤ → HostResult × Host
unfolding start_timer
start host hid timer =
    if not host.initialized
    then (invalid_argument, host)
    else if host.running
    then (ok, host)
    else if succeeds hid
    then start_timer (registered host) timer
    else (backend, call (hid_register false) host)

-- The answer of `report_timer_send_neutral_now`: positive while it is pending.
abbrev pub sent_neutral : ℤ → HostResult
sent_neutral (pos n) = if n == 0 then ok else pending
sent_neutral (negsuc n) = backend

-- `swbt_runtime_host_send_neutral_now` with that answer.
unfoldable pub send_neutral_now : Host → ℤ → HostResult × Host
unfolding store_neutral
send_neutral_now host answer =
    if not host.initialized
    then (invalid_argument, host)
    else (let stored = store_neutral host in
        if stored.report_timer_started
        then (sent_neutral answer, call report_timer_send_neutral_now stored)
        else (ok, stored))

-- The device information: the backend's, where it has the function and that succeeds.
abbrev pub chosen_info : DeviceInfo → Option (ℤ × DeviceInfo) → DeviceInfo
chosen_info own none = own
chosen_info own (some (answer, info)) = if succeeds answer then info else own

-- The reply to a report that was handled.
abbrev pub enqueue_response : ℕ → Response → Action → Host → Host
enqueue_response hid_cid response no_action host = host
enqueue_response hid_cid response reply host =
    call (subcommand_reply_enqueue hid_cid response.report response.report_size) host

abbrev pub enqueue_reply : ℕ → DomainResult → Option Response → Host → Host
enqueue_reply hid_cid DomainResult.ok (some response) host =
    enqueue_response hid_cid response response.action host
enqueue_reply hid_cid _ _ host = host

-- `swbt_runtime_host_on_output_report`: what `read_device_info` answers, where the backend has it,
-- what `time_ms` answers, and the response's memory, which is not initialised.
unfoldable pub on_output_report :
    Host → ℕ → OutputReport → Option (ℤ × DeviceInfo) → ℕ → Response → Host
unfolding handle_output_report
on_output_report host hid_cid report info time_ms memory =
    let (result, app, response) =
      handle_output_report host.app (some report) (some host.report_options)
        (some (chosen_info host.device_info info)) time_ms (some memory) in
    enqueue_reply hid_cid result response (record host { app = app })

-- `swbt_runtime_host_destroy`; the zeroed host is an argument.
unfoldable pub destroy : Host → Host → Host
unfolding stop
destroy host zeroed = record zeroed { calls = (stop host).calls }

-- `swbt_runtime_host_status`.
unfoldable pub status : Host → HostResult × HostStatus
status host = (
  ok,
  record {
    initialized = host.initialized;
    running = host.running;
    hid_registered = host.hid_registered;
    output_handler_started = host.output_handler_started;
    report_timer_started = host.report_timer_started;
  },
)
