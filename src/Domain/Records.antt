-- ===== src/Domain/Records.antt =====
-- The operations of swbt/domain/domain.c that record status, report ticks, rumble and output
-- reports. The pointer `app` is an option, as in `App`.
use swbt_daemon.Common.{ℕ, Option, none, some}
use swbt_daemon.Common.Buffer.{Buffer}
use swbt_daemon.Switch.Report.{ReportOptions}
use swbt_daemon.Switch.Subcommand.{OutputReport}
use swbt_daemon.Switch.Rumble.{RumbleResult}
use swbt_daemon.Switch.Rumble
use swbt_daemon.Switch.PlayerLights.{PlayerLights}
use swbt_daemon.Switch.DeviceInfo.{DeviceInfo}
use swbt_daemon.Switch.Dispatcher.{DispatchResult, Response, dispatch}
use swbt_daemon.Support.Metrics.{MetricsResult, SendResult}
use swbt_daemon.Support.Metrics
use swbt_daemon.Domain.Status.{Lifecycle, HardwareApproval, DaemonStatus, DaemonHardware}
use swbt_daemon.Domain.App.{Domain, DomainResult, ok, invalid_argument, count_rejected}

-- `swbt_domain_set_daemon_status`.
unfoldable pub set_daemon_status :
    Option Domain → Option DaemonStatus → DomainResult × Option Domain
set_daemon_status none status = (invalid_argument, none)
set_daemon_status (some app) none = (invalid_argument, some app)
set_daemon_status (some app) (some status) = (ok, some (record app { daemon = status }))

-- `swbt_domain_set_daemon_lifecycle`.
unfoldable pub set_daemon_lifecycle : Option Domain → Lifecycle → DomainResult × Option Domain
set_daemon_lifecycle none state = (invalid_argument, none)
set_daemon_lifecycle (some app) state =
    (ok, some (record app { daemon = record (app.daemon) { lifecycle_state = state } }))

-- `swbt_domain_set_hardware_approval`.
unfoldable pub set_hardware_approval :
    Option Domain → HardwareApproval → DomainResult × Option Domain
set_hardware_approval none value = (invalid_argument, none)
set_hardware_approval (some app) value =
    (ok, some (record app { daemon = record (app.daemon) { hardware_approval = value } }))

-- `swbt_domain_set_hardware_status`.
unfoldable pub set_hardware_status :
    Option Domain → Option DaemonHardware → DomainResult × Option Domain
set_hardware_status none status = (invalid_argument, none)
set_hardware_status (some app) none = (invalid_argument, some app)
set_hardware_status (some app) (some status) = (ok, some (record app { hardware = status }))

-- `swbt_domain_record_report_tick`.
unfoldable pub record_report_tick : Option Domain → ℕ → SendResult → DomainResult × Option Domain
record_report_tick none now_us send_result = (invalid_argument, none)
record_report_tick (some app) now_us send_result =
    let (result, metrics) = Metrics.record_report_tick app.metrics now_us send_result in
    (
      elim result [ MetricsResult.ok ↦ ok | MetricsResult.invalid_argument ↦ invalid_argument ],
      some (record app { metrics = metrics }),
    )

-- `swbt_domain_record_state_update_rejected`.
unfoldable pub record_state_update_rejected : Option Domain → DomainResult × Option Domain
unfolding count_rejected
record_state_update_rejected none = (invalid_argument, none)
record_state_update_rejected (some app) = (ok, some (count_rejected app))

-- `swbt_domain_record_rumble`.
unfoldable pub record_rumble : Option Domain → Option Buffer → ℕ → DomainResult × Option Domain
record_rumble none payload at = (invalid_argument, none)
record_rumble (some app) none at = (invalid_argument, some app)
record_rumble (some app) (some payload) at =
    let (result, rumble) = Rumble.update app.rumble (some payload) at in
    (
      elim result [ RumbleResult.ok ↦ ok | RumbleResult.invalid_argument ↦ invalid_argument ],
      some (record app { rumble = rumble }),
    )

-- The lights after a dispatch, which was given a pointer to them.
abbrev pub lights_after : PlayerLights → Option PlayerLights → PlayerLights
lights_after before none = before
lights_after before (some after) = after

-- The rumble update and the dispatch, under one lock.
unfoldable pub handle_report :
    Domain
    → OutputReport
    → ReportOptions
    → DeviceInfo
    → ℕ
    → Response
    → DomainResult × Domain × Option Response
handle_report app output options device_info at response =
    let (updated, rumble) = Rumble.update app.rumble (some output.rumble) at in
    let app' = record app { rumble = rumble } in
    elim updated [
      | RumbleResult.ok ↦
          let (result, response', lights) =
            dispatch
              (some (record {
                state = some app.state;
                report_options = some options;
                spi = some app.spi;
                player_lights = some app.player_lights;
                device_info = some device_info;
              }))
              (some output) (some response) in
          (
            elim result [ DispatchResult.ok ↦ ok | _ ↦ invalid_argument ],
            record app' { player_lights = lights_after app.player_lights lights },
            response',
          )
      | RumbleResult.invalid_argument ↦ (invalid_argument, app', some response)
    ]

-- `swbt_domain_handle_output_report`: the result, the domain and `*out_response`.
unfoldable pub handle_output_report :
    Option Domain
    → Option OutputReport
    → Option ReportOptions
    → Option DeviceInfo
    → ℕ
    → Option Response
    → DomainResult × Option Domain × Option Response
unfolding handle_report
handle_output_report (some app) (some output) (some options) (some info) at (some response) =
    let (result, app', response') = handle_report app output options info at response in
    (result, some app', response')
handle_output_report app output options info at response = (invalid_argument, app, response)
