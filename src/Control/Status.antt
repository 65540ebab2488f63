-- ===== src/Control/Status.antt =====
-- The status of the control layer: `swbt_control_get_status` of swbt/control/control.c.
use swbt_daemon.Common.{zero, Bool, true, false, Option, none, some}
use swbt_daemon.Common.Int.{ℤ, pos}
use swbt_daemon.Domain.App.{DomainResult, StatusSnapshot, read_status}
use swbt_daemon.Support.Metrics
use swbt_daemon.Domain.Status.{Backend, Lifecycle, HardwareApproval, ChannelState}
use swbt_daemon.Control.{Control, ControlResult, ok, invalid_argument, RuntimeStatus, StatusReader}

-- `swbt_control_status_t`.
pub record ControlStatus : Type 0 where
  pub app : StatusSnapshot
  pub has_runtime_status : Bool
  pub runtime : RuntimeStatus

abbrev pub zero_runtime : RuntimeStatus
zero_runtime = record {
  initialized = false;
  running = false;
  hid_registered = false;
  output_handler_started = false;
  report_timer_started = false;
}

-- The domain's part of the zeroed status.
abbrev zero_app : StatusSnapshot
zero_app = record {
  has_owner = false;
  owner_client_id = 0;
  last_sequence = 0;
  state = record {
    buttons = 0;
    lx = 0;
    ly = 0;
    rx = 0;
    ry = 0;
    accel_x = pos 0;
    accel_y = pos 0;
    accel_z = pos 0;
    gyro_x = pos 0;
    gyro_y = pos 0;
    gyro_z = pos 0;
  };
  rumble = record { raw = λ index. 0; updated_at_ms = 0; updated = false };
  metrics = record {
    report_ticks = 0;
    report_send_ok = 0;
    report_send_failed = 0;
    report_interval_count = 0;
    report_interval_average_us = 0;
    report_interval_max_us = 0;
    ipc_state_accepted = 0;
    ipc_state_rejected = 0;
    ipc_state_coalesced = 0;
    hardware_status = Metrics.unavailable;
    actual_report_rate_hz = 0;
    jitter_max_us = 0;
  };
  daemon = record {
    backend = Backend.unknown;
    lifecycle_state = Lifecycle.unavailable;
    hardware_approval = HardwareApproval.unavailable;
  };
  hardware = record {
    adapter_state = ChannelState.unavailable;
    switch_connection_state = ChannelState.unavailable;
    hid_channel_state = ChannelState.unavailable;
  };
}

-- The reader's result; what a failed reader left in the status is kept.
unfoldable pub with_runtime : StatusSnapshot → ℤ → RuntimeStatus → ControlResult × ControlStatus
with_runtime app (pos zero) runtime =
    (ok, record { app = app; has_runtime_status = true; runtime = runtime })
with_runtime app _ runtime =
    (invalid_argument, record { app = app; has_runtime_status = false; runtime = runtime })

-- The status of the runtime, where there is a reader.
unfoldable pub read_runtime : StatusSnapshot → Option StatusReader → ControlResult × ControlStatus
unfolding with_runtime
read_runtime app none =
    (ok, record { app = app; has_runtime_status = false; runtime = zero_runtime })
read_runtime app (some reader) =
    let (result, runtime) = reader zero_runtime in with_runtime app result runtime

unfoldable pub status_of_app :
    Control → DomainResult → Option StatusSnapshot → ControlResult × Option ControlStatus
unfolding read_runtime
status_of_app control DomainResult.ok (some app) =
    let (result, status) = read_runtime app control.read_runtime_status in (result, some status)
status_of_app control _ _ = (invalid_argument, none)

-- `swbt_control_get_status` into a status that is not NULL: the result and `*out_status`, where it
-- has been filled in.
unfoldable pub get_status : Option Control → ControlResult × Option ControlStatus
unfolding status_of_app read_status
get_status none = (invalid_argument, none)
get_status (some control) =
    let (result, app) = read_status control.app (some zero_app) in status_of_app control result app
