-- ===== src/Ipc/Encode/Status.antt =====
-- The format of the status response of swbt/ipc/ipc_json.c, and the texts of its enumerations.
use swbt_daemon.Common.{ℕ, Bool, true, false, List, [], ◌∷◌, ◌++◌, if◌then◌else◌}
use swbt_daemon.Common.Int.{ℤ}
use swbt_daemon.Common.Text.{Bytes, text, decimal, signed_decimal}
use Prim.Native.String.{String}
use swbt_daemon.Switch.State.{ControllerState}
use swbt_daemon.Switch.Rumble.{Rumble}
use swbt_daemon.Support.Metrics.{MetricsSnapshot, HardwareStatus}
use swbt_daemon.Domain.Status.{
  Backend, Lifecycle, HardwareApproval, ChannelState, DaemonStatus, DaemonHardware,
}
use swbt_daemon.Ipc.{ResponseStatus}
use swbt_daemon.Ipc.Fields.{format_owner_id, format_rumble_raw}

-- A part of a `printf` format with its argument: plain text, `%s`, `%u` or `%llu`, and `%d`.
pub data Piece : Type 0 where
  lit : String → Piece
  str : Bytes → Piece
  dec : ℕ → Piece
  int : ℤ → Piece

unfoldable pub render_piece : Piece → Bytes
unfolding decimal signed_decimal
render_piece (lit s) = text s
render_piece (str s) = s
render_piece (dec n) = decimal n
render_piece (int z) = signed_decimal z

-- What `vsnprintf` writes, given room.
unfoldable pub render : List Piece → Bytes
unfolding render_piece
render [] = []
render (p ∷ ps) = render_piece p ++ render ps

-- `swbt_ipc_json_hardware_status_text`.
unfoldable pub hardware_status_text : HardwareStatus → Bytes
hardware_status_text HardwareStatus.unavailable = text "unavailable"
hardware_status_text HardwareStatus.observed = text "observed"

-- `swbt_ipc_json_daemon_backend_text`.
unfoldable pub daemon_backend_text : Backend → Bytes
daemon_backend_text Backend.unknown = text "unknown"
daemon_backend_text Backend.noop = text "noop"
daemon_backend_text Backend.production = text "production"

-- `swbt_ipc_json_daemon_lifecycle_text`.
unfoldable pub daemon_lifecycle_text : Lifecycle → Bytes
daemon_lifecycle_text Lifecycle.unavailable = text "unavailable"
daemon_lifecycle_text Lifecycle.stopped = text "stopped"
daemon_lifecycle_text Lifecycle.running = text "running"

-- `swbt_ipc_json_hardware_approval_text`.
unfoldable pub hardware_approval_text : HardwareApproval → Bytes
hardware_approval_text HardwareApproval.unavailable = text "unavailable"
hardware_approval_text HardwareApproval.approved = text "approved"

-- `swbt_ipc_json_hardware_channel_text`.
unfoldable pub hardware_channel_text : ChannelState → Bytes
hardware_channel_text ChannelState.unavailable = text "unavailable"
hardware_channel_text ChannelState.failed = text "failed"

abbrev pub bool_text : Bool → Bytes
bool_text true = text "true"
bool_text false = text "false"

unfoldable pub daemon_pieces : Bytes → DaemonStatus → List Piece
unfolding daemon_backend_text daemon_lifecycle_text hardware_approval_text
daemon_pieces version d =
    lit "\"daemon\":{\"protocol_version\":"
    ∷ dec 1
    ∷ lit ",\"daemon_version\":\""
    ∷ str version
    ∷ lit "\",\"backend\":\""
    ∷ str (daemon_backend_text d.backend)
    ∷ lit "\",\"lifecycle_state\":\""
    ∷ str (daemon_lifecycle_text d.lifecycle_state)
    ∷ lit "\",\"hardware_approval\":\""
    ∷ str (hardware_approval_text d.hardware_approval)
    ∷ lit "\"},"
    ∷ []

unfoldable pub metrics_pieces : MetricsSnapshot → List Piece
unfolding hardware_status_text
metrics_pieces m =
    lit "\"metrics\":{\"hardware_status\":\""
    ∷ str (hardware_status_text m.hardware_status)
    ∷ lit "\",\"report_ticks_total\":"
    ∷ dec m.report_ticks
    ∷ lit ",\"reports_sent_total\":"
    ∷ dec m.report_send_ok
    ∷ lit ",\"send_failures_total\":"
    ∷ dec m.report_send_failed
    ∷ lit ",\"report_interval_average_us\":"
    ∷ dec m.report_interval_average_us
    ∷ lit ",\"report_interval_max_us\":"
    ∷ dec m.report_interval_max_us
    ∷ lit ",\"ipc_state_accepted_total\":"
    ∷ dec m.ipc_state_accepted
    ∷ lit ",\"ipc_state_rejected_total\":"
    ∷ dec m.ipc_state_rejected
    ∷ lit ",\"ipc_state_coalesced_total\":"
    ∷ dec m.ipc_state_coalesced
    ∷ lit ",\"actual_report_rate_hz\":"
    ∷ dec m.actual_report_rate_hz
    ∷ lit ",\"jitter_max_us\":"
    ∷ dec m.jitter_max_us
    ∷ lit "},"
    ∷ []

unfoldable pub hardware_pieces : DaemonHardware → List Piece
unfolding hardware_channel_text
hardware_pieces h =
    lit "\"hardware\":{\"adapter_state\":\""
    ∷ str (hardware_channel_text h.adapter_state)
    ∷ lit "\",\"switch_connection_state\":\""
    ∷ str (hardware_channel_text h.switch_connection_state)
    ∷ lit "\",\"hid_channel_state\":\""
    ∷ str (hardware_channel_text h.hid_channel_state)
    ∷ lit "\"},"
    ∷ []

unfoldable pub owner_pieces : ResponseStatus → List Piece
unfolding format_owner_id
owner_pieces s =
    lit "\"owner\":{\"present\":"
    ∷ str (bool_text s.has_owner)
    ∷ lit ",\"owner_id\":\""
    ∷ str (format_owner_id (if s.has_owner then s.owner_client_id else 0))
    ∷ lit "\",\"last_seq\":"
    ∷ dec s.last_sequence
    ∷ lit "},"
    ∷ []

unfoldable pub state_pieces : ControllerState → List Piece
state_pieces s =
    lit "\"state\":{\"buttons\":"
    ∷ dec s.buttons
    ∷ lit ",\"lx\":"
    ∷ dec s.lx
    ∷ lit ",\"ly\":"
    ∷ dec s.ly
    ∷ lit ",\"rx\":"
    ∷ dec s.rx
    ∷ lit ",\"ry\":"
    ∷ dec s.ry
    ∷ lit ",\"accel_x\":"
    ∷ int s.accel_x
    ∷ lit ",\"accel_y\":"
    ∷ int s.accel_y
    ∷ lit ",\"accel_z\":"
    ∷ int s.accel_z
    ∷ lit ",\"gyro_x\":"
    ∷ int s.gyro_x
    ∷ lit ",\"gyro_y\":"
    ∷ int s.gyro_y
    ∷ lit ",\"gyro_z\":"
    ∷ int s.gyro_z
    ∷ lit "},"
    ∷ []

unfoldable pub rumble_pieces : Rumble → List Piece
unfolding format_rumble_raw
rumble_pieces r =
    lit "\"rumble\":{\"updated\":"
    ∷ str (bool_text r.updated)
    ∷ lit ",\"last_update_ms\":"
    ∷ dec r.updated_at_ms
    ∷ lit ",\"raw\":\""
    ∷ str (format_rumble_raw r.raw)
    ∷ lit "\"}}\n"
    ∷ []

-- The status message after its type and request identifier.
unfoldable pub status_pieces : Bytes → ResponseStatus → List Piece
unfolding daemon_pieces metrics_pieces hardware_pieces owner_pieces state_pieces rumble_pieces
status_pieces version s =
    daemon_pieces version s.daemon
    ++ metrics_pieces s.metrics
    ++ hardware_pieces s.hardware
    ++ owner_pieces s
    ++ state_pieces s.state
    ++ rumble_pieces s.rumble
