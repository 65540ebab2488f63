-- ===== src/Domain/Status.antt =====
-- The status values: swbt/domain/status.h.

-- `swbt_domain_daemon_backend_t`.
pub data Backend : Type 0 where
  unknown noop production : Backend

-- `swbt_domain_daemon_lifecycle_state_t`.
pub data Lifecycle : Type 0 where
  unavailable stopped running : Lifecycle

-- `swbt_domain_hardware_approval_t`.
pub data HardwareApproval : Type 0 where
  unavailable approved : HardwareApproval

-- `swbt_domain_hardware_channel_state_t`.
pub data ChannelState : Type 0 where
  unavailable failed : ChannelState

-- `swbt_domain_daemon_status_t`.
pub record DaemonStatus : Type 0 where
  pub backend : Backend
  pub lifecycle_state : Lifecycle
  pub hardware_approval : HardwareApproval

-- `swbt_domain_hardware_status_t`.
pub record DaemonHardware : Type 0 where
  pub adapter_state : ChannelState
  pub switch_connection_state : ChannelState
  pub hid_channel_state : ChannelState
