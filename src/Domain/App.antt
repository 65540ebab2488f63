-- ===== src/Domain/App.antt =====
-- The domain: swbt/domain/domain.h and domain.c. The pointer `app` is an option, `none` for NULL; an
-- operation returns what it points to afterwards. Each operation holds the spin lock from its first
-- read to its last write, so it is one step; the lock itself holds no data and is left out.
use swbt_daemon.Common.{
  ℕ, Bool, true, false, ◌||◌, not, Option, none, some, ltb, ◌==◌, if◌then◌else◌,
}
use swbt_daemon.Switch.State.{ControllerState, neutral}
use swbt_daemon.Switch.Rumble.{Rumble}
use swbt_daemon.Switch.Rumble
use swbt_daemon.Switch.Spi.{Spi}
use swbt_daemon.Switch.Spi
use swbt_daemon.Switch.SpiSeed
use swbt_daemon.Switch.PlayerLights.{PlayerLights}
use swbt_daemon.Switch.PlayerLights
use swbt_daemon.Support.Metrics.{Metrics, MetricsSnapshot, MetricsResult, SendResult}
use swbt_daemon.Support.Metrics
use swbt_daemon.Domain.Lease.{Lease, LeaseResult}
use swbt_daemon.Domain.Lease
use swbt_daemon.Domain.Status.{
  Backend, Lifecycle, HardwareApproval, ChannelState, DaemonStatus, DaemonHardware,
}

-- `swbt_domain_result_t`.
pub data DomainResult : Type 0 where
  ok invalid_argument owner_busy not_owner stale_sequence : DomainResult

-- `swbt_domain_revoke_reason_t`, and any other number that the C type can hold.
pub data RevokeReason : Type 0 where
  release disconnect heartbeat_timeout shutdown other : RevokeReason

-- `struct swbt_domain`.
pub record Domain : Type 0 where
  pub lease : Lease
  pub state : ControllerState
  pub metrics : Metrics
  pub daemon : DaemonStatus
  pub hardware : DaemonHardware
  pub rumble : Rumble
  pub spi : Spi
  pub player_lights : PlayerLights

-- `swbt_domain_status_snapshot_t`.
pub record StatusSnapshot : Type 0 where
  pub has_owner : Bool
  pub owner_client_id : ℕ
  pub last_sequence : ℕ
  pub state : ControllerState
  pub rumble : Rumble
  pub metrics : MetricsSnapshot
  pub daemon : DaemonStatus
  pub hardware : DaemonHardware

unfoldable pub map_lease_result : LeaseResult → DomainResult
map_lease_result LeaseResult.ok = ok
map_lease_result LeaseResult.owner_busy = owner_busy
map_lease_result LeaseResult.not_owner = not_owner

unfoldable pub daemon_status_default : DaemonStatus
daemon_status_default = record {
  backend = Backend.unknown;
  lifecycle_state = Lifecycle.stopped;
  hardware_approval = HardwareApproval.unavailable;
}

unfoldable pub hardware_status_default : DaemonHardware
hardware_status_default = record {
  adapter_state = ChannelState.unavailable;
  switch_connection_state = ChannelState.unavailable;
  hid_channel_state = ChannelState.unavailable;
}

unfoldable pub apply_neutral : Domain → Domain
apply_neutral app = record app { state = neutral }

unfoldable pub revoke_all : Domain → Domain
unfolding apply_neutral
revoke_all app = apply_neutral (record app { lease = Lease.revoke app.lease })

unfoldable pub count_rejected : Domain → Domain
count_rejected app = record app { metrics = Metrics.record_state_update_rejected app.metrics }

-- The seeded flash of a fresh domain, whose memory was zeroed.
unfoldable pub init_spi : Spi.SpiResult × Spi
init_spi =
    SpiSeed.apply (Spi.init (record { bytes = λ _. 0; default_value = 0 }))
      (some SpiSeed.dev_profile)

-- The domain's fields after `swbt_domain_init`, given the flash.
unfoldable pub initial : Spi → Domain
unfolding daemon_status_default hardware_status_default
initial spi = record {
  lease = Lease.init;
  state = neutral;
  metrics = Metrics.init;
  daemon = daemon_status_default;
  hardware = hardware_status_default;
  rumble = Rumble.init (record { raw = λ _. 0; updated_at_ms = 0; updated = false });
  spi = spi;
  player_lights = PlayerLights.init;
}

-- The test of the results; only the seeding can fail on memory that is there.
unfoldable pub init_result : Spi.SpiResult → DomainResult
init_result Spi.SpiResult.ok = ok
init_result _ = invalid_argument

-- `swbt_domain_init` on allocated memory.
unfoldable pub init : DomainResult × Domain
unfolding init_result
init = let (seeded, spi) = init_spi in (init_result seeded, initial spi)

-- A domain whose initialisation failed is freed.
abbrev pub kept : DomainResult → Domain → Option Domain
kept ok app = some app
kept _ app = none

-- `swbt_domain_create`; the argument says whether `malloc` gave memory.
unfoldable pub create : Bool → Option Domain
create false = none
create true = let (result, app) = init in kept result app

-- `swbt_domain_acquire`.
unfoldable pub acquire : Option Domain → ℕ → DomainResult × Option Domain
unfolding map_lease_result
acquire none client_id = (invalid_argument, none)
acquire (some app) client_id =
    let (result, lease) = Lease.acquire app.lease client_id in
    (map_lease_result result, some (record app { lease = lease }))

-- An update that is refused is counted.
abbrev pub refuse : Domain → DomainResult → DomainResult × Option Domain
refuse app result = (result, some (count_rejected app))

unfoldable pub set_state_of : Domain → ℕ → ControllerState → ℕ → DomainResult × Option Domain
unfolding map_lease_result count_rejected
set_state_of app client_id state sequence =
    let lease = Lease.snapshot app.lease in
    if not lease.has_owner || not (lease.owner_client_id == client_id)
    then refuse app not_owner
    else if ltb sequence lease.last_sequence
    then refuse app stale_sequence
    else (let (result, accepted) = Lease.accept_sequence app.lease client_id sequence in
        let app' = record app { lease = accepted } in
        elim (map_lease_result result) [
          | ok ↦ (
            ok,
            some (record app' {
              state = state;
              metrics = Metrics.record_state_update_accepted app.metrics 0;
            }),
          )
          | e ↦ refuse app' e
        ])

-- `swbt_domain_set_state`.
unfoldable pub set_state :
    Option Domain → ℕ → Option ControllerState → ℕ → DomainResult × Option Domain
unfolding set_state_of
set_state none client_id state sequence = (invalid_argument, none)
set_state (some app) client_id none sequence = (invalid_argument, some app)
set_state (some app) client_id (some state) sequence = set_state_of app client_id state sequence

-- The release of a client's lease.
unfoldable pub revoke_release : Domain → ℕ → DomainResult × Option Domain
unfolding apply_neutral
revoke_release app client_id =
    let (result, lease) = Lease.release app.lease client_id in
    elim result [
      | LeaseResult.ok ↦ (ok, some (apply_neutral (record app { lease = lease })))
      | _ ↦ (not_owner, some (record app { lease = lease }))
    ]

-- A client's end, which counts only if it held the lease.
unfoldable pub revoke_lost : Domain → ℕ → DomainResult × Option Domain
unfolding apply_neutral
revoke_lost app client_id =
    let (revoked, lease) = Lease.revoke_if_owner app.lease client_id in
    let app' = record app { lease = lease } in
    (ok, some (if revoked then apply_neutral app' else app'))

-- `swbt_domain_revoke`.
unfoldable pub revoke : Option Domain → RevokeReason → ℕ → DomainResult × Option Domain
unfolding revoke_release revoke_lost revoke_all
revoke none reason client_id = (invalid_argument, none)
revoke (some app) release client_id = revoke_release app client_id
revoke (some app) disconnect client_id = revoke_lost app client_id
revoke (some app) heartbeat_timeout client_id = revoke_lost app client_id
revoke (some app) shutdown client_id = (ok, some (revoke_all app))
revoke (some app) other client_id = (invalid_argument, some app)

-- `swbt_domain_read_controller_state`: the result and `*out_state`.
unfoldable pub read_controller_state :
    Option Domain → Option ControllerState → DomainResult × Option ControllerState
read_controller_state none out = (invalid_argument, out)
read_controller_state (some app) none = (invalid_argument, none)
read_controller_state (some app) (some out) = (ok, some app.state)

-- `swbt_domain_read_status`: the result and `*out_status`.
unfoldable pub read_status :
    Option Domain → Option StatusSnapshot → DomainResult × Option StatusSnapshot
read_status none out = (invalid_argument, out)
read_status (some app) none = (invalid_argument, none)
read_status (some app) (some out) =
    let lease = Lease.snapshot app.lease in
    (
      ok,
      some (record {
        has_owner = lease.has_owner;
        owner_client_id = lease.owner_client_id;
        last_sequence = lease.last_sequence;
        state = app.state;
        rumble = app.rumble;
        metrics = app.metrics.snapshot;
        daemon = app.daemon;
        hardware = app.hardware;
      }),
    )
