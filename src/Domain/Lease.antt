-- ===== src/Domain/Lease.antt =====
-- The controller lease: swbt/domain/lease.h and lease.c. The lease is updated in place and is a
-- value; the guards against a NULL lease, which no caller passes, are left out.
pub mod Ownership
use swbt_daemon.Common.{ℕ, Bool, true, false, ◌&&◌, not, ◌==◌, if◌then◌else◌}

-- `swbt_domain_lease_result_t`.
pub data LeaseResult : Type 0 where
  ok owner_busy not_owner : LeaseResult

-- `swbt_domain_lease_t`; `swbt_domain_lease_snapshot_t` has the same fields.
pub record Lease : Type 0 where
  pub has_owner : Bool
  pub owner_client_id : ℕ
  pub last_sequence : ℕ

-- `swbt_domain_lease_init`.
unfoldable pub init : Lease
init = record { has_owner = false; owner_client_id = 0; last_sequence = 0 }

-- `swbt_domain_lease_snapshot`.
unfoldable pub snapshot : Lease → Lease
snapshot lease = record {
  has_owner = lease.has_owner;
  owner_client_id = lease.owner_client_id;
  last_sequence = lease.last_sequence;
}

-- `swbt_domain_lease_acquire`.
unfoldable pub acquire : Lease → ℕ → LeaseResult × Lease
acquire lease client_id =
    if lease.has_owner && not (lease.owner_client_id == client_id)
    then (owner_busy, lease)
    else (ok, record lease { has_owner = true; owner_client_id = client_id })

-- The test that the client holds the lease.
abbrev pub owned_by : Lease → ℕ → Bool
owned_by lease client_id = lease.has_owner && lease.owner_client_id == client_id

-- `swbt_domain_lease_accept_sequence`.
unfoldable pub accept_sequence : Lease → ℕ → ℕ → LeaseResult × Lease
accept_sequence lease client_id sequence =
    if owned_by lease client_id
    then (ok, record lease { last_sequence = sequence })
    else (not_owner, lease)

-- `swbt_domain_lease_revoke`.
unfoldable pub revoke : Lease → Lease
revoke lease = record { has_owner = false; owner_client_id = 0; last_sequence = 0 }

-- `swbt_domain_lease_release`.
unfoldable pub release : Lease → ℕ → LeaseResult × Lease
unfolding revoke
release lease client_id =
    if owned_by lease client_id then (ok, revoke lease) else (not_owner, lease)

-- `swbt_domain_lease_revoke_if_owner`.
unfoldable pub revoke_if_owner : Lease → ℕ → Bool × Lease
unfolding revoke
revoke_if_owner lease client_id =
    if owned_by lease client_id then (true, revoke lease) else (false, lease)
