-- ===== src/Domain/Lease/Ownership.antt =====
-- The lease as a specification: at most one client holds it, with its last accepted sequence.
use swbt_daemon.Common.{ℕ, ◌≡◌, ◌⊎◌, true, ◌&&◌, ◌==◌, if◌then◌else◌, Option, none, some, arith}
use swbt_daemon.Domain.Lease.{
  Lease, LeaseResult, ok, owner_busy, not_owner, init, acquire, accept_sequence, release, revoke,
  revoke_if_owner,
}

-- The holder and its last sequence.
abbrev pub Holder : Type 0
Holder = Option (ℕ × ℕ)

abbrev pub holder : Lease → Holder
holder lease = if lease.has_owner then some (lease.owner_client_id, lease.last_sequence) else none

-- A lease that nobody holds is blank.
pub record IsValid (lease : Lease) : Type 0 where
  pub blank : (lease.has_owner ≡ true) ⊎ ((lease.owner_client_id ≡ 0) × (lease.last_sequence ≡ 0))

-- What the operations do to the holder.
abbrev pub grant : Holder → ℕ → LeaseResult × Holder
grant none client = (ok, some (client, 0))
grant (some (owner, sequence)) client =
    if owner == client then (ok, some (owner, sequence)) else (owner_busy, some (owner, sequence))

abbrev pub advance : Holder → ℕ → ℕ → LeaseResult × Holder
advance none client n = (not_owner, none)
advance (some (owner, sequence)) client n =
    if owner == client then (ok, some (owner, n)) else (not_owner, some (owner, sequence))

abbrev pub give_up : Holder → ℕ → LeaseResult × Holder
give_up none client = (not_owner, none)
give_up (some (owner, sequence)) client =
    if owner == client then (ok, none) else (not_owner, some (owner, sequence))

-- On a valid lease every operation is the one on the holder, and leaves the lease valid.
pub lease_refines :
    (lease : Lease) (client n : ℕ)
    → IsValid lease
    → let (r1, l1) = acquire lease client in
      let (r2, l2) = accept_sequence lease client n in
      let (r3, l3) = release lease client in
      ((r1, holder l1) ≡ grant (holder lease) client)
      × ((r2, holder l2) ≡ advance (holder lease) client n)
      × ((r3, holder l3) ≡ give_up (holder lease) client)
      × (revoke_if_owner lease client ≡ (lease.has_owner && lease.owner_client_id == client, l3))
      × (holder (revoke lease) ≡ none)
      × IsValid l1
      × IsValid l2
      × IsValid l3
      × IsValid (revoke lease)
unfolding acquire accept_sequence release revoke revoke_if_owner
lease_refines lease client n v = ground arith

pub init-IsValid : IsValid init × (holder init ≡ none)
unfolding init
init-IsValid = ground arith
