-- ===== src/PortPool.antt =====
-- src/node_state/port_pool.rs: the ports in use, the search for a free one, and the leases on them.
-- The set of used ports is shared under one lock; each operation holds it and is one step. Whether
-- the operating system can bind a port is a parameter, `is_port_available`, and so is the random
-- start of the ephemeral search.
pub mod Search
pub mod Leases
pub mod Tests
use llamesh.Prelude.{
  ℕ, zero, suc, ◌+◌, ◌-◌, Bool, true, false, not, ◌&&◌, Option, none, some, List, [], ◌∷◌, ◌++◌,
  if◌then◌else◌,
}
use llamesh.Prelude.Eq.{nat_key}
use llamesh.Prelude.Dict.{Dict, insert, remove, contains_key}

pub data PortError : Type 0 where
  no_available_ports : PortError
  port_in_use : ℕ → PortError

pub data Result {ℓ} (A : Type ℓ) : Type ℓ where
  ok : A → Result A
  err : PortError → Result A

pub record PortRange : Type 0 where
  pub start : ℕ
  pub end : ℕ

pub record LlamaCppPorts : Type 0 where
  pub ports : Option (List ℕ)
  pub ranges : Option (List PortRange)

pub record PortLease : Type 0 where
  pub port : ℕ
  pub armed : Bool

-- `HashSet<u16>`, a map to the unit type
pub record PortPool : Type 0 where
  pub used_ports : Dict ℕ (Unit {0})
  pub ports_config : Option LlamaCppPorts

-- `PortPool::new`
unfoldable pub new : Option LlamaCppPorts → PortPool
new ports_config = record { used_ports = []; ports_config = ports_config }

abbrev pub is_used : PortPool → ℕ → Bool
is_used pool port = contains_key port pool.used_ports

abbrev pub take_port : PortPool → ℕ → PortPool
take_port pool port = record pool { used_ports = insert port tt pool.used_ports }

abbrev pub give_back : PortPool → ℕ → PortPool
give_back pool port = record pool { used_ports = remove port pool.used_ports }

-- `count` ports from `start` on; `start..end` is `ports_from start (end - start)`.
unfoldable pub ports_from : ℕ → ℕ → List ℕ
ports_from start zero = []
ports_from start (suc count) = start ∷ ports_from (start + 1) count

-- The first port of a list that is not used and can be bound.
unfoldable pub first_free : (ℕ → Bool) → PortPool → List ℕ → Option ℕ
first_free is_port_available pool [] = none
first_free is_port_available pool (port ∷ rest) =
    if not (is_used pool port) && is_port_available port
    then some port
    else first_free is_port_available pool rest

abbrev or_else : Option ℕ → Option ℕ → Option ℕ
or_else none q = q
or_else (some p) q = some p

-- The loop over the configured ranges, `range.start..=range.end` each.
unfoldable pub first_in_ranges : (ℕ → Bool) → PortPool → List PortRange → Option ℕ
unfolding ports_from first_free
first_in_ranges is_port_available pool [] = none
first_in_ranges is_port_available pool (range ∷ ranges) =
    or_else
      (first_free is_port_available pool (ports_from range.start (range.end + 1 - range.start)))
      (first_in_ranges is_port_available pool ranges)

abbrev pub or_nil {ℓ} : {A : Type ℓ} → Option (List A) → List A
or_nil none = []
or_nil (some xs) = xs

-- The port that `get_available_port` settles on; `random_start` lies in 10000..20000.
unfoldable pub find_port : (ℕ → Bool) → ℕ → PortPool → Option LlamaCppPorts → Option ℕ
unfolding first_in_ranges
find_port is_port_available random_start pool (some config) =
    or_else (first_free is_port_available pool (or_nil config.ports))
      (first_in_ranges is_port_available pool (or_nil config.ranges))
find_port is_port_available random_start pool none =
    first_free is_port_available pool
      (ports_from random_start (20000 - random_start) ++ ports_from 10000 (random_start - 10000))

abbrev lease_found : PortPool → Option ℕ → PortPool × Result PortLease
lease_found pool none = (pool, err no_available_ports)
lease_found pool (some port) = (take_port pool port, ok (record { port = port; armed = true }))

unfoldable pub get_available_port : (ℕ → Bool) → ℕ → PortPool → PortPool × Result PortLease
unfolding find_port
get_available_port is_port_available random_start pool =
    lease_found pool (find_port is_port_available random_start pool pool.ports_config)

unfoldable pub release_port : PortPool → ℕ → PortPool
release_port pool port = give_back pool port

unfoldable pub reserve_specific_port : PortPool → ℕ → PortPool × Result PortLease
reserve_specific_port pool port =
    if is_used pool port
    then (pool, err (port_in_use port))
    else (take_port pool port, ok (record { port = port; armed = true }))

-- `PortLease::release`; the drop that follows finds the lease disarmed.
unfoldable pub release : PortPool → PortLease → PortPool × PortLease
release pool lease = (give_back pool lease.port, record lease { armed = false })

unfoldable pub handoff : PortLease → PortLease × ℕ
handoff lease = (record lease { armed = false }, lease.port)

-- What dropping a lease leads to: nothing, the port given back at once, a task that will give it
-- back, or no cleanup for want of a runtime.
pub data Dropped : Type 0 where
  disarmed given_back deferred skipped : Dropped

unfoldable pub drop_lease : Bool → Bool → PortPool → PortLease → PortPool × Dropped
drop_lease contended has_runtime pool lease =
    if not lease.armed
    then (pool, disarmed)
    else if not contended
    then (give_back pool lease.port, given_back)
    else if has_runtime
    then (pool, deferred)
    else (pool, skipped)
