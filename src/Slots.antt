-- ===== src/Slots.antt =====
-- src/node_state/mod.rs: the slots of the running instances, and which instances are drained and
-- evicted. An instance is shared by reference, so it is a number, its object, and the heap holds
-- what is known of it; the map of the node lists the objects in use. Whether its process runs is a
-- field that the environment changes.
pub mod Life
pub mod Conservation
pub mod Choice
pub mod Eviction
pub mod Cancelling
pub mod Resuming
pub mod Drains
pub mod Tests
use llamesh.Prelude.{
  ℕ, ◌+◌, ◌-◌, String, Bool, true, false, not, ◌&&◌, ◌||◌, Option, none, some, List, [], ◌∷◌, keep,
  any, length, ltb, leb, eqb, if◌then◌else◌,
}
use llamesh.Prelude.Eq.{string_key, ◌==◌}
use llamesh.Prelude.Word.{u64_max, saturating_add}
use llamesh.Prelude.Buckets.{occurs, without}

pub data InstanceStatus : Type 0 where
  starting ready failed : InstanceStatus

pub record Instance : Type 0 where
  pub model_name : String
  pub profile_id : String
  pub args_hash : String
  pub status : InstanceStatus
  pub alive : Bool
  pub draining : Bool
  pub draining_for_competitor : Bool
  pub in_flight_requests : ℕ
  pub last_activity : ℕ

abbrev pub Heap : Type 0
Heap = ℕ → Instance

abbrev pub update : Heap → ℕ → Instance → Heap
update heap i inst j = if eqb j i then inst else heap j

abbrev pub is_ready : InstanceStatus → Bool
is_ready starting = false
is_ready ready = true
is_ready failed = false

abbrev pub has_failed : InstanceStatus → Bool
has_failed starting = false
has_failed ready = false
has_failed failed = true

abbrev pub is_of : String → String → Instance → Bool
is_of model profile inst = (inst.model_name == model) && (inst.profile_id == profile)

-- `max_concurrent_requests_per_instance`; 0 is no limit.
abbrev pub has_capacity : ℕ → Instance → Bool
has_capacity max_concurrent inst =
    eqb max_concurrent 0 || ltb inst.in_flight_requests max_concurrent

-- The tests of the loop of `try_get_or_spawn_resolved` on an instance, for a request with a slot.
unfoldable pub is_available : ℕ → String → String → Instance → Bool
is_available max_concurrent model profile inst =
    if is_of model profile inst
    then if not inst.alive || has_failed inst.status
      then false
      else if inst.draining
      then false
      else has_capacity max_concurrent inst
    else false

-- That loop: the best instance so far, and its requests in flight.
unfoldable pub best_instance : ℕ → String → String → Heap → List ℕ → Option ℕ × ℕ → Option ℕ × ℕ
unfolding is_available
best_instance max_concurrent model profile heap [] best = best
best_instance max_concurrent model profile heap (i ∷ map) best =
    best_instance max_concurrent model profile heap map (
      if is_available max_concurrent model profile (heap i)
        && ltb (heap i).in_flight_requests best.1
      then (some i, (heap i).in_flight_requests)
      else best)

abbrev pub no_best : Option ℕ × ℕ
no_best = (none, u64_max)

-- The second check of the chosen instance, under its write lock; whether the slot was taken.
unfoldable pub claim : ℕ → ℕ → Instance → Instance × Bool
claim max_concurrent now inst =
    if has_capacity max_concurrent inst
      && inst.alive
      && not (has_failed inst.status)
      && not inst.draining
    then (
      record inst { in_flight_requests = inst.in_flight_requests + 1; last_activity = now },
      true,
    )
    else (inst, false)

-- The loop for a request without a slot: the first instance that may serve.
unfoldable pub first_instance : String → String → Heap → List ℕ → Option ℕ
first_instance model profile heap [] = none
first_instance model profile heap (i ∷ map) =
    let rest = first_instance model profile heap map in
    if is_of model profile (heap i) && not (has_failed (heap i).status) && not (heap i).draining
    then some i
    else rest

-- `available_ready_slots_for_model`, its loop.
unfoldable pub available_ready_slots : ℕ → String → String → Heap → List ℕ → ℕ → ℕ
available_ready_slots max_concurrent model profile heap [] available = available
available_ready_slots max_concurrent model profile heap (i ∷ map) available =
    available_ready_slots max_concurrent model profile heap map (
      if not (is_of model profile (heap i))
      then available
      else if not (heap i).alive || (heap i).draining
      then available
      else if not (is_ready (heap i).status)
      then available
      else if eqb max_concurrent 0
      then saturating_add available 1
      else if ltb (heap i).in_flight_requests max_concurrent
      then saturating_add available (max_concurrent - (heap i).in_flight_requests)
      else available)

-- The decrement of `SlotReleaseGuard::drop` and of `RequestGuard::drop`; whether it became idle.
unfoldable pub release : Instance → Instance × Bool
release inst = (
  record inst { in_flight_requests = inst.in_flight_requests - 1 },
  eqb (inst.in_flight_requests - 1) 0,
)

-- `drain_instances_for_binary_update`, on one instance; whether it is counted.
unfoldable pub drain_for_update : Instance → Instance × Bool
drain_for_update inst =
    (record inst { draining = true; draining_for_competitor = false }, not inst.draining)

-- The first pass of `evict_all_instances_gracefully`, on one instance.
unfoldable pub drain_for_memory : Instance → Instance
drain_for_memory inst = record inst { draining = true; draining_for_competitor = false }

-- The drain scheduling of `route_request` after a release: the instance makes way for a competitor.
unfoldable pub drain_for_competitor : Bool → Bool → Bool → Bool → Instance → Instance
drain_for_competitor was_draining dominated tenure_expired own_queue_empty inst =
    if not was_draining && dominated && (tenure_expired || own_queue_empty) && not inst.draining
    then record inst { draining = true; draining_for_competitor = true }
    else inst

-- `maybe_cancel_drains`, on one instance, where no competitor is queued any more; whether its drain
-- was cancelled.
unfoldable pub cancel_drain : Bool → Instance → Instance × Bool
cancel_drain has_competitors inst =
    if inst.draining_for_competitor && not has_competitors
    then (record inst { draining = false; draining_for_competitor = false }, true)
    else (inst, false)

pub data EvictionReason : Type 0 where
  idle crashed drained : EvictionReason

-- The profile that an instance runs, as the cookbook has it now: the hash of its arguments and its
-- idle timeout.
abbrev pub Resolve : Type 0
Resolve = String → String → Option (String × ℕ)

abbrev pub is_outdated : Option (String × ℕ) → String → ℕ → Bool
is_outdated none args_hash elapsed = true
is_outdated (some (new_hash, idle_timeout_seconds)) args_hash elapsed =
    if not (new_hash == args_hash) then true else ltb idle_timeout_seconds elapsed

-- The first pass of `check_idle_instances`, on one instance.
unfoldable pub eviction_reason : Resolve → ℕ → Instance → Option EvictionReason
eviction_reason resolve now inst =
    if not inst.alive
    then some crashed
    else if inst.draining && eqb inst.in_flight_requests 0
    then some drained
    else if eqb inst.in_flight_requests 0
        && is_outdated (resolve inst.model_name inst.profile_id) inst.args_hash
            (now - inst.last_activity)
    then some idle
    else none

abbrev pub with_reason :
    ℕ → Option EvictionReason → List (ℕ × EvictionReason) → List (ℕ × EvictionReason)
with_reason i none rest = rest
with_reason i (some reason) rest = (i, reason) ∷ rest

unfoldable pub to_evict : Resolve → ℕ → Heap → List ℕ → List (ℕ × EvictionReason)
unfolding eviction_reason
to_evict resolve now heap [] = []
to_evict resolve now heap (i ∷ map) =
    with_reason i (eviction_reason resolve now (heap i)) (to_evict resolve now heap map)

unfoldable pub still_eligible : EvictionReason → Instance → Bool
still_eligible crashed inst = true
still_eligible idle inst = eqb inst.in_flight_requests 0
still_eligible drained inst = inst.draining && eqb inst.in_flight_requests 0

-- The second pass, under the write lock on the map: the victims that are still to be evicted.
unfoldable pub confirmed : Heap → List ℕ → List (ℕ × EvictionReason) → List (ℕ × EvictionReason)
unfolding still_eligible
confirmed heap map [] = []
confirmed heap map ((i, reason) ∷ rest) =
    let others = confirmed heap map rest in
    if occurs i map && still_eligible reason (heap i) then (i, reason) ∷ others else others

abbrev pub remove_all : List (ℕ × EvictionReason) → List ℕ → List ℕ
remove_all [] map = map
remove_all ((i, reason) ∷ rest) map = remove_all rest (without i map)

-- `check_idle_instances`: the heap and the map may have changed between its two passes. The map that
-- is left, and the victims that are stopped.
unfoldable pub check_idle_instances :
    Resolve → ℕ → Heap → List ℕ → Heap → List ℕ → List ℕ × List (ℕ × EvictionReason)
unfolding to_evict confirmed
check_idle_instances resolve now heap map heap' map' =
    let victims = confirmed heap' map' (to_evict resolve now heap map) in
    (remove_all victims map', victims)

-- `evict_all_idle_instances`: its first pass, the second one under the write lock, and the result.
unfoldable pub idle_instances : Heap → List ℕ → List ℕ
idle_instances heap map =
    keep
      (λ i.
        eqb (heap i).in_flight_requests 0
        && not (has_failed (heap i).status)
        && not (heap i).draining)
      map

unfoldable pub verified : Heap → List ℕ → List ℕ → List ℕ
verified heap map ids = keep (λ i. occurs i map && eqb (heap i).in_flight_requests 0) ids

abbrev pub remove_each : List ℕ → List ℕ → List ℕ
remove_each [] map = map
remove_each (i ∷ rest) map = remove_each rest (without i map)

unfoldable pub evict_all_idle_instances : Heap → List ℕ → Heap → List ℕ → List ℕ × ℕ
unfolding idle_instances verified
evict_all_idle_instances heap map heap' map' =
    let victims = verified heap' map' (idle_instances heap map) in
    (remove_each victims map', length victims)
