-- ===== src/Slots/Tests.antt =====
-- Witnesses of the theorems on the slots, and runs of the operations.
use llamesh.Prelude.{ℕ, ◌≡◌, refl, true, false, some, List, [], ◌∷◌, arith, eqb, if◌then◌else◌}
use llamesh.Prelude.Eq.{string_key}
use llamesh.Queues.{Queues}
use llamesh.Queues.Tokens.{no_queues}
use llamesh.Routing.Filter.{Picks}
use llamesh.Slots.{
  Instance, Heap, ready, update, is_available, best_instance, no_best, claim, release, Resolve,
  idle, crashed, drained, check_idle_instances,
}
use llamesh.Slots.Life.{World, here, next, spawns, attaches, releases, spawned, empty_world}
use llamesh.Slots.Conservation.{IsConserved, Reach-IsConserved}
use llamesh.Slots.Choice.{may_take, fewer, best_instance-Picks}
use llamesh.Slots.Eviction.{Sweeps, check_idle_instances-Sweeps}
use llamesh.Slots.Cancelling.{maybe_cancel_drains}
use llamesh.Slots.Drains.{Cancels, maybe_cancel_drains-Cancels}

-- A request spawns instance 0, a second one joins it, and the first one ends.
abbrev started : World
started = record {
  heap = update empty_world.heap 0 (spawned "m" "default" "h" true false 5);
  mapped = 0 ∷ [];
  holders = 0 ∷ [];
  created = 1;
}

abbrev joined : World
joined = record started {
  heap = update started.heap 0 (claim 2 6 (started.heap 0)).0;
  holders = 0 ∷ 0 ∷ [];
}

abbrev left : World
left = record joined { heap = update joined.heap 0 (release (joined.heap 0)).0; holders = 0 ∷ [] }

Reach-IsConserved_example : IsConserved 2 left
unfolding claim
Reach-IsConserved_example = Reach-IsConserved (
    next
      (next (next here (spawns empty_world "m" "default" "h" true false 5))
        (attaches started 0 6 refl refl))
      (releases joined 0 refl))

-- Instance 0 is busy, 1 drains for a competitor, 2 has died and the others are idle.
abbrev instance : ℕ → Instance
instance requests = record (spawned "m" "default" "h" false false 0) {
  status = ready;
  in_flight_requests = requests;
}

abbrev heap : Heap
heap i =
    if eqb i 0
    then instance 2
    else if eqb i 1
    then record (instance 0) { draining = true; draining_for_competitor = true }
    else if eqb i 2
    then record (instance 1) { alive = false }
    else instance 0

abbrev map : List ℕ
map = 0 ∷ 1 ∷ 2 ∷ 3 ∷ []

idlest_is_chosen : (best_instance 4 "m" "default" heap map no_best).0 ≡ some 3
unfolding best_instance is_available
idlest_is_chosen = refl

best_instance-Picks_example :
    Picks
      (may_take 4 "m" "default" heap)
      (fewer 4 "m" "default" heap)
      map
      (best_instance 4 "m" "default" heap map no_best).0
best_instance-Picks_example =
    best_instance-Picks 4 "m" "default" heap map
      (ground arith, (ground arith, (ground arith, (ground arith, tt))))

-- The cookbook still has the profile, with a timeout of ten seconds.
abbrev resolve : Resolve
resolve model profile = some ("h", 10)

busy_stays :
    check_idle_instances resolve 11 heap map heap map
    ≡ (0 ∷ [], (1, drained) ∷ (2, crashed) ∷ (3, idle) ∷ [])
unfolding check_idle_instances
busy_stays = refl

check_idle_instances-Sweeps_example :
    Sweeps resolve 11 heap heap map (check_idle_instances resolve 11 heap map heap map)
check_idle_instances-Sweeps_example = check_idle_instances-Sweeps resolve 11 heap heap map map

-- The request of "n" that instance 1 makes way for, and the one of "m" that is to go on.
abbrev queues : Queues
queues = record no_queues { queues = ("n:default", []) ∷ ("m:default", 7 ∷ []) ∷ [] }

maybe_cancel_drains-Cancels_example :
    Cancels
      ("n:default" ∷ [])
      map
      (heap, queues)
      (maybe_cancel_drains (λ t. false) ("n:default" ∷ []) map (heap, queues))
maybe_cancel_drains-Cancels_example =
    maybe_cancel_drains-Cancels (λ t. false) ("n:default" ∷ []) map heap queues
