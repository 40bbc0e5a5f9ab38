-- ===== src/Slots/Eviction.antt =====
-- src/node_state/mod.rs: which instances the sweeps stop.
use llamesh.Prelude.{
  ℕ, ◌-◌, ◌≡◌, ◌≢◌, ◌<◌, ◌⊎◌, String, inl, inr, refl, Bool, true, false, not, ◌&&◌, Option, none,
  some, List, [], ◌∷◌, All, keep, any, arith, eqb, eqb_iff, Bool-cases,
}
use llamesh.Prelude.Eq.{string_key}
use llamesh.Prelude.Buckets.{occurs, occurs-keep, without}
use llamesh.Slots.{
  Heap, EvictionReason, idle, crashed, drained, Resolve, eviction_reason, to_evict, with_reason,
  still_eligible, confirmed, remove_all, check_idle_instances, is_outdated, has_failed,
  idle_instances, verified, remove_each, evict_all_idle_instances,
}

-- The profile of an instance is gone, has other arguments now, or allows less idle time than this.
abbrev pub IsUnwanted : Option (String × ℕ) → String → ℕ → Type 0
IsUnwanted none args_hash elapsed = Unit
IsUnwanted (some (new_hash, idle_timeout_seconds)) args_hash elapsed =
    (new_hash ≢ args_hash) ⊎ (idle_timeout_seconds < elapsed)

-- Why a victim may be stopped: its process was dead at the first pass; or it was alive and had no
-- request then, was draining or unwanted, and has no request at the second pass, at which it is
-- draining still, if that is the reason.
abbrev pub IsJust : Resolve → ℕ → Heap → Heap → ℕ × EvictionReason → Type 0
IsJust resolve now heap heap' (i, crashed) = (heap i).alive ≡ false
IsJust resolve now heap heap' (i, drained) =
    ((heap i).draining ≡ true)
    × ((heap i).in_flight_requests ≡ 0)
    × ((heap' i).draining ≡ true)
    × ((heap' i).in_flight_requests ≡ 0)
IsJust resolve now heap heap' (i, idle) =
    ((heap i).alive ≡ true)
    × ((heap i).in_flight_requests ≡ 0)
    × IsUnwanted (resolve (heap i).model_name (heap i).profile_id) (heap i).args_hash
        (now - (heap i).last_activity)
    × ((heap' i).in_flight_requests ≡ 0)

is_outdated-IsUnwanted :
    (o : Option (String × ℕ)) (args_hash : String) (elapsed : ℕ)
    → is_outdated o args_hash elapsed ≡ true
    → IsUnwanted o args_hash elapsed
is_outdated-IsUnwanted none args_hash elapsed h = tt
is_outdated-IsUnwanted (some (new_hash, timeout)) args_hash elapsed h =
    ground (arith, string_key.same_iff new_hash args_hash)

abbrev pub is_victim : ℕ → List (ℕ × EvictionReason) → Bool
is_victim i victims = any (λ (v : ℕ × EvictionReason). eqb i v.0) victims

-- What `check_idle_instances` leaves and stops.
pub record Sweeps (resolve : Resolve) (now : ℕ) (heap heap' : Heap) (map' : List ℕ)
    (result : List ℕ × List (ℕ × EvictionReason)) : Type 0 where
  pub just : All (λ v. IsJust resolve now heap heap' v × (occurs v.0 map' ≡ true)) result.1
  pub left : (i : ℕ) → occurs i result.0 ≡ (occurs i map' && not (is_victim i result.1))

occurs-remove_all :
    (j : ℕ) (victims : List (ℕ × EvictionReason)) (map : List ℕ)
    → occurs j (remove_all victims map) ≡ (occurs j map && not (is_victim j victims))
occurs-remove_all j [] map = ground arith
occurs-remove_all j ((i, r) ∷ victims) map = ground (
  arith,
  occurs-remove_all j victims (without i map),
  occurs-keep (λ x. not (eqb x i)) j map,
  eqb_iff j i,
)

module _ (resolve : Resolve) (now : ℕ) (heap heap' : Heap) (map' : List ℕ) where
  abbrev HasReason : ℕ × EvictionReason → Type 0
  HasReason (i, r) = eviction_reason resolve now (heap i) ≡ some r

  with_reason-HasReason :
      (i : ℕ) (o : Option EvictionReason) (rest : List (ℕ × EvictionReason))
      → eviction_reason resolve now (heap i) ≡ o
      → All HasReason rest
      → All HasReason (with_reason i o rest)
  with_reason-HasReason i none rest e a = a
  with_reason-HasReason i (some r) rest e a = (e, a)

  to_evict-HasReason : (map : List ℕ) → All HasReason (to_evict resolve now heap map)
  unfolding to_evict
  to_evict-HasReason [] = tt
  to_evict-HasReason (i ∷ map) =
      with_reason-HasReason i (eviction_reason resolve now (heap i)) (to_evict resolve now heap map)
        refl (to_evict-HasReason map)

  reason-IsJust :
      (i : ℕ) (r : EvictionReason)
      → eviction_reason resolve now (heap i) ≡ some r
      → still_eligible r (heap' i) ≡ true
      → IsJust resolve now heap heap' (i, r)
  unfolding eviction_reason still_eligible
  reason-IsJust i crashed e h = ground arith
  reason-IsJust i drained e h = ground arith
  reason-IsJust i idle e h =
      let outdated =
        is_outdated-IsUnwanted (resolve (heap i).model_name (heap i).profile_id) (heap i).args_hash
          (now - (heap i).last_activity) in
      (ground arith, ground arith, outdated (ground arith), ground arith)

  confirmed-IsJust :
      (victims : List (ℕ × EvictionReason))
      → All HasReason victims
      → All
          (λ v. IsJust resolve now heap heap' v × (occurs v.0 map' ≡ true))
          (confirmed heap' map' victims)
  unfolding confirmed
  confirmed-IsJust [] a = tt
  confirmed-IsJust ((i, r) ∷ victims) (e, a) =
      elim (Bool-cases (occurs i map' && still_eligible r (heap' i))) [
        | inl t ↦
            rw t ((reason-IsJust i r e (ground arith), ground arith), confirmed-IsJust victims a)
        | inr t ↦ rw t (confirmed-IsJust victims a)
      ]

  -- The idle sweep stops only instances of the map, each for a reason: at the first pass its process
  -- had died; or it was alive, had no request then, and its profile was gone, had other arguments or
  -- allowed less idle time; or it was draining without a request. One whose process had not died has
  -- no request under the lock of the second pass either, and drains still if that was the reason;
  -- that its time had run out is not looked at again. Every other instance stays in the map.
  pub check_idle_instances-Sweeps :
      (map : List ℕ)
      → Sweeps resolve now heap heap' map' (check_idle_instances resolve now heap map heap' map')
  unfolding check_idle_instances
  check_idle_instances-Sweeps map = record {
    just = confirmed-IsJust (to_evict resolve now heap map) (to_evict-HasReason map);
    left = λ i. occurs-remove_all i (confirmed heap' map' (to_evict resolve now heap map)) map';
  }

occurs-remove_each :
    (j : ℕ) (ids map : List ℕ)
    → occurs j (remove_each ids map) ≡ (occurs j map && not (occurs j ids))
occurs-remove_each j [] map = ground arith
occurs-remove_each j (i ∷ ids) map = ground (
  arith,
  occurs-remove_each j ids (without i map),
  occurs-keep (λ x. not (eqb x i)) j map,
  eqb_iff j i,
)

-- Recovery from a failed cold start evicts exactly the instances that were in the map at both
-- passes, have no request at either, and at the first had neither failed nor been draining; no
-- other instance leaves the map.
pub evict_all_idle_instances-left :
    (heap heap' : Heap) (map map' : List ℕ) (i : ℕ)
    → occurs i (evict_all_idle_instances heap map heap' map').0 ≡ (
        occurs i map'
        && not (
            occurs i map
            && eqb (heap i).in_flight_requests 0
            && not (has_failed (heap i).status)
            && not (heap i).draining
            && eqb (heap' i).in_flight_requests 0))
unfolding evict_all_idle_instances idle_instances verified
evict_all_idle_instances-left heap heap' map map' i = ground (
  arith,
  occurs-remove_each i (keep still (keep free map)) map',
  occurs-keep still i (keep free map),
  occurs-keep free i map,
)
  where
    free : ℕ → Bool
    free j =
        eqb (heap j).in_flight_requests 0
        && not (has_failed (heap j).status)
        && not (heap j).draining

    still : ℕ → Bool
    still j = occurs j map' && eqb (heap' j).in_flight_requests 0
