-- ===== src/Routing/Score.antt =====
-- src/node_state/mod.rs: the score of a node, on which `select_best_node` sorts. A lower score is
-- better. Floating-point numbers are the parameter `Floats`; the penalty for an eviction is a whole
-- number until the score is summed up.
use llamesh.Prelude.{
  ℕ, ◌+◌, ◌-◌, ◌*◌, ◌/◌, ◌≤◌, ◌<◌, ◌≡◌, ◌⊎◌, inl, inr, ap, min, max, String, Bool, not, ◌&&◌, ◌||◌,
  Option, none, some, any, arith, leb, ltb, eqb, if◌then◌else◌,
}
use llamesh.Prelude.Eq.{string_key, ◌==◌}
use llamesh.Prelude.Dict.{lookup}
use llamesh.Gossip.Peer.{PeerState, PeerModelStats}

-- `f64`: its numbers, from a whole number and from the bits of a reported rate.
pub record Floats : Type 1 where
  pub Float : Type 0
  pub of_nat : ℕ → Float
  pub of_bits : ℕ → Float
  pub add : Float → Float → Float
  pub sub : Float → Float → Float
  pub mul : Float → Float → Float
  pub minimum : Float → Float → Float
  pub lt : Float → Float → Bool

-- The outcomes of `calculate_cold_start_cost`, each with its cost.
pub data ColdStart : Type 0 where
  fits_now cannot_fit : ColdStart
  needs_eviction : ℕ → ColdStart

abbrev pub div_ceil : ℕ → ℕ → ℕ
div_ceil a b = (a + b - 1) / b

-- The average memory of an instance, of what is used.
abbrev pub average : ℕ → ℕ → ℕ
average used active = if ltb 0 used then used / active else 1

abbrev pub evictions : ℕ → ℕ → ℕ
evictions avg deficit = if ltb 0 avg && ltb 0 deficit then div_ceil deficit avg else 0

-- One at least, and no more than are running.
unfoldable pub capped : ℕ → ℕ → ℕ
capped active count = min (if eqb active 0 then 1 else max count 1) active

unfoldable pub eviction_count : PeerState → ℕ → ℕ → ℕ
unfolding capped
eviction_count peer vram_required sysmem_required = capped peer.active_instances (
    max
      (evictions (average (peer.max_vram - peer.available_vram) peer.active_instances)
        (vram_required - peer.available_vram))
      (evictions (average (peer.max_sysmem - peer.available_sysmem) peer.active_instances)
        (sysmem_required - peer.available_sysmem)))

-- Whether what is required is available, in VRAM and in system memory, and at all on the node.
unfoldable pub placed : ℕ → ℕ → ℕ × ℕ → ℕ × ℕ → ℕ → ColdStart
placed vram sysmem available most count =
    if eqb vram 0 && eqb sysmem 0
    then fits_now
    else if (eqb vram 0 || leb vram available.0) && (eqb sysmem 0 || leb sysmem available.1)
    then fits_now
    else if not (eqb vram 0 || leb vram most.0) || not (eqb sysmem 0 || leb sysmem most.1)
    then cannot_fit
    else needs_eviction count

unfoldable pub cold_start : PeerState → ℕ → ℕ → ColdStart
unfolding placed eviction_count
cold_start peer vram_required sysmem_required =
    placed vram_required sysmem_required (peer.available_vram, peer.available_sysmem)
      (peer.max_vram, peer.max_sysmem) (eviction_count peer vram_required sysmem_required)

abbrev pub cost : ColdStart → ℕ
cost fits_now = 30
cost cannot_fit = 10000
cost (needs_eviction count) = 500 + count * 200

unfoldable pub calculate_cold_start_cost : PeerState → ℕ → ℕ → ℕ
unfolding cold_start
calculate_cold_start_cost peer vram_required sysmem_required =
    cost (cold_start peer vram_required sysmem_required)

-- The memory that a model needs: what the peer reports, unless that is nothing.
abbrev pub required : Option PeerModelStats → ℕ × ℕ → ℕ × ℕ
required none estimate = estimate
required (some s) estimate =
    if ltb 0 s.vram_mb || ltb 0 s.sysmem_mb then (s.vram_mb, s.sysmem_mb) else estimate

abbrev pub reported_tps : (f : Floats) → Option PeerModelStats → f.Float
reported_tps f none = f.of_nat 0
reported_tps f (some s) = f.of_bits s.tps

unfoldable pub calculate_node_score : (f : Floats) → PeerState → String → ℕ × ℕ → ℕ → f.Float
unfolding calculate_cold_start_cost
calculate_node_score f peer model_key local_memory_estimate effective_current_requests =
    let stats = lookup model_key peer.model_stats in
    let (vram, sysmem) = required stats local_memory_estimate in
    let load =
      f.add (f.mul (f.of_nat peer.total_queue_length) (f.of_nat 50))
        (f.mul (f.of_nat effective_current_requests) (f.of_nat 50)) in
    let start =
      if any (λ (m : String). m == model_key) peer.loaded_models
      then f.of_nat 0
      else f.of_nat (calculate_cold_start_cost peer vram sysmem) in
    let tps_bonus = f.mul (f.minimum (reported_tps f stats) (f.of_nat 200)) (f.of_nat 5) in
    let headroom =
      f.mul (f.minimum (f.of_nat (peer.max_instances - peer.active_instances)) (f.of_nat 4))
        (f.of_nat 50) in
    f.sub (f.sub (f.add load start) tps_bonus) headroom

capped-bounds :
    (active count : ℕ) → (capped active count ≤ active) × (min 1 active ≤ capped active count)
unfolding capped
capped-bounds active count = (omega arith, ground arith)

module _ (vram sysmem av free mv ms count : ℕ) where
  abbrev FitsNow : Type 0
  FitsNow = (vram ≤ av) × (sysmem ≤ free)

  abbrev NeedsMore : Type 0
  NeedsMore = (av < vram) ⊎ (free < sysmem)

  placed-cases :
      (FitsNow × (placed vram sysmem (av, free) (mv, ms) count ≡ fits_now))
      ⊎ (NeedsMore
          × ((mv < vram) ⊎ (ms < sysmem))
          × (placed vram sysmem (av, free) (mv, ms) count ≡ cannot_fit))
      ⊎ (NeedsMore
          × (vram ≤ mv)
          × (sysmem ≤ ms)
          × (placed vram sysmem (av, free) (mv, ms) count ≡ needs_eviction count))
  unfolding placed
  placed-cases = ground arith

-- What a cold start costs: 30 where what it requires is available; otherwise 10000 where it requires
-- more than the node may use at all, and else 500 and 200 for each of the evictions, of which there
-- are no more than running instances, and one at least where any runs.
pub calculate_cold_start_cost-cases :
    (peer : PeerState) (vram sysmem : ℕ)
    → (((vram ≤ peer.available_vram) × (sysmem ≤ peer.available_sysmem))
        × (calculate_cold_start_cost peer vram sysmem ≡ 30))
      ⊎ (((peer.available_vram < vram) ⊎ (peer.available_sysmem < sysmem))
          × ((peer.max_vram < vram) ⊎ (peer.max_sysmem < sysmem))
          × (calculate_cold_start_cost peer vram sysmem ≡ 10000))
      ⊎ (((peer.available_vram < vram) ⊎ (peer.available_sysmem < sysmem))
          × (vram ≤ peer.max_vram)
          × (sysmem ≤ peer.max_sysmem)
          × (count : ℕ) × (calculate_cold_start_cost peer vram sysmem ≡ 500 + count * 200)
          × (count ≤ peer.active_instances)
          × (min 1 peer.active_instances ≤ count))
unfolding calculate_cold_start_cost cold_start eviction_count
calculate_cold_start_cost-cases peer vram sysmem =
    elim (placed-cases vram sysmem av free mv ms count) [
      | inl (h, e) ↦ inl (h, ap cost e)
      | inr (inl (h, k, e)) ↦ inr (inl (h, k, ap cost e))
      | inr (inr (h, a, b, e)) ↦ inr (
          inr (
            h,
            a,
            b,
            count,
            ap cost e,
            (capped-bounds peer.active_instances most).0,
            (capped-bounds peer.active_instances most).1,
          ))
    ]
  where
    open peer use {available_vram as av, available_sysmem as free, max_vram as mv, max_sysmem as ms}

    count : ℕ
    count = eviction_count peer vram sysmem

    most : ℕ
    most =
        max (evictions (average (mv - av) peer.active_instances) (vram - av))
          (evictions (average (ms - free) peer.active_instances) (sysmem - free))
