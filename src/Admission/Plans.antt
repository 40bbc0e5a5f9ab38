-- ===== src/Admission/Plans.antt =====
-- What a spawn plan guarantees.
use mathlib.Core.Path.{subst}
use Prim.Native.String.{◌++◌}
use llamesh.Prelude.{ℕ, ◌+◌, ◌≤◌, ◌<◌, ◌≡◌, true, Option, List, String, arith}
use llamesh.Prelude.Word.{u64_max}
use llamesh.SpawnReservations.{ReservationState, profile_count}
use llamesh.Admission.Sort.{Candidate}
use llamesh.Admission.Account.{Instance, Samples, resource_accounting}
use llamesh.Admission.{
  Limits, Load, Result, ok, err, SpawnPlan, current_load, candidates, fits, pick_victims, planned,
  plan_spawn, count_profile_instances, effective_max_instances,
}
use llamesh.Admission.Victims.{freed, first_ids, Outcome, Picks, pick_victims-Picks}

-- Below the `u64` maximum the saturating sums of `fits` are plain ones.
fits-true :
    (limits : Limits) (required : ℕ × ℕ) (load : Load)
    → limits.max_vram_mb < u64_max
    → limits.max_sysmem_mb < u64_max
    → fits limits required load ≡ true
    → (load.vram + required.0 ≤ limits.max_vram_mb)
      × (load.sysmem + required.1 ≤ limits.max_sysmem_mb)
      × (load.instances < limits.max_instances_per_node)
unfolding fits
fits-true limits required load hv hs h = ground arith

module _ (limits : Limits) (s : Samples) (reservations : ReservationState)
    (instances : List Instance) (model profile_id : String) (max_instances : Option ℕ)
    (required : ℕ × ℕ) where
  abbrev loaded : Load
  loaded = current_load (resource_accounting s reservations instances) instances

  abbrev queue : List Candidate
  queue = candidates (resource_accounting s reservations instances) instances

  -- The plan evicts the first `number` candidates, and then the spawn fits every limit of the
  -- node; the profile is below its cap, pending spawns counted; and the plan carries the revision
  -- of the registry that it was made from.
  pub record Admits (plan : SpawnPlan) : Type 0 where
    pub number : ℕ
    pub victims : plan.victims ≡ first_ids number queue
    pub vram : (freed number loaded queue).vram + required.0 ≤ limits.max_vram_mb
    pub sysmem : (freed number loaded queue).sysmem + required.1 ≤ limits.max_sysmem_mb
    pub room : (freed number loaded queue).instances < limits.max_instances_per_node
    pub below_cap :
        count_profile_instances instances model profile_id
          + profile_count reservations (model ++ ":" ++ profile_id)
        < effective_max_instances max_instances limits
    pub revision : plan.revision ≡ reservations.revision

  plan_of :
      (r : Result (List String)) (plan : SpawnPlan)
      → Outcome limits required loaded queue r
      → planned reservations.revision r ≡ ok plan
      → Picks limits required loaded queue plan.victims × (plan.revision ≡ reservations.revision)
  plan_of (ok ids) plan o e =
      let same : ids ≡ plan.victims = ground arith in
      (subst (λ v. Picks limits required loaded queue v) same o, ground arith)
  plan_of (err x) plan o e = cc

  under_cap :
      (plan : SpawnPlan)
      → plan_spawn limits s reservations instances model profile_id max_instances required ≡ ok plan
      → (count_profile_instances instances model profile_id
            + profile_count reservations (model ++ ":" ++ profile_id)
          < effective_max_instances max_instances limits)
        × (planned reservations.revision (
              pick_victims limits (resource_accounting s reservations instances) instances required)
            ≡ ok plan)
  unfolding plan_spawn resource_accounting
  under_cap plan e = ground arith

  -- With limits below the `u64` maximum, a plan admits its spawn: it evicts the first so many of the
  -- idle instances, least recently used first, after which the spawn fits the memory limits and the
  -- instance limit of the node; the profile is below its cap with pending spawns counted; and the
  -- plan carries the revision of the registry that it was made from.
  pub plan_spawn-Admits :
      (plan : SpawnPlan)
      → limits.max_vram_mb < u64_max
      → limits.max_sysmem_mb < u64_max
      → plan_spawn limits s reservations instances model profile_id max_instances required ≡ ok plan
      → Admits plan
  plan_spawn-Admits plan hv hs e =
      let cap = under_cap plan e in
      let accounting = resource_accounting s reservations instances in
      let (picks, revision) =
        plan_of (pick_victims limits accounting instances required) plan
          (pick_victims-Picks limits required accounting instances) cap.1 in
      let room = fits-true limits required (freed picks.number loaded queue) hv hs picks.enough in
      record {
        number = picks.number;
        victims = picks.first;
        vram = room.0;
        sysmem = room.1;
        room = room.2;
        below_cap = cap.0;
        revision = revision;
      }
