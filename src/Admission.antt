-- ===== src/Admission.antt =====
-- src/node_state/mod.rs: the admission of a spawn. The node's memory is accounted for, the
-- profile's cap is checked, and idle instances are picked as victims, least recently used first.
pub mod Account
pub mod Sort
pub mod Accounting
pub mod Victims
pub mod Evicted
pub mod Plans
pub mod Tests
use Account.{Instance, ResourceAccounting, Samples, resource_accounting}
use Sort.{Candidate, sort_by_key}
use llamesh.Prelude.{
  ℕ, zero, suc, ◌+◌, ◌-◌, max, Bool, true, false, not, ◌&&◌, ◌||◌, Option, none, some, List, [],
  ◌∷◌, map, String, length, count_by, is_some, ltb, leb, eqb, if◌then◌else◌,
}
use Prim.Native.String.{◌++◌}
use llamesh.Prelude.Word.{saturating_add}
use llamesh.Prelude.Eq.{string_key, ◌==◌}
use llamesh.Prelude.Dict.{Dict, lookup, insert}
use llamesh.SpawnReservations.{MemoryCommitment, ReservationState, profile_count, node_total}

pub data NodeError : Type 0 where
  max_instances_profile max_instances_node insufficient_resources : NodeError

pub data Result {ℓ} (A : Type ℓ) : Type ℓ where
  ok : A → Result A
  err : NodeError → Result A

-- The limits of the node's configuration.
pub record Limits : Type 0 where
  pub max_vram_mb : ℕ
  pub max_sysmem_mb : ℕ
  pub max_instances_per_node : ℕ
  pub max_instances_per_model : ℕ

-- What is in use, or would be after some evictions: `curr_vram`, `curr_sysmem`, `curr_instances`.
pub record Load : Type 0 where
  pub vram : ℕ
  pub sysmem : ℕ
  pub instances : ℕ

abbrev pub memory_fits : Limits → ℕ × ℕ → Load → Bool
memory_fits limits required load =
    leb (saturating_add load.vram required.0) limits.max_vram_mb
    && leb (saturating_add load.sysmem required.1) limits.max_sysmem_mb

unfoldable pub fits : Limits → ℕ × ℕ → Load → Bool
fits limits required load =
    memory_fits limits required load && ltb load.instances limits.max_instances_per_node

-- A candidate's memory taken off, each count stopping at 0.
abbrev pub credit : Load → Candidate → Load
credit load c = record {
  vram = load.vram - c.vram;
  sysmem = load.sysmem - c.sysmem;
  instances = load.instances - 1;
}

abbrev pub memory_of : Option (ℕ × ℕ) → ℕ × ℕ
memory_of none = (0, 0)
memory_of (some m) = m

-- The idle instances, in the order in which the map gives them.
unfoldable pub idle_candidates : Dict String (ℕ × ℕ) → List Instance → List Candidate
idle_candidates memory [] = []
idle_candidates memory (inst ∷ instances) =
    let rest = idle_candidates memory instances in
    let (vram, sysmem) = memory_of (lookup inst.id memory) in
    if eqb inst.in_flight_requests 0
    then record { id = inst.id; last_activity = inst.last_activity; vram = vram; sysmem = sysmem }
      ∷ rest
    else rest

abbrev pub prepend : String → Option (List String) → Option (List String)
prepend id none = none
prepend id (some ids) = some (id ∷ ids)

-- The loop over the sorted candidates, with the load that it leaves: the victims once the rest
-- fits, and `none` when the candidates run out.
unfoldable pub evict_until : Limits → ℕ × ℕ → Load → List Candidate → Load × Option (List String)
evict_until limits required load [] = (load, none)
evict_until limits required load (c ∷ cs) =
    let freed = credit load c in
    let rest = evict_until limits required freed cs in
    if fits limits required freed then (freed, some (c.id ∷ [])) else (rest.0, prepend c.id rest.1)

abbrev shortfall : Limits → ℕ × ℕ → Load × Option (List String) → Result (List String)
shortfall limits required (load, some victims) = ok victims
shortfall limits required (load, none) =
    if memory_fits limits required load then err max_instances_node else err insufficient_resources

abbrev pub current_load : ResourceAccounting → List Instance → Load
current_load accounting instances = record {
  vram = accounting.resources.effective_vram_mb;
  sysmem = accounting.resources.effective_sysmem_mb;
  instances = length instances + node_total accounting.reservations;
}

abbrev pub candidates : ResourceAccounting → List Instance → List Candidate
candidates accounting instances = sort_by_key (idle_candidates accounting.instance_memory instances)

-- `pick_victims_from_accounting`
unfoldable pub pick_victims :
    Limits → ResourceAccounting → List Instance → ℕ × ℕ → Result (List String)
pick_victims limits accounting instances required =
    let load = current_load accounting instances in
    if fits limits required load
    then ok []
    else shortfall limits required
        (evict_until limits required load (candidates accounting instances))

unfoldable pub count_profile_instances : List Instance → String → String → ℕ
count_profile_instances instances model_name profile_id =
    count_by (λ inst. inst.model_name == model_name && inst.profile_id == profile_id) instances

-- src/config.rs, `Profile::effective_max_instances`
unfoldable pub effective_max_instances : Option ℕ → Limits → ℕ
effective_max_instances (some val) limits = val
effective_max_instances none limits = max limits.max_instances_per_model 1

pub record SpawnPlan : Type 0 where
  pub victims : List String
  pub revision : ℕ

abbrev planned : ℕ → Result (List String) → Result SpawnPlan
planned revision (ok victims) = ok (record { victims = victims; revision = revision })
planned revision (err e) = err e

-- `plan_spawn`; `max_instances` is the profile's own cap.
unfoldable pub plan_spawn :
    Limits
    → Samples
    → ReservationState
    → List Instance
    → String
    → String
    → Option ℕ
    → ℕ × ℕ
    → Result SpawnPlan
plan_spawn limits s reservations instances model profile_id max_instances required =
    let accounting = resource_accounting s reservations instances in
    let count = count_profile_instances instances model profile_id in
    let key = model ++ ":" ++ profile_id in
    if leb (effective_max_instances max_instances limits)
      (count + profile_count accounting.reservations key)
    then err max_instances_profile
    else planned accounting.reservations.revision
        (pick_victims limits accounting instances required)
