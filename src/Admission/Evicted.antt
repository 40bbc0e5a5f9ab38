-- ===== src/Admission/Evicted.antt =====
-- src/node_state/mod.rs, `pick_victims_from_accounting`: which instances are evicted, in terms of the
-- instances, their memory and the limits.
use llamesh.Prelude.{
  ℕ, zero, suc, ◌+◌, ◌-◌, ◌≤◌, ◌<◌, ◌≡◌, ◌⊎◌, ◌↔◌, refl, ◌∙◌, inl, inr, min, true, ◌&&◌, Option,
  none, some, List, [], ◌∷◌, String, arith, length, All, count_by, leb, eqb, if_both, Bool-cases,
}
use llamesh.Prelude.Word.{u64_max}
use llamesh.Prelude.Eq.{string_key, ◌==◌}
use llamesh.Prelude.Dict.{Dict, lookup}
use llamesh.Admission.Sort.{Candidate, IsSorted, insert_by_key, sort_by_key}
use llamesh.Admission.Account.{Instance, ResourceAccounting}
use llamesh.Admission.{
  Limits, Load, max_instances_node, insufficient_resources, Result, ok, err, memory_fits, fits,
  credit, idle_candidates, current_load, candidates, pick_victims, memory_of,
}
use llamesh.Admission.Victims.{freed, first_ids, Outcome, candidates_lem, pick_victims-Picks}

-- The memory of the first so many candidates.
abbrev pub sum_of : (Candidate → ℕ) → ℕ → List Candidate → ℕ
sum_of size zero cs = 0
sum_of size (suc n) [] = 0
sum_of size (suc n) (c ∷ cs) = size c + sum_of size n cs

-- The load once they are gone.
abbrev pub left : ℕ → Load → List Candidate → Load
left n load cs = record {
  vram = load.vram - sum_of (λ c. c.vram) n cs;
  sysmem = load.sysmem - sum_of (λ c. c.sysmem) n cs;
  instances = load.instances - n;
}

-- The memory that is required fits the limits, and there is room for one more instance.
abbrev pub FitsMemory : Limits → ℕ × ℕ → Load → Type 0
FitsMemory limits required load =
    (min (load.vram + required.0) u64_max ≤ limits.max_vram_mb)
    × (min (load.sysmem + required.1) u64_max ≤ limits.max_sysmem_mb)

abbrev pub Fits : Limits → ℕ × ℕ → Load → Type 0
Fits limits required load =
    FitsMemory limits required load × (load.instances < limits.max_instances_per_node)

-- A candidate is credited with the memory of its instance in the account.
abbrev pub IsCredited : Dict String (ℕ × ℕ) → Candidate → Type 0
unfolding lookup
IsCredited memory c =
    (lookup c.id memory ≡ some (c.vram, c.sysmem))
    ⊎ ((lookup c.id memory ≡ none) × (c.vram ≡ 0) × (c.sysmem ≡ 0))

-- The idle instances, least recently used first, each with its memory: every id occurs with every
-- time of last activity as often as among the instances without a request in flight.
pub record IsQueue (accounting : ResourceAccounting) (instances : List Instance)
    (cs : List Candidate) : Type 0 where
  pub sorted : IsSorted cs
  pub idle :
      (id : String) (t : ℕ)
      → count_by (λ c. c.id == id && eqb c.last_activity t) cs
        ≡ count_by
            (λ i. (i.id == id && eqb i.last_activity t) && eqb i.in_flight_requests 0)
            instances
  pub credited : All (IsCredited accounting.instance_memory) cs

freed-left :
    (n : ℕ) (load : Load) (cs : List Candidate)
    → n ≤ length cs
    → ((freed n load cs).vram ≡ (left n load cs).vram)
      × ((freed n load cs).sysmem ≡ (left n load cs).sysmem)
      × ((freed n load cs).instances ≡ (left n load cs).instances)
freed-left zero load cs h = (omega arith, omega arith, omega arith)
freed-left (suc n) load [] h = absurd (omega arith)
freed-left (suc n) load (c ∷ cs) h =
    let rest = freed-left n (credit load c) cs (omega arith) in
    (omega (arith, rest.0), omega (arith, rest.1), omega (arith, rest.2))

fits_iff :
    (limits : Limits) (required : ℕ × ℕ) (load : Load)
    → (fits limits required load ≡ true) ↔ Fits limits required load
unfolding fits
fits_iff limits required load = ground arith

memory_iff :
    (limits : Limits) (required : ℕ × ℕ) (load : Load)
    → (memory_fits limits required load ≡ true) ↔ FitsMemory limits required load
memory_iff limits required load = ground arith

module _ (P : Candidate → Type 0) where
  All-insert : (c : Candidate) (cs : List Candidate) → P c → All P cs → All P (insert_by_key c cs)
  unfolding insert_by_key
  All-insert c [] p a = (p, tt)
  All-insert c (d ∷ ds) p a =
      if_both (λ ds'. All P ds') (leb c.last_activity d.last_activity) _ _ (p, a)
        (a.0, All-insert c ds p a.1)

  All-sort : (cs : List Candidate) → All P cs → All P (sort_by_key cs)
  unfolding sort_by_key
  All-sort [] a = tt
  All-sort (c ∷ cs) a = All-insert c (sort_by_key cs) a.0 (All-sort cs a.1)

credit-IsCredited :
    (memory : Dict String (ℕ × ℕ)) (id : String) (t : ℕ) (o : Option (ℕ × ℕ))
    → lookup id memory ≡ o
    → IsCredited memory
        (record { id = id; last_activity = t; vram = (memory_of o).0; sysmem = (memory_of o).1 })
unfolding IsCredited
credit-IsCredited memory id t none e = inr (e, refl, refl)
credit-IsCredited memory id t (some m) e = inl e

idle_candidates-IsCredited :
    (memory : Dict String (ℕ × ℕ)) (instances : List Instance)
    → All (IsCredited memory) (idle_candidates memory instances)
unfolding idle_candidates
idle_candidates-IsCredited memory [] = tt
idle_candidates-IsCredited memory (i ∷ instances) =
    let rest = idle_candidates-IsCredited memory instances in
    if_both (λ cs. All (IsCredited memory) cs) (eqb i.in_flight_requests 0) _ _
      (credit-IsCredited memory i.id i.last_activity (lookup i.id memory) refl, rest) rest

module _ (limits : Limits) (required : ℕ × ℕ) (load : Load) (cs : List Candidate) where
  Fits-left :
      (n : ℕ)
      → n ≤ length cs
      → (fits limits required (freed n load cs) ≡ true) ↔ Fits limits required (left n load cs)
  Fits-left n h = ground (arith, fits_iff limits required (freed n load cs), freed-left n load cs h)

  FitsMemory-left :
      (memory_fits limits required (freed (length cs) load cs) ≡ true)
      ↔ FitsMemory limits required (left (length cs) load cs)
  FitsMemory-left = ground (
    arith,
    memory_iff limits required (freed (length cs) load cs),
    freed-left (length cs) load cs (omega arith),
  )

  -- The victims are the first of the queue, enough of them, and with fewer the spawn does not fit;
  -- or it does not fit with any number of them gone, and the error says whether the memory would with
  -- all of them gone.
  abbrev pub Evicts : Result (List String) → Type 0
  Evicts (ok victims) =
      (n : ℕ) × (n ≤ length cs)
      × (victims ≡ first_ids n cs)
      × Fits limits required (left n load cs)
      × ((m : ℕ) → m < n → ¬ Fits limits required (left m load cs))
  Evicts (err e) =
      ((m : ℕ) → m ≤ length cs → ¬ Fits limits required (left m load cs))
      × (((e ≡ max_instances_node) × FitsMemory limits required (left (length cs) load cs))
          ⊎ ((e ≡ insufficient_resources)
              × (¬ FitsMemory limits required (left (length cs) load cs))))

  Outcome-Evicts : (r : Result (List String)) → Outcome limits required load cs r → Evicts r
  Outcome-Evicts (ok victims) p = (
    p.number,
    p.at_most,
    p.first,
    (Fits-left p.number p.at_most).0 p.enough,
    λ m h f. ground (arith, p.needed m h, (Fits-left m (omega (arith, p.at_most))).1 f),
  )
  Outcome-Evicts (err e) p = (
    λ m h f. ground (arith, p.none_fits m h, (Fits-left m h).1 f),
    elim (Bool-cases (memory_fits limits required (freed (length cs) load cs))) [
      | inl room ↦ inl (p.reason ∙ rw room refl, FitsMemory-left.0 room)
      | inr short ↦ inr (p.reason ∙ rw short refl, λ f. ground (arith, FitsMemory-left.1 f, short))
    ],
  )

-- The victims are the least recently used of the instances without a request in flight: the shortest
-- run of them, in that order, after which the spawn fits the limits of memory and of instances, each
-- credited with its memory in the account; none, if it fits already. It fails only where evicting all
-- of them would not do, with `max_instances_node` exactly where the memory alone would then fit.
pub pick_victims-Outcome :
    (limits : Limits) (accounting : ResourceAccounting) (instances : List Instance)
    (required : ℕ × ℕ)
    → (cs : List Candidate) × IsQueue accounting instances cs
      × Evicts limits required
          (current_load accounting instances)
          cs
          (pick_victims limits accounting instances required)
pick_victims-Outcome limits accounting instances required =
    let cs = candidates accounting instances in
    (
      cs,
      record {
        sorted = (candidates_lem accounting instances "" 0).0;
        idle = λ id t. (candidates_lem accounting instances id t).1;
        credited =
            All-sort (IsCredited accounting.instance_memory) _
              (idle_candidates-IsCredited accounting.instance_memory instances);
      },
      Outcome-Evicts limits required (current_load accounting instances) cs
          (pick_victims limits accounting instances required)
          (pick_victims-Picks limits required accounting instances),
    )
