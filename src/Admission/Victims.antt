-- ===== src/Admission/Victims.antt =====
-- Which instances `pick_victims_from_accounting` evicts, and when it fails.
use llamesh.Prelude.{
  ℕ, zero, suc, ◌≤◌, ◌<◌, ◌≡◌, refl, ap, ◌∙◌, inl, inr, true, false, ◌&&◌, Option, none, some, List,
  [], ◌∷◌, String, arith, length, count_by, eqb, Bool-cases, if◌then◌else◌,
}
use llamesh.Prelude.Eq.{string_key, ◌==◌}
use llamesh.Prelude.Dict.{Dict}
use llamesh.Admission.Sort.{Candidate, IsSorted, sort-IsSorted, count-sort}
use llamesh.Admission.Account.{Instance, ResourceAccounting}
use llamesh.Admission.{
  Limits, Load, NodeError, max_instances_node, insufficient_resources, Result, ok, err, memory_fits,
  fits, credit, idle_candidates, evict_until, prepend, shortfall, current_load, candidates,
  pick_victims,
}

-- The load once the first candidates are gone, and their ids.
abbrev pub freed : ℕ → Load → List Candidate → Load
freed zero load cs = load
freed (suc n) load [] = load
freed (suc n) load (c ∷ cs) = freed n (credit load c) cs

abbrev pub first_ids : ℕ → List Candidate → List String
first_ids zero cs = []
first_ids (suc n) [] = []
first_ids (suc n) (c ∷ cs) = c.id ∷ first_ids n cs

module _ (limits : Limits) (required : ℕ × ℕ) where
  -- The victims are the first candidates, enough of them, and with fewer the spawn did not fit.
  pub record Picks (load : Load) (cs : List Candidate) (victims : List String) : Type 0 where
    pub number : ℕ
    pub at_most : number ≤ length cs
    pub first : victims ≡ first_ids number cs
    pub enough : fits limits required (freed number load cs) ≡ true
    pub needed : (m : ℕ) → m < number → fits limits required (freed m load cs) ≡ false

  -- With any number of the candidates gone the spawn does not fit; the error says whether, with
  -- all of them gone, the memory would.
  pub record Fails (load : Load) (cs : List Candidate) (e : NodeError) : Type 0 where
    pub none_fits : (m : ℕ) → m ≤ length cs → fits limits required (freed m load cs) ≡ false
    pub reason : e ≡ (
        if memory_fits limits required (freed (length cs) load cs)
        then max_instances_node
        else insufficient_resources)

  abbrev pub Outcome : Load → List Candidate → Result (List String) → Type 0
  Outcome load cs (ok victims) = Picks load cs victims
  Outcome load cs (err e) = Fails load cs e

  abbrev NoneFits : Load → List Candidate → Type 0
  NoneFits load cs = (m : ℕ) → m ≤ length cs → fits limits required (freed m load cs) ≡ false

  abbrev Evicts : Load → List Candidate → Load × Option (List String) → Type 0
  Evicts load cs (left, some ids) = Picks load cs ids
  Evicts load cs (left, none) = (left ≡ freed (length cs) load cs) × NoneFits load cs

  Picks-one :
      (load : Load) (c : Candidate) (cs : List Candidate)
      → fits limits required load ≡ false
      → fits limits required (credit load c) ≡ true
      → Picks load (c ∷ cs) (c.id ∷ [])
  Picks-one load c cs short fit = record {
    number = 1;
    at_most = omega arith;
    first = refl;
    enough = fit;
    needed = before;
  }
    where
      before : (m : ℕ) → m < 1 → fits limits required (freed m load (c ∷ cs)) ≡ false
      before zero h = short
      before (suc m) h = absurd (omega arith)

  Evicts-more :
      (load : Load) (c : Candidate) (cs : List Candidate) (r : Load × Option (List String))
      → fits limits required load ≡ false
      → Evicts (credit load c) cs r
      → Evicts load (c ∷ cs) (r.0, prepend c.id r.1)
  Evicts-more load c cs (left, some ids) short p = record {
    number = suc p.number;
    at_most = omega (arith, p.at_most);
    first = ap (◌∷◌ c.id) p.first;
    enough = p.enough;
    needed = before;
  }
    where
      before : (m : ℕ) → m < suc p.number → fits limits required (freed m load (c ∷ cs)) ≡ false
      before zero h = short
      before (suc m) h = p.needed m (omega arith)
  Evicts-more load c cs (left, none) short p = (p.0, before)
    where
      before : NoneFits load (c ∷ cs)
      before zero h = short
      before (suc m) h = p.1 m (omega arith)

  evict_until-Evicts :
      (load : Load) (cs : List Candidate)
      → fits limits required load ≡ false
      → Evicts load cs (evict_until limits required load cs)
  unfolding evict_until
  evict_until-Evicts load [] short = (refl, none_left)
    where
      none_left : NoneFits load []
      none_left zero h = short
      none_left (suc m) h = absurd (omega arith)
  evict_until-Evicts load (c ∷ cs) short =
      elim (Bool-cases (fits limits required (credit load c))) [
        | inl fit ↦ simp fit (Picks-one load c cs short fit)
        | inr short' ↦ simp short' (
            Evicts-more load c cs (evict_until limits required (credit load c) cs) short
              (evict_until-Evicts (credit load c) cs short'))
      ]

  shortfall-Outcome :
      (load : Load) (cs : List Candidate) (r : Load × Option (List String))
      → Evicts load cs r
      → Outcome load cs (shortfall limits required r)
  shortfall-Outcome load cs (left, some ids) p = p
  shortfall-Outcome load cs (left, none) p = elim (Bool-cases (memory_fits limits required left)) [
    | inl room ↦ simp room (fails max_instances_node (ground arith))
    | inr full ↦ simp full (fails insufficient_resources (ground arith))
  ]
    where
      fails :
          (e : NodeError)
          → e ≡ (
              if memory_fits limits required (freed (length cs) load cs)
              then max_instances_node
              else insufficient_resources)
          → Fails load cs e
      fails e why = record { none_fits = p.1; reason = why }

  pub pick_victims-Picks :
      (accounting : ResourceAccounting) (instances : List Instance)
      → Outcome
          (current_load accounting instances)
          (candidates accounting instances)
          (pick_victims limits accounting instances required)
  unfolding pick_victims
  pick_victims-Picks accounting instances =
      elim (Bool-cases (fits limits required (current_load accounting instances))) [
        | inl fit ↦ simp fit (fits_already fit)
        | inr short ↦ simp short (
            shortfall-Outcome load cs (evict_until limits required load cs)
              (evict_until-Evicts load cs short))
      ]
    where
      load : Load
      load = current_load accounting instances

      cs : List Candidate
      cs = candidates accounting instances

      fits_already : fits limits required load ≡ true → Picks load cs []
      fits_already fit = record {
        number = 0;
        at_most = omega arith;
        first = refl;
        enough = fit;
        needed = λ m h. absurd (omega arith);
      }

count-idle :
    (memory : Dict String (ℕ × ℕ)) (instances : List Instance) (id : String) (t : ℕ)
    → count_by (λ c. c.id == id && eqb c.last_activity t) (idle_candidates memory instances)
      ≡ count_by
          (λ i. (i.id == id && eqb i.last_activity t) && eqb i.in_flight_requests 0)
          instances
unfolding idle_candidates
count-idle memory [] id t = refl
count-idle memory (i ∷ instances) id t = ground (arith, count-idle memory instances id t)

-- The candidates are sorted with the least recently used first, and are the idle instances: each
-- id with each time of last activity occurs as often among them as among the instances with no
-- request in flight.
pub candidates_lem :
    (accounting : ResourceAccounting) (instances : List Instance) (id : String) (t : ℕ)
    → IsSorted (candidates accounting instances)
      × (count_by (λ c. c.id == id && eqb c.last_activity t) (candidates accounting instances)
          ≡ count_by
              (λ i. (i.id == id && eqb i.last_activity t) && eqb i.in_flight_requests 0)
              instances)
candidates_lem accounting instances id t = (
  sort-IsSorted _,
  count-sort _ (idle_candidates accounting.instance_memory instances)
      ∙ count-idle accounting.instance_memory instances id t,
)
