-- ===== src/Acquire/Retries.antt =====
-- src/node_state/mod.rs: how often `get_instance_for_model` retries a load, and what it evicts.
use llamesh.Prelude.{
  ℕ, ◌+◌, ◌≡◌, ◌≤◌, ◌<◌, refl, Bool, true, false, ◌||◌, List, [], ◌∷◌, ◌++◌, arith, leb, count_by,
  count_by-append, if◌then◌else◌,
}
use llamesh.Acquire.{
  Effect, evicts_idle, evicts_all, waits_for_capacity, Locals, Turn, continues, acquired,
  fails_with, recover_load,
}

abbrev pub is_idle_eviction : Effect → Bool
is_idle_eviction evicts_idle = true
is_idle_eviction e = false

abbrev pub is_full_eviction : Effect → Bool
is_full_eviction evicts_all = true
is_full_eviction e = false

abbrev pub is_capacity_wait : Effect → Bool
is_capacity_wait waits_for_capacity = true
is_capacity_wait e = false

-- Effects that no failed load has.
abbrev pub is_recovery : Effect → Bool
is_recovery e = is_idle_eviction e || is_full_eviction e || is_capacity_wait e

abbrev pub IsQuiet : List Effect → Type 0
IsQuiet es = count_by is_recovery es ≡ 0

pub IsQuiet-counts :
    (es : List Effect)
    → IsQuiet es
    → (count_by is_idle_eviction es ≡ 0)
      × (count_by is_full_eviction es ≡ 0)
      × (count_by is_capacity_wait es ≡ 0)
IsQuiet-counts [] n = (refl, refl, refl)
IsQuiet-counts (e ∷ es) n =
    let (i, a, w) = IsQuiet-counts es (ground (arith, n)) in
    (ground (arith, n, i), ground (arith, n, a), ground (arith, n, w))

abbrev pub one_if : Bool → ℕ
one_if b = if b then 1 else 0

module _ {A : Type 0} where
  -- What a turn may have added to, at most: a turn that ended has no locals.
  abbrev pub first_stage : Turn A → ℕ
  first_stage (continues l) = one_if (leb 1 l.cold_retry_stage)
  first_stage acquired = 1
  first_stage (fails_with e) = 1

  abbrev pub second_stage : Turn A → ℕ
  second_stage (continues l) = one_if (leb 2 l.cold_retry_stage)
  second_stage acquired = 1
  second_stage (fails_with e) = 1

  abbrev pub failures : Turn A → ℕ
  failures (continues l) = l.consecutive_spawn_failures
  failures acquired = 3
  failures (fails_with e) = 3

  abbrev pub stage : Turn A → ℕ
  stage (continues l) = l.cold_retry_stage
  stage acquired = 0
  stage (fails_with e) = 0

  -- The recovery of a run, between the stages and the failures before it and after it.
  pub record IsBounded (before : Turn A) (es : List Effect) (after : Turn A) : Type 0 where
    pub idle : first_stage before + count_by is_idle_eviction es ≤ first_stage after
    pub all : second_stage before + count_by is_full_eviction es ≤ second_stage after
    pub loads :
        failures before + count_by is_full_eviction es + count_by is_capacity_wait es
        ≤ failures after
    pub few : failures after ≤ 3
    pub stages : stage after ≤ failures after + 1

  pub IsBounded-append :
      (a b c : Turn A) (es fs : List Effect)
      → IsBounded a es b
      → IsBounded b fs c
      → IsBounded a (es ++ fs) c
  IsBounded-append a b c es fs s t = record {
    idle = omega (arith, s.idle, t.idle, count_by-append is_idle_eviction es fs);
    all = omega (arith, s.all, t.all, count_by-append is_full_eviction es fs);
    loads = omega (
      arith,
      s.loads,
      t.loads,
      count_by-append is_full_eviction es fs,
      count_by-append is_capacity_wait es fs,
    );
    few = t.few;
    stages = t.stages;
  }

  -- What holds at the start of each turn.
  pub record IsEarly (l : Locals A) : Type 0 where
    pub few : l.consecutive_spawn_failures ≤ 3
    pub stages : l.cold_retry_stage ≤ l.consecutive_spawn_failures + 1

  abbrev pub Same : Locals A → Turn A → Type 0
  Same l (continues l') =
      (l'.consecutive_spawn_failures ≡ l.consecutive_spawn_failures)
      × (l'.cold_retry_stage ≡ l.cold_retry_stage)
  Same l acquired = Unit
  Same l (fails_with e) = Unit

  pub quiet-IsBounded :
      (l : Locals A) (es : List Effect) (t : Turn A)
      → IsEarly l
      → IsQuiet es
      → Same l t
      → IsBounded (continues l) es t
  quiet-IsBounded l es (continues l') e n (f, s) =
      let (i, a, w) = IsQuiet-counts es n in
      record {
        idle = rw s (omega (arith, i));
        all = rw s (omega (arith, a));
        loads = omega (arith, a, w, f);
        few = omega (arith, f, e.few);
        stages = omega (arith, f, s, e.stages);
      }
  quiet-IsBounded l es acquired e n s =
      let (i, a, w) = IsQuiet-counts es n in
      record {
        idle = ground (arith, i);
        all = ground (arith, a);
        loads = omega (arith, a, w, e.few);
        few = omega arith;
        stages = omega arith;
      }
  quiet-IsBounded l es (fails_with x) e n s =
      let (i, a, w) = IsQuiet-counts es n in
      record {
        idle = ground (arith, i);
        all = ground (arith, a);
        loads = omega (arith, a, w, e.few);
        few = omega arith;
        stages = omega arith;
      }

  pub recover_load-IsBounded :
      (claimed is_cold : Bool) (evicted : ℕ) (is_draining : Bool) (l : Locals A)
      → IsEarly l
      → l.consecutive_spawn_failures < 3
      → IsBounded
          (continues l)
          (recover_load claimed is_cold evicted is_draining l).0
          (continues (recover_load claimed is_cold evicted is_draining l).1)
  unfolding recover_load
  recover_load-IsBounded claimed is_cold evicted is_draining l e h = record {
    idle = ground arith;
    all = ground arith;
    loads = ground arith;
    few = ground arith;
    stages = ground (arith, e.stages);
  }
