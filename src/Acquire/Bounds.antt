-- ===== src/Acquire/Bounds.antt =====
-- src/node_state/mod.rs: the recovery from failed loads over the whole of `get_instance_for_model`.
use llamesh.Prelude.{
  ℕ, ◌+◌, ◌≤◌, inl, inr, refl, true, ◌||◌, List, [], ◌∷◌, ◌++◌, arith, leb, count_by, Bool-cases,
}
use llamesh.Acquire.{
  Effect, counts_timeout, wakes_next, Attempt, Round, Request, Locals, Turn, continues, acquired,
  fails_with, release_token, draining, spawn_failures_exhausted, queue_timeout, model_not_found,
  has_passed,
}
use llamesh.Acquire.Turns.{
  max_local_spawn_failures, Adopted, goes_on, looks_again, profile_gone, adopt_reloaded_profile,
  check_and_go, turn, acquire, fresh_locals, get_instance_for_model,
}
use llamesh.Acquire.Parts.{Keeps, adopt_reloaded_profile-Keeps}
use llamesh.Acquire.Retries.{
  is_idle_eviction, is_full_eviction, is_capacity_wait, IsBounded, IsBounded-append, IsEarly,
  quiet-IsBounded, stage, first_stage, second_stage,
}
use llamesh.Acquire.Recovery.{
  Bounded, yield_or_try-IsBounded, Keeps-IsEarly, release_token-IsQuiet, IsQuiet-append,
  mark-IsQuiet,
}

-- How much recovery one request causes: the evictions of the idle instances and of all of them, the
-- loads that it may wait for after that, and the stage, which is a byte.
pub record Recovers {A : Type 0} (es : List Effect) (t : Turn A) : Type 0 where
  pub idle : count_by is_idle_eviction es ≤ 1
  pub all : count_by is_full_eviction es ≤ 1
  pub loads : count_by is_full_eviction es + count_by is_capacity_wait es ≤ 3
  pub stages : stage t ≤ 4

module _ {A : Type 0} where
  check_and_go-IsBounded :
      (q : Request) (r : Round A) (a : Adopted A) (l : Locals A)
      → Keeps a l
      → IsEarly l
      → Bounded l (check_and_go q r a l)
  unfolding check_and_go
  check_and_go-IsBounded q r profile_gone l k e =
      quiet-IsBounded l (release_token l ++ (wakes_next ∷ [])) (fails_with (model_not_found q.key))
        e (IsQuiet-append (release_token l) (wakes_next ∷ []) (release_token-IsQuiet l) refl) tt
  check_and_go-IsBounded q r looks_again l k e =
      quiet-IsBounded l [] (continues l) e refl (refl, refl)
  check_and_go-IsBounded q r (goes_on l') l (token, f, s) e =
      IsBounded-append (continues l) (continues l') _ [] _
        (quiet-IsBounded l [] (continues l') e refl (f, s))
        (elim (Bool-cases (leb max_local_spawn_failures l'.consecutive_spawn_failures)) [
          | inl t ↦ simp t (
              quiet-IsBounded l' (release_token l') (fails_with spawn_failures_exhausted) early
                (release_token-IsQuiet l') tt)
          | inr few ↦ elim (Bool-cases r.is_draining) [
            | inl t ↦
                simp (few, t)
                  (quiet-IsBounded l' (release_token l') (fails_with draining) early
                    (release_token-IsQuiet l') tt)
            | inr up ↦ elim (Bool-cases (has_passed q.queue_deadline r.now)) [
              | inl t ↦
                  simp (few, up, t)
                    (quiet-IsBounded l' _ (fails_with queue_timeout) early
                      (IsQuiet-append (release_token l') _ (release_token-IsQuiet l') (
                        mark-IsQuiet (l'.queue_start || q.has_request_deadline) counts_timeout
                          refl))
                      tt)
              | inr t ↦
                  simp (few, up, t) (yield_or_try-IsBounded q r l' early (ground (arith, few)))
            ]
          ]
        ])
    where
      early : IsEarly l'
      early = Keeps-IsEarly l l' f s e

  turn-IsBounded : (q : Request) (r : Round A) (l : Locals A) → IsEarly l → Bounded l (turn q r l)
  unfolding turn
  turn-IsBounded q r l =
      check_and_go-IsBounded q r (adopt_reloaded_profile r.first l) l
        (adopt_reloaded_profile-Keeps r.first l)

  rests :
      (before : Turn A) (es : List Effect) (t : Turn A)
      → IsBounded before es t
      → IsBounded before (es ++ []) t
  rests before es t s = IsBounded-append before t t es [] s (record {
    idle = omega arith;
    all = omega arith;
    loads = omega arith;
    few = s.few;
    stages = s.stages;
  })

  stages-le : (t : Turn A) → (first_stage t ≤ 1) × (second_stage t ≤ 1)
  stages-le (continues l) = (ground arith, ground arith)
  stages-le acquired = (omega arith, omega arith)
  stages-le (fails_with e) = (omega arith, omega arith)

  then-IsBounded :
      (q : Request) (rounds : List (Round A)) (before : Turn A) (es : List Effect) (t : Turn A)
      → IsBounded before es t
      → IsBounded before (es ++ (acquire q rounds t).0) (acquire q rounds t).1
  unfolding acquire
  then-IsBounded q rounds before es acquired s = rests before es acquired s
  then-IsBounded q rounds before es (fails_with e) s = rests before es (fails_with e) s
  then-IsBounded q [] before es (continues l) s = rests before es (continues l) s
  then-IsBounded q (r ∷ rounds) before es (continues l) s =
      IsBounded-append before (continues l) _ es _ s (
        then-IsBounded q rounds (continues l) (turn q r l).0 (turn q r l).1
          (turn-IsBounded q r l (record { few = s.few; stages = s.stages })))

  -- However often loads fail, and whatever else happens: one request evicts the idle instances at
  -- most once and all instances at most once, and those evictions of all instances and its waits
  -- for capacity are at most three together; its stage stays below five, so it fits its byte.
  pub get_instance_for_model-Recovers :
      (q : Request) (profile : A) (version : ℕ) (attempt : Attempt) (rounds : List (Round A))
      → Recovers
          (get_instance_for_model true q profile version attempt rounds).0
          (get_instance_for_model true q profile version attempt rounds).1
  unfolding get_instance_for_model
  get_instance_for_model-Recovers q profile version attempt rounds =
      let l = fresh_locals profile version in
      let b = then-IsBounded q rounds (continues l) [] (continues l) (
        quiet-IsBounded l [] (continues l) (record { few = omega arith; stages = omega arith }) refl
          (refl, refl)) in
      let (f, g) = stages-le (acquire q rounds (continues l)).1 in
      record {
        idle = omega (arith, b.idle, f);
        all = omega (arith, b.all, g);
        loads = omega (arith, b.loads, b.few);
        stages = omega (arith, b.few, b.stages);
      }
