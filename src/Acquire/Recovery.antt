-- ===== src/Acquire/Recovery.antt =====
-- src/node_state/mod.rs: what each part of a turn of `get_instance_for_model` adds to the recovery of
-- failed loads.
use llamesh.Prelude.{
  ℕ, ◌≡◌, ◌<◌, inl, inr, refl, Bool, true, false, not, ◌&&◌, List, [], ◌∷◌, ◌++◌, arith,
  count_by-append, Bool-cases, if◌then◌else◌,
}
use llamesh.Queues.{Enqueued, queued_as, refused_draining, refused_global, refused_full}
use llamesh.Acquire.{
  Effect, joins_queue, wakes_next, wakes_waiters, observes_wait, tries, takes_slot, releases_slot,
  Attempt, got, refused, Round, Request, Locals, Turn, continues, acquired, fails_with,
  release_token, recover_load, NodeError, Waited, timed_out, disconnected, notified, wait_queue,
  after_wait, queue_up, draining, queue_full, spawn_failures_exhausted, queue_timeout,
  model_not_found, max_instances_profile, max_instances_node, queue_error, insufficient_resources,
  yield_to_waiters, no_available_ports, port_in_use, missing_host_arg, missing_port_arg,
  invalid_port_arg, other,
}
use llamesh.Acquire.Turns.{
  is_served, is_retriable, queue_marks, without_token, Adopted, goes_on, looks_again, profile_gone,
  adopt_reloaded_profile, settle_attempt, try_spawn, yield_or_try,
}
use llamesh.Acquire.Parts.{Keeps, adopt_reloaded_profile-Keeps}
use llamesh.Acquire.Retries.{
  is_recovery, IsQuiet, IsBounded, IsBounded-append, IsEarly, Same, quiet-IsBounded,
  recover_load-IsBounded,
}

-- Quiet parts make a quiet whole.
pub IsQuiet-append : (es fs : List Effect) → IsQuiet es → IsQuiet fs → IsQuiet (es ++ fs)
IsQuiet-append es fs m n = omega (arith, m, n, count_by-append is_recovery es fs)

queue_marks-IsQuiet : (e : NodeError) → IsQuiet (queue_marks e)
queue_marks-IsQuiet e = elim e as (λ k. IsQuiet (queue_marks k)) [
  | max_instances_profile ↦ refl
  | max_instances_node ↦ refl
  | insufficient_resources ↦ refl
  | draining ↦ refl
  | queue_full ↦ refl
  | queue_timeout ↦ refl
  | queue_error ↦ refl
  | yield_to_waiters ↦ refl
  | spawn_failures_exhausted ↦ refl
  | no_available_ports ↦ refl
  | port_in_use port ↦ refl
  | model_not_found key ↦ refl
  | missing_host_arg id ↦ refl
  | missing_port_arg id ↦ refl
  | invalid_port_arg port id ↦ refl
  | other ↦ refl
]

pub mark-IsQuiet :
    (b : Bool) (e : Effect) → is_recovery e ≡ false → IsQuiet (if b then e ∷ [] else [])
mark-IsQuiet true e q = rw q refl
mark-IsQuiet false e q = refl

module _ {A : Type 0} where
  abbrev Quiet : Locals A → List Effect × Turn A → Type 0
  Quiet l (es, t) = IsQuiet es × Same l t

  pub release_token-IsQuiet : (l : Locals A) → IsQuiet (release_token l)
  release_token-IsQuiet l = ground arith

  after_wait-Quiet : (token : ℕ) (w : Waited) (l : Locals A) → Quiet l (after_wait token w l)
  unfolding after_wait
  after_wait-Quiet token timed_out l = (refl, tt)
  after_wait-Quiet token disconnected l = (refl, tt)
  after_wait-Quiet token notified l = (refl, (refl, refl))

  queue_up-Quiet :
      (q : Request) (r : Round A) (marks : List Effect) (o : Enqueued) (l : Locals A)
      → IsQuiet marks
      → Quiet l (queue_up q r marks o l)
  unfolding queue_up
  queue_up-Quiet q r marks refused_draining l n = (refl, tt)
  queue_up-Quiet q r marks refused_global l n = (refl, tt)
  queue_up-Quiet q r marks refused_full l n = (refl, tt)
  queue_up-Quiet q r marks (queued_as token) l n =
      let w = wait_queue q.queue_deadline r.wait_start r.in_time r.received in
      let (m, s) = after_wait-Quiet token w l in
      (IsQuiet-append (joins_queue token ∷ marks) (after_wait token w l).0 (omega (arith, n)) m, s)

  Same-token : (l : Locals A) (t : Turn A) → Same (without_token l) t → Same l t
  Same-token l (continues l') s = s
  Same-token l acquired s = tt
  Same-token l (fails_with e) s = tt

  abbrev pub Bounded : Locals A → List Effect × Turn A → Type 0
  Bounded l (es, t) = IsBounded (continues l) es t

  settle_attempt-IsBounded :
      (q : Request) (r : Round A) (a : Attempt) (l : Locals A)
      → IsEarly l
      → l.consecutive_spawn_failures < 3
      → Bounded l (settle_attempt q r a l)
  unfolding settle_attempt
  settle_attempt-IsBounded q r (got first later is_cold claimed) l e h =
      let before =
        takes_slot ∷ release_token l ++ (if l.queue_start then observes_wait ∷ [] else []) in
      let n =
        IsQuiet-append (takes_slot ∷ release_token l) _ (omega (arith, release_token-IsQuiet l))
          (mark-IsQuiet l.queue_start observes_wait refl) in
      let next = recover_load claimed is_cold r.evicted r.still_draining (without_token l) in
      elim (Bool-cases (is_served first later)) [
        | inl t ↦ rw t (quiet-IsBounded l before acquired e n tt)
        | inr t ↦ rw t (
            IsBounded-append (continues l) (continues (without_token l)) (continues next.1) before
              (releases_slot ∷ next.0)
              (quiet-IsBounded l before (continues (without_token l)) e n (refl, refl))
              (IsBounded-append (continues (without_token l)) (continues (without_token l))
                (continues next.1) (releases_slot ∷ []) next.0
                (quiet-IsBounded (without_token l) (releases_slot ∷ [])
                  (continues (without_token l)) early refl (refl, refl))
                (recover_load-IsBounded claimed is_cold r.evicted r.still_draining (without_token l)
                  early h)))
      ]
    where
      early : IsEarly (without_token l)
      early = record { few = e.few; stages = e.stages }
  settle_attempt-IsBounded q r (refused x) l e h =
      let next = queue_up q r (queue_marks x) r.enqueued (without_token l) in
      let (n, s) =
        queue_up-Quiet q r (queue_marks x) r.enqueued (without_token l) (queue_marks-IsQuiet x) in
      elim (Bool-cases (is_retriable x)) [
        | inl t ↦ rw t (
            quiet-IsBounded l (release_token l ++ next.0) next.1 e
              (IsQuiet-append (release_token l) next.0 (release_token-IsQuiet l) n)
              (Same-token l next.1 s))
        | inr t ↦
            rw t (quiet-IsBounded l (release_token l) (fails_with x) e (release_token-IsQuiet l) tt)
      ]

  pub Keeps-IsEarly :
      (l l' : Locals A)
      → l'.consecutive_spawn_failures ≡ l.consecutive_spawn_failures
      → l'.cold_retry_stage ≡ l.cold_retry_stage
      → IsEarly l
      → IsEarly l'
  Keeps-IsEarly l l' f s e = record {
    few = omega (arith, f, e.few);
    stages = omega (arith, f, s, e.stages);
  }

  try_spawn-IsBounded :
      (q : Request) (r : Round A) (a : Adopted A) (l : Locals A)
      → Keeps a l
      → IsEarly l
      → l.consecutive_spawn_failures < 3
      → Bounded l (try_spawn q r a l)
  unfolding try_spawn
  try_spawn-IsBounded q r profile_gone l k e h =
      quiet-IsBounded l (release_token l ++ (wakes_next ∷ [])) (fails_with (model_not_found q.key))
        e (IsQuiet-append (release_token l) (wakes_next ∷ []) (release_token-IsQuiet l) refl) tt
  try_spawn-IsBounded q r looks_again l k e h =
      quiet-IsBounded l [] (continues l) e refl (refl, refl)
  try_spawn-IsBounded q r (goes_on l') l (token, few, stages) e h =
      IsBounded-append (continues l) (continues l') (settle_attempt q r r.attempt l').1
        (tries l'.resolved_version ∷ []) (settle_attempt q r r.attempt l').0
        (quiet-IsBounded l (tries l'.resolved_version ∷ []) (continues l') e refl (few, stages))
        (settle_attempt-IsBounded q r r.attempt l' (Keeps-IsEarly l l' few stages e)
          (omega (arith, few, h)))

  pub yield_or_try-IsBounded :
      (q : Request) (r : Round A) (l : Locals A)
      → IsEarly l
      → l.consecutive_spawn_failures < 3
      → Bounded l (yield_or_try q r l)
  unfolding yield_or_try
  yield_or_try-IsBounded q r l e h = elim (Bool-cases (not l.my_token && r.has_waiters)) [
    | inr t ↦ simp t (
        try_spawn-IsBounded q r (adopt_reloaded_profile r.second l) l
          (adopt_reloaded_profile-Keeps r.second l) e h)
    | inl t ↦
        let (n, s) = queue_up-Quiet q r [] r.enqueued l refl in
        elim (Bool-cases r.has_waiters_left) [
          | inl more ↦
              rw (t, more)
                (quiet-IsBounded l (wakes_waiters ∷ (queue_up q r [] r.enqueued l).0)
                  (queue_up q r [] r.enqueued l).1 e (omega (arith, n)) s)
          | inr none_left ↦
              rw (t, none_left)
                (quiet-IsBounded l (wakes_waiters ∷ []) (continues l) e refl (refl, refl))
        ]
  ]
