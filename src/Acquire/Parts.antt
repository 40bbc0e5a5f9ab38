-- ===== src/Acquire/Parts.antt =====
-- src/node_state/mod.rs: each part of a turn of `get_instance_for_model` gives back what it takes, or holds it.
use llamesh.Prelude.{
  ℕ, ◌≡◌, inl, inr, refl, sym, Bool, true, false, Option, none, some, List, [], ◌∷◌, ◌++◌, arith,
  Bool-cases, if◌then◌else◌,
}
use llamesh.Queues.{Enqueued, queued_as, refused_draining, refused_global, refused_full}
use llamesh.Acquire.{
  Look, refresh_profile_after_reload, NodeError, draining, queue_full, max_instances_profile,
  max_instances_node, queue_timeout, queue_error, insufficient_resources, yield_to_waiters,
  spawn_failures_exhausted, no_available_ports, port_in_use, model_not_found, missing_host_arg,
  missing_port_arg, invalid_port_arg, other, wakes_next, tries, Effect, joins_queue, Waited,
  timed_out, disconnected, notified, Attempt, got, refused, Round, Locals, Request, continues,
  fails_with, release_token, wait_queue, after_wait, queue_up, recover_load, observes_wait,
}
use llamesh.Acquire.Turns.{
  adopted, is_served, Adopted, goes_on, looks_again, profile_gone, adopt_reloaded_profile,
  without_token, settle_attempt, try_spawn, queue_marks, is_retriable,
}
use llamesh.Acquire.Counts.{IsNeutral}
use llamesh.Acquire.Ledger.{
  IsSettled, Settles, IsSettled-append, IsSettled-neutral, IsSettled-insert, held,
  neutral-IsSettled, release_token-IsSettled, taken-IsSettled, returned-IsSettled,
}

queue_marks-IsNeutral : (e : NodeError) → IsNeutral (queue_marks e)
queue_marks-IsNeutral e = elim e as (λ k. IsNeutral (queue_marks k)) [
  | max_instances_profile ↦ refl
  | max_instances_node ↦ refl
  | insufficient_resources ↦ refl
  | draining ↦ refl
  | queue_full ↦ refl
  | queue_timeout ↦ refl
  | queue_error ↦ refl
  | yield_to_waiters ↦ refl
  | spawn_failures_exhausted ↦ refl
  | no_available_ports ↦ refl
  | port_in_use port ↦ refl
  | model_not_found key ↦ refl
  | missing_host_arg id ↦ refl
  | missing_port_arg id ↦ refl
  | invalid_port_arg port id ↦ refl
  | other ↦ refl
]

wait_mark-IsNeutral : (queued : Bool) → IsNeutral (if queued then observes_wait ∷ [] else [])
wait_mark-IsNeutral true = refl
wait_mark-IsNeutral false = refl

-- A look at the cookbook changes neither the permit nor the counts of the loop.
abbrev pub Keeps : {A : Type 0} → Adopted A → Locals A → Type 0
Keeps (goes_on l') l =
    (l'.my_token ≡ l.my_token)
    × (l'.consecutive_spawn_failures ≡ l.consecutive_spawn_failures)
    × (l'.cold_retry_stage ≡ l.cold_retry_stage)
Keeps looks_again l = Unit
Keeps profile_gone l = Unit

module _ {A : Type 0} where
  -- The end of a wait settles the entry that was joined.
  after_wait-IsSettled :
      (token : ℕ) (w : Waited) (l : Locals A)
      → IsSettled 0 (joins_queue token ∷ (after_wait token w l).0) (after_wait token w l).1
  unfolding after_wait
  after_wait-IsSettled token timed_out l = record { tokens = refl; entries = refl; slots = refl }
  after_wait-IsSettled token disconnected l = record { tokens = refl; entries = refl; slots = refl }
  after_wait-IsSettled token notified l = record { tokens = refl; entries = refl; slots = refl }

  nothing-IsSettled : (e : NodeError) → IsSettled {A = A} 0 [] (fails_with e)
  nothing-IsSettled e = record { tokens = refl; entries = refl; slots = refl }

  pub queue_up-IsSettled :
      (q : Request) (r : Round A) (marks : List Effect) (o : Enqueued) (l : Locals A)
      → IsNeutral marks
      → Settles 0 (queue_up q r marks o l)
  unfolding queue_up
  queue_up-IsSettled q r marks refused_draining l n = nothing-IsSettled draining
  queue_up-IsSettled q r marks refused_global l n = nothing-IsSettled queue_full
  queue_up-IsSettled q r marks refused_full l n = nothing-IsSettled queue_full
  queue_up-IsSettled q r marks (queued_as token) l n =
      let w = wait_queue q.queue_deadline r.wait_start r.in_time r.received in
      IsSettled-insert token marks (after_wait token w l).0 (after_wait token w l).1 n
        (after_wait-IsSettled token w l)

  recover_load-IsNeutral :
      (claimed is_cold : Bool) (evicted : ℕ) (is_draining : Bool) (l : Locals A)
      → IsNeutral (recover_load claimed is_cold evicted is_draining l).0
        × ((recover_load claimed is_cold evicted is_draining l).1.my_token ≡ l.my_token)
  unfolding recover_load
  recover_load-IsNeutral claimed is_cold evicted is_draining l = ground arith

  -- A turn that gives its permit back and fails.
  pub fails-IsSettled :
      (l : Locals A) (es : List Effect) (e : NodeError)
      → IsNeutral es
      → IsSettled {A = A} (held (continues l)) (release_token l ++ es) (fails_with e)
  fails-IsSettled l es e n =
      IsSettled-append (held (continues l)) (release_token l) es (without_token l) (fails_with e)
        (release_token-IsSettled l (continues (without_token l)) refl refl)
        (neutral-IsSettled 0 es (fails_with e) refl refl n)

  settle_attempt-IsSettled :
      (q : Request) (r : Round A) (a : Attempt) (l : Locals A)
      → Settles (held (continues l)) (settle_attempt q r a l)
  unfolding settle_attempt
  settle_attempt-IsSettled q r (got first later is_cold claimed) l =
      let mark = if l.queue_start then observes_wait ∷ [] else [] in
      let next = recover_load claimed is_cold r.evicted r.still_draining (without_token l) in
      let s = fails-IsSettled l mark other (wait_mark-IsNeutral l.queue_start) in
      let (n, e) =
        recover_load-IsNeutral claimed is_cold r.evicted r.still_draining (without_token l) in
      elim (Bool-cases (is_served first later)) [
        | inl t ↦ rw t (taken-IsSettled (held (continues l)) (release_token l ++ mark) s)
        | inr t ↦
            rw t (
              returned-IsSettled (held (continues l)) (release_token l ++ mark) next.0 next.1 s n e)
      ]
  settle_attempt-IsSettled q r (refused e) l =
      let next = queue_up q r (queue_marks e) r.enqueued (without_token l) in
      elim (Bool-cases (is_retriable e)) [
        | inl t ↦ rw t (
            IsSettled-append (held (continues l)) (release_token l) next.0 (without_token l) next.1
              (release_token-IsSettled l (continues (without_token l)) refl refl)
              (queue_up-IsSettled q r (queue_marks e) r.enqueued (without_token l)
                (queue_marks-IsNeutral e)))
        | inr t ↦ rw t (release_token-IsSettled l (fails_with e) refl refl)
      ]

  pub try_spawn-IsSettled :
      (q : Request) (r : Round A) (a : Adopted A) (l : Locals A)
      → Keeps a l
      → Settles (held (continues l)) (try_spawn q r a l)
  unfolding try_spawn
  try_spawn-IsSettled q r profile_gone l k =
      fails-IsSettled l (wakes_next ∷ []) (model_not_found q.key) refl
  try_spawn-IsSettled q r looks_again l k =
      neutral-IsSettled (held (continues l)) [] (continues l) refl refl refl
  try_spawn-IsSettled q r (goes_on l') l (k, few, stage) = rw (sym k) (
      IsSettled-neutral (held (continues l')) (tries l'.resolved_version ∷ [])
        (settle_attempt q r r.attempt l').0 (settle_attempt q r r.attempt l').1 refl
        (settle_attempt-IsSettled q r r.attempt l'))

  adopted-Keeps : (o : Option (Bool × A × ℕ)) (l : Locals A) → Keeps (adopted o l) l
  adopted-Keeps none l = tt
  adopted-Keeps (some (true, p, v)) l = tt
  adopted-Keeps (some (false, p, v)) l = (refl, refl, refl)

  pub adopt_reloaded_profile-Keeps :
      (look : Look A) (l : Locals A) → Keeps (adopt_reloaded_profile look l) l
  unfolding adopt_reloaded_profile
  adopt_reloaded_profile-Keeps look l =
      adopted-Keeps (refresh_profile_after_reload look l.profile l.resolved_version) l
