-- ===== src/Acquire/Settled.antt =====
-- src/node_state/mod.rs: what `get_instance_for_model` takes, it gives back.
use llamesh.Prelude.{
  ℕ, ◌≡◌, inl, inr, refl, sym, Bool, true, false, not, ◌&&◌, ◌||◌, List, [], ◌∷◌, ◌++◌, arith, leb,
  Bool-cases, if◌then◌else◌,
}
use llamesh.Acquire.{
  spawn_failures_exhausted, draining, queue_timeout, model_not_found, wakes_next, wakes_waiters,
  counts_timeout, Attempt, Round, Locals, Request, Turn, continues, acquired, fails_with, Effect,
  has_passed, queue_up,
}
use llamesh.Acquire.Turns.{
  max_local_spawn_failures, Adopted, goes_on, looks_again, profile_gone, adopt_reloaded_profile,
  yield_or_try, check_and_go, turn, acquire, fresh_locals, get_instance_for_model,
}
use llamesh.Acquire.Counts.{IsNeutral}
use llamesh.Acquire.Ledger.{
  IsSettled, Settles, IsSettled-append, IsSettled-neutral, held, ends-IsSettled, neutral-IsSettled,
  release_token-IsSettled,
}
use llamesh.Acquire.Parts.{
  Keeps, adopt_reloaded_profile-Keeps, queue_up-IsSettled, try_spawn-IsSettled, fails-IsSettled,
}

timeout_mark-IsNeutral : (counted : Bool) → IsNeutral (if counted then counts_timeout ∷ [] else [])
timeout_mark-IsNeutral true = refl
timeout_mark-IsNeutral false = refl

module _ {A : Type 0} where
  waits-IsSettled :
      (q : Request) (r : Round A) (l : Locals A)
      → l.my_token ≡ false
      → IsSettled
          (held (continues l))
          (wakes_waiters ∷ (queue_up q r [] r.enqueued l).0)
          (queue_up q r [] r.enqueued l).1
  waits-IsSettled q r l e = simp e (
      IsSettled-neutral 0 (wakes_waiters ∷ []) (queue_up q r [] r.enqueued l).0
        (queue_up q r [] r.enqueued l).1 refl (queue_up-IsSettled q r [] r.enqueued l refl))

  yield_or_try-IsSettled :
      (q : Request) (r : Round A) (l : Locals A) → Settles (held (continues l)) (yield_or_try q r l)
  unfolding yield_or_try
  yield_or_try-IsSettled q r l = elim (Bool-cases (not l.my_token && r.has_waiters)) [
    | inr t ↦ rw t (
        try_spawn-IsSettled q r (adopt_reloaded_profile r.second l) l
          (adopt_reloaded_profile-Keeps r.second l))
    | inl t ↦ elim (Bool-cases r.has_waiters_left) [
      | inl more ↦ rw (t, more) (waits-IsSettled q r l (ground arith))
      | inr none_left ↦
          rw (t, none_left)
            (neutral-IsSettled (held (continues l)) (wakes_waiters ∷ []) (continues l) refl refl
              refl)
    ]
  ]

  check_and_go-IsSettled :
      (q : Request) (r : Round A) (a : Adopted A) (l : Locals A)
      → Keeps a l
      → Settles (held (continues l)) (check_and_go q r a l)
  unfolding check_and_go
  check_and_go-IsSettled q r profile_gone l k =
      fails-IsSettled l (wakes_next ∷ []) (model_not_found q.key) refl
  check_and_go-IsSettled q r looks_again l k =
      neutral-IsSettled (held (continues l)) [] (continues l) refl refl refl
  check_and_go-IsSettled q r (goes_on l') l (k, few, stage) =
      rw (sym k) (elim (Bool-cases (leb max_local_spawn_failures l'.consecutive_spawn_failures)) [
        | inl t ↦ rw t (release_token-IsSettled l' (fails_with spawn_failures_exhausted) refl refl)
        | inr less ↦ elim (Bool-cases r.is_draining) [
          | inl t ↦ rw (less, t) (release_token-IsSettled l' (fails_with draining) refl refl)
          | inr up ↦ elim (Bool-cases (has_passed q.queue_deadline r.now)) [
            | inl t ↦
                rw (less, up, t)
                  (fails-IsSettled l' _ queue_timeout
                    (timeout_mark-IsNeutral (l'.queue_start || q.has_request_deadline)))
            | inr t ↦ rw (less, up, t) (yield_or_try-IsSettled q r l')
          ]
        ]
      ])

  turn-IsSettled :
      (q : Request) (r : Round A) (l : Locals A) → Settles (held (continues l)) (turn q r l)
  unfolding turn
  turn-IsSettled q r l =
      check_and_go-IsSettled q r (adopt_reloaded_profile r.first l) l
        (adopt_reloaded_profile-Keeps r.first l)

  then-IsSettled :
      (q : Request) (rounds : List (Round A)) (before : ℕ) (es : List Effect) (t : Turn A)
      → IsSettled before es t
      → IsSettled before (es ++ (acquire q rounds t).0) (acquire q rounds t).1
  unfolding acquire
  then-IsSettled q rounds before es acquired s = ends-IsSettled before es acquired s
  then-IsSettled q rounds before es (fails_with e) s = ends-IsSettled before es (fails_with e) s
  then-IsSettled q [] before es (continues l) s = ends-IsSettled before es (continues l) s
  then-IsSettled q (r ∷ rounds) before es (continues l) s = IsSettled-append before es _ l _ s (
      then-IsSettled q rounds (held (continues l)) (turn q r l).0 (turn q r l).1
        (turn-IsSettled q r l))

  acquire-IsSettled :
      (q : Request) (rounds : List (Round A)) (l : Locals A)
      → Settles (held (continues l)) (acquire q rounds (continues l))
  acquire-IsSettled q rounds l =
      then-IsSettled q rounds (held (continues l)) [] (continues l)
        (neutral-IsSettled (held (continues l)) [] (continues l) refl refl refl)

  -- Whatever the rest of the node answers, and however often: every permit that a request for a
  -- slot receives is released before the function returns, every queue entry that it joins is left
  -- or answered with a permit, and every slot that it takes is released, but for the one of the
  -- instance that it returns.
  pub get_instance_for_model-IsSettled :
      (q : Request) (profile : A) (version : ℕ) (attempt : Attempt) (rounds : List (Round A))
      → Settles 0 (get_instance_for_model true q profile version attempt rounds)
  unfolding get_instance_for_model
  get_instance_for_model-IsSettled q profile version attempt rounds =
      acquire-IsSettled q rounds (fresh_locals profile version)
