-- ===== src/Acquire/Ending.antt =====
-- src/node_state/mod.rs: the turn at whose start the loop of `get_instance_for_model` returns for a
-- shutdown or a deadline. How long a turn waits is not modelled.
use llamesh.Prelude.{
  ℕ, ◌≡◌, inl, inr, refl, Bool, true, false, ◌&&◌, ◌||◌, Option, none, some, List, [], ◌∷◌, ◌++◌,
  ◌∙◌, ◌+◌, arith, leb, eqb, count_by, count_by-append, if_both, Bool-cases,
}
use llamesh.Acquire.{
  Effect, joins_queue, tries, takes_slot, evicts_idle, evicts_all, waits_for_capacity, wakes_next,
  release_token, counts_timeout, Look, Attempt, Round, Request, Locals, Turn, continues, acquired,
  fails_with, has_passed, refresh_profile_after_reload,
}
use llamesh.Acquire.Turns.{
  max_local_spawn_failures, Adopted, goes_on, looks_again, profile_gone, adopted,
  adopt_reloaded_profile, check_and_go, turn, acquire, fresh_locals, get_instance_for_model,
}

-- Whether a turn has returned.
abbrev pub has_ended : {A : Type 0} → Turn A → Bool
has_ended (continues l) = false
has_ended acquired = true
has_ended (fails_with e) = true

abbrev pub is_error : {A : Type 0} → Turn A → Bool
is_error (continues l) = false
is_error acquired = false
is_error (fails_with e) = true

-- What a request does for an instance, or to wait for one.
abbrev pub is_work : Effect → Bool
is_work (joins_queue token) = true
is_work (tries version) = true
is_work takes_slot = true
is_work evicts_idle = true
is_work evicts_all = true
is_work waits_for_capacity = true
is_work _ = false

-- Whether a look at the cookbook settles what the turn does.
abbrev is_decided : {A : Type 0} → Adopted A → Bool
is_decided (goes_on l) = true
is_decided looks_again = false
is_decided profile_gone = true

-- No reload lands in the course of the round's first look at the cookbook, and the node shuts down or
-- the deadline has passed.
abbrev pub is_due : {A : Type 0} → Request → Round A → Bool
is_due q r =
    eqb r.first.again r.first.observed && (r.is_draining || has_passed q.queue_deadline r.now)

module _ {A : Type 0} where
  found-is_decided :
      (o : Option A) (v : ℕ) (l : Locals A)
      → is_decided (adopted (elim o [ some current ↦ some (false, current, v) | none ↦ none ]) l)
        ≡ true
  found-is_decided none v l = refl
  found-is_decided (some p) v l = refl

  stable-is_decided :
      (look : Look A) (l : Locals A)
      → eqb look.again look.observed ≡ true
      → is_decided (adopt_reloaded_profile look l) ≡ true
  unfolding adopt_reloaded_profile refresh_profile_after_reload
  stable-is_decided look l h = elim (Bool-cases (eqb look.observed l.resolved_version)) [
    | inl t ↦ rw t refl
    | inr t ↦ rw (t, h) (found-is_decided look.resolved look.observed l)
  ]

  release_token-IsIdle : (l : Locals A) → count_by is_work (release_token l) ≡ 0
  release_token-IsIdle l =
      if_both (λ (es : List Effect). count_by is_work es ≡ 0) l.my_token _ _ refl refl

  decided-Stops :
      (q : Request) (r : Round A) (a : Adopted A) (l : Locals A)
      → is_decided a ≡ true
      → (r.is_draining || has_passed q.queue_deadline r.now) ≡ true
      → (count_by is_work (check_and_go q r a l).0 ≡ 0) × (is_error (check_and_go q r a l).1 ≡ true)
  unfolding check_and_go
  decided-Stops q r profile_gone l d o = (
    count_by-append is_work (release_token l) (wakes_next ∷ []) ∙ rw (release_token-IsIdle l) refl,
    refl,
  )
  decided-Stops q r looks_again l d o = absurd (ground arith)
  decided-Stops q r (goes_on l') l d o =
      elim (Bool-cases (leb max_local_spawn_failures l'.consecutive_spawn_failures)) [
        | inl t ↦ simp t (release_token-IsIdle l', refl)
        | inr few ↦ elim (Bool-cases r.is_draining) [
          | inl t ↦ simp (few, t) (release_token-IsIdle l', refl)
          | inr up ↦
              let late : has_passed q.queue_deadline r.now ≡ true = ground (arith, o, up) in
              simp (few, up, late)
                (
                  count_by-append is_work (release_token l') _
                      ∙ rw (release_token-IsIdle l') (
                          if_both (λ (es : List Effect). 0 + count_by is_work es ≡ 0)
                            (l'.queue_start || q.has_request_deadline) (counts_timeout ∷ []) [] refl
                            refl),
                  refl,
                )
        ]
      ]

  turn-Stops :
      (q : Request) (r : Round A) (l : Locals A)
      → is_due q r ≡ true
      → (count_by is_work (turn q r l).0 ≡ 0) × (is_error (turn q r l).1 ≡ true)
  unfolding turn
  turn-Stops q r l h =
      decided-Stops q r (adopt_reloaded_profile r.first l) l
        (stable-is_decided r.first l (ground (arith, h))) (ground (arith, h))

  -- What a run does with the further rounds, compared with the one without them: it has returned, it
  -- has done no more work, and it has failed, if it had not returned before.
  pub record Stops (part whole : List Effect × Turn A) : Type 0 where
    pub ended : has_ended whole.1 ≡ true
    pub idle : count_by is_work whole.0 ≡ count_by is_work part.0
    pub failed : (has_ended part.1 || is_error whole.1) ≡ true

  error-stays :
      (q : Request) (rounds : List (Round A)) (t : Turn A)
      → is_error t ≡ true
      → acquire q rounds t ≡ ([], t)
  unfolding acquire
  error-stays q rounds acquired h = absurd (ground arith)
  error-stays q rounds (continues l) h = absurd (ground arith)
  error-stays q rounds (fails_with e) h = refl

  error-has_ended : (t : Turn A) → is_error t ≡ true → has_ended t ≡ true
  error-has_ended acquired h = refl
  error-has_ended (continues l) h = h
  error-has_ended (fails_with e) h = refl

  acquire-Stops :
      (q : Request) (before after : List (Round A)) (r : Round A) (t : Turn A)
      → is_due q r ≡ true
      → Stops (acquire q before t) (acquire q (before ++ (r ∷ after)) t)
  unfolding acquire
  acquire-Stops q before after r acquired h = record { ended = refl; idle = refl; failed = refl }
  acquire-Stops q before after r (fails_with e) h = record {
    ended = refl;
    idle = refl;
    failed = refl;
  }
  acquire-Stops q [] after r (continues l) h =
      let (idle, failed) = turn-Stops q r l h in
      rw (error-stays q after (turn q r l).1 failed) (record {
        ended = error-has_ended (turn q r l).1 failed;
        idle = count_by-append is_work (turn q r l).0 [] ∙ rw idle refl;
        failed = failed;
      })
  acquire-Stops q (first ∷ before) after r (continues l) h =
      let rest = acquire-Stops q before after r (turn q first l).1 h in
      record {
        ended = rest.ended;
        idle = omega (
          arith,
          count_by-append is_work (turn q first l).0 (acquire q before (turn q first l).1).0,
          count_by-append is_work (turn q first l).0
              (acquire q (before ++ (r ∷ after)) (turn q first l).1).0,
          rest.idle,
        );
        failed = rest.failed;
      }

  -- A request for a slot has returned by the first turn that starts when the node shuts down or the
  -- deadline of the wait has passed, and in whose first look at the cookbook no reload lands. If it had
  -- not returned before, it returns an error; and from that turn on it joins no queue, tries for no
  -- instance, takes no slot, evicts nothing and waits for no load, whatever the answers.
  pub get_instance_for_model-ends :
      (q : Request) (profile : A) (version : ℕ) (attempt : Attempt) (before after : List (Round A))
      (r : Round A)
      → is_due q r ≡ true
      → Stops
          (get_instance_for_model true q profile version attempt before)
          (get_instance_for_model true q profile version attempt (before ++ (r ∷ after)))
  unfolding get_instance_for_model
  get_instance_for_model-ends q profile version attempt before after r h =
      acquire-Stops q before after r (continues (fresh_locals profile version)) h
