-- ===== src/Acquire/Turns.antt =====
-- src/node_state/mod.rs: one turn of the loop of `get_instance_for_model`, and the loop.
use llamesh.Prelude.{
  ℕ, Bool, true, false, not, ◌&&◌, ◌||◌, Option, none, some, List, [], ◌∷◌, ◌++◌, leb,
  if◌then◌else◌,
}
use llamesh.Slots.{InstanceStatus, starting, ready, failed, is_ready}
use llamesh.Acquire.{
  NodeError, max_instances_profile, max_instances_node, queue_full, queue_timeout,
  insufficient_resources, yield_to_waiters, draining, spawn_failures_exhausted, model_not_found,
  Effect, wakes_next, wakes_waiters, wakes_admissible, marks_needs_eviction, counts_timeout, tries,
  takes_slot, releases_slot, observes_wait, Look, Attempt, got, refused, Round, Locals, Request,
  Turn, continues, acquired, fails_with, has_passed, refresh_profile_after_reload, release_token,
  fails, queue_up, recover_load,
}

abbrev pub max_local_spawn_failures : ℕ
max_local_spawn_failures = 3

-- The errors of a spawn that the request waits for the end of.
abbrev pub is_retriable : NodeError → Bool
is_retriable max_instances_profile = true
is_retriable max_instances_node = true
is_retriable queue_full = true
is_retriable insufficient_resources = true
is_retriable yield_to_waiters = true
is_retriable e = false

-- What is done between joining the queue and waiting, after each of them.
abbrev pub queue_marks : NodeError → List Effect
queue_marks max_instances_profile = wakes_admissible ∷ []
queue_marks max_instances_node = marks_needs_eviction ∷ wakes_admissible ∷ []
queue_marks insufficient_resources = marks_needs_eviction ∷ wakes_admissible ∷ []
queue_marks e = []

-- Whether the load ends ready, by the status at first and after the readiness signal.
abbrev pub is_served : InstanceStatus → InstanceStatus → Bool
is_served ready later = true
is_served failed later = false
is_served starting later = is_ready later

pub data Adopted (A : Type 0) : Type 0 where
  goes_on : Locals A → Adopted A
  looks_again profile_gone : Adopted A

module _ {A : Type 0} where
  -- `adopt_reloaded_profile`, its match.
  abbrev pub adopted : Option (Bool × A × ℕ) → Locals A → Adopted A
  adopted none l = profile_gone
  adopted (some (true, profile, version)) l = looks_again
  adopted (some (false, profile, version)) l =
      goes_on (record l { profile = profile; resolved_version = version })

  unfoldable pub adopt_reloaded_profile : Look A → Locals A → Adopted A
  unfolding refresh_profile_after_reload
  adopt_reloaded_profile look l =
      adopted (refresh_profile_after_reload look l.profile l.resolved_version) l

  abbrev pub without_token : Locals A → Locals A
  without_token l = record l { my_token = false }

  -- What the turn does with the answer of `try_get_or_spawn_resolved`.
  unfoldable pub settle_attempt : Request → Round A → Attempt → Locals A → List Effect × Turn A
  unfolding queue_up recover_load
  settle_attempt q r (got first later is_cold_start claimed) l =
      let before =
        takes_slot ∷ release_token l ++ (if l.queue_start then observes_wait ∷ [] else []) in
      let (effects, next) =
        recover_load claimed is_cold_start r.evicted r.still_draining (without_token l) in
      if is_served first later
      then (before, acquired)
      else (before ++ (releases_slot ∷ effects), continues next)
  settle_attempt q r (refused e) l =
      let (effects, turn) = queue_up q r (queue_marks e) r.enqueued (without_token l) in
      if is_retriable e then (release_token l ++ effects, turn) else (release_token l, fails_with e)

  -- The second look at the cookbook, and the attempt.
  unfoldable pub try_spawn : Request → Round A → Adopted A → Locals A → List Effect × Turn A
  unfolding settle_attempt
  try_spawn q r profile_gone l =
      (release_token l ++ (wakes_next ∷ []), fails_with (model_not_found q.key))
  try_spawn q r looks_again l = ([], continues l)
  try_spawn q r (goes_on l') l =
      let (effects, turn) = settle_attempt q r r.attempt l' in
      (tries l'.resolved_version ∷ effects, turn)

  -- The fairness check: a new request waits behind those that wait already.
  unfoldable pub yield_or_try : Request → Round A → Locals A → List Effect × Turn A
  unfolding queue_up adopt_reloaded_profile try_spawn
  yield_or_try q r l =
      let (effects, turn) = queue_up q r [] r.enqueued l in
      if not l.my_token && r.has_waiters
      then if not r.has_waiters_left
        then (wakes_waiters ∷ [], continues l)
        else (wakes_waiters ∷ effects, turn)
      else try_spawn q r (adopt_reloaded_profile r.second l) l

  -- The checks at the top of the loop, after the first look at the cookbook.
  unfoldable pub check_and_go : Request → Round A → Adopted A → Locals A → List Effect × Turn A
  unfolding yield_or_try
  check_and_go q r profile_gone l =
      (release_token l ++ (wakes_next ∷ []), fails_with (model_not_found q.key))
  check_and_go q r looks_again l = ([], continues l)
  check_and_go q r (goes_on l') l =
      if leb max_local_spawn_failures l'.consecutive_spawn_failures
      then fails l' spawn_failures_exhausted
      else if r.is_draining
      then fails l' draining
      else if has_passed q.queue_deadline r.now
      then (
        release_token l'
            ++ (if l'.queue_start || q.has_request_deadline then counts_timeout ∷ [] else []),
        fails_with queue_timeout,
      )
      else yield_or_try q r l'

  unfoldable pub turn : Request → Round A → Locals A → List Effect × Turn A
  unfolding adopt_reloaded_profile check_and_go
  turn q r l = check_and_go q r (adopt_reloaded_profile r.first l) l

  -- The loop, over the rounds so far; it goes on where it has not returned in them.
  unfoldable pub acquire : Request → List (Round A) → Turn A → List Effect × Turn A
  unfolding turn
  acquire q rounds acquired = ([], acquired)
  acquire q rounds (fails_with e) = ([], fails_with e)
  acquire q [] (continues l) = ([], continues l)
  acquire q (r ∷ rounds) (continues l) =
      let (effects, next) = turn q r l in
      let (more, end) = acquire q rounds next in (effects ++ more, end)

  abbrev pub fresh_locals : A → ℕ → Locals A
  fresh_locals profile version = record {
    profile = profile;
    resolved_version = version;
    cold_retry_stage = 0;
    consecutive_spawn_failures = 0;
    my_token = false;
    queue_start = false;
  }

  -- `get_instance_for_model`, from its first turn; a request without a slot is answered at once.
  abbrev pub prewarm : Attempt → Turn A
  prewarm (got first later is_cold_start claimed) = acquired
  prewarm (refused e) = fails_with e

  unfoldable pub get_instance_for_model :
      Bool → Request → A → ℕ → Attempt → List (Round A) → List Effect × Turn A
  unfolding acquire
  get_instance_for_model reserve_slot q profile version attempt rounds =
      let looped = acquire q rounds (continues (fresh_locals profile version)) in
      if reserve_slot then looped else (tries version ∷ [], prewarm attempt)
