-- ===== src/Acquire.antt =====
-- src/node_state/mod.rs: `get_instance_for_model`, the loop in which a request gets a slot of an
-- instance, waits in the queue, and retries a load that failed. What the rest of the node answers in
-- one turn of the loop is a `Round`, and what the loop does to it is a list of effects.
pub mod Turns
pub mod Counts
pub mod Ledger
pub mod Parts
pub mod Settled
pub mod Retries
pub mod Recovery
pub mod Bounds
pub mod Ending
pub mod Tests
use llamesh.Prelude.{
  ℕ, ◌+◌, String, Bool, true, false, not, ◌||◌, Option, none, some, is_some, List, [], ◌∷◌, ◌++◌,
  leb, ltb, eqb, if◌then◌else◌,
}
use llamesh.Queues.{Enqueued, queued_as, refused_draining, refused_global, refused_full}
use llamesh.Slots.{InstanceStatus}

pub data NodeError : Type 0 where
  draining max_instances_profile max_instances_node queue_full queue_timeout queue_error : NodeError
  insufficient_resources yield_to_waiters spawn_failures_exhausted no_available_ports : NodeError
  port_in_use : ℕ → NodeError
  model_not_found missing_host_arg missing_port_arg : String → NodeError
  invalid_port_arg : String → String → NodeError
  other : NodeError

pub data Effect : Type 0 where
  -- the permit of a woken waiter
  receives_token releases_token : Effect
  -- the queue entry
  joins_queue leaves_queue : ℕ → Effect
  counts_timeout wakes_next wakes_waiters wakes_admissible marks_needs_eviction : Effect
  -- the slot of an instance, with the version of the cookbook that it was asked for
  tries : ℕ → Effect
  takes_slot releases_slot observes_wait : Effect
  evicts_idle evicts_all waits_for_capacity : Effect

-- What a look at the cookbook sees: its version, the profile, and the version after.
pub record Look (A : Type 0) : Type 0 where
  pub observed : ℕ
  pub resolved : Option A
  pub again : ℕ

pub data Waited : Type 0 where
  timed_out disconnected notified : Waited

-- What `try_get_or_spawn_resolved` returns: an instance, with its status when it is looked at first and
-- after the readiness signal, whether it is a cold start, and whether this request is the first to
-- claim a failed load; or an error.
pub data Attempt : Type 0 where
  got : (first later : InstanceStatus) → (is_cold_start claimed : Bool) → Attempt
  refused : NodeError → Attempt

-- The answers that a turn may ask for, in its order.
pub record Round (A : Type 0) : Type 0 where
  pub first : Look A
  pub is_draining : Bool
  pub now : ℕ
  pub has_waiters : Bool
  pub has_waiters_left : Bool
  pub second : Look A
  pub attempt : Attempt
  pub evicted : ℕ
  pub still_draining : Bool
  pub enqueued : Enqueued
  pub wait_start : ℕ
  pub in_time : Bool
  pub received : Waited

-- The locals of the loop; of the time of the first enqueue, whether there is one.
pub record Locals (A : Type 0) : Type 0 where
  pub profile : A
  pub resolved_version : ℕ
  pub cold_retry_stage : ℕ
  pub consecutive_spawn_failures : ℕ
  pub my_token : Bool
  pub queue_start : Bool

-- `model:profile`, the deadline of the wait, and whether it is the caller's.
pub record Request : Type 0 where
  pub key : String
  pub queue_deadline : Option ℕ
  pub has_request_deadline : Bool

pub data Turn (A : Type 0) : Type 0 where
  continues : Locals A → Turn A
  acquired : Turn A
  fails_with : NodeError → Turn A

-- `effective_queue_timeout`; 0 is an infinite wait.
unfoldable pub effective_queue_timeout : Option ℕ → ℕ → Option ℕ
effective_queue_timeout none default_ms = if eqb default_ms 0 then none else some default_ms
effective_queue_timeout (some ms) default_ms = if eqb ms 0 then none else some ms

-- The deadline of the wait: the caller's, or one that starts now.
unfoldable pub queue_deadline_of : Option ℕ → Option ℕ → ℕ → Option ℕ
queue_deadline_of (some deadline) timeout now = some deadline
queue_deadline_of none none now = none
queue_deadline_of none (some timeout) now = some (now + timeout)

abbrev pub has_passed : Option ℕ → ℕ → Bool
has_passed none now = false
has_passed (some deadline) now = leb deadline now

-- The wait on the receiver of a queue entry.
unfoldable pub wait_queue : Option ℕ → ℕ → Bool → Waited → Waited
wait_queue none start in_time received = received
wait_queue (some deadline) start in_time received =
    if leb deadline start then timed_out else if in_time then received else timed_out

-- The wait of stage 3.
abbrev pub wait_for_capacity : Bool → List Effect
wait_for_capacity is_draining = if is_draining then [] else waits_for_capacity ∷ []

module _ {A : Type 0} where
  -- `refresh_profile_after_reload`: whether to look again, with the profile and its version; none
  -- where the profile is gone.
  unfoldable pub refresh_profile_after_reload : Look A → A → ℕ → Option (Bool × A × ℕ)
  refresh_profile_after_reload look profile version =
      if eqb look.observed version
      then some (false, profile, version)
      else if not (eqb look.again look.observed)
      then some (true, profile, version)
      else elim look.resolved [ some current ↦ some (false, current, look.observed) | none ↦ none ]

  -- `if let Some(mut token) = my_token.take() { token.release() }`
  abbrev pub release_token : Locals A → List Effect
  release_token l = if l.my_token then releases_token ∷ [] else []

  abbrev pub fails : Locals A → NodeError → List Effect × Turn A
  fails l e = (release_token l, fails_with e)

  -- What follows the wait.
  unfoldable pub after_wait : ℕ → Waited → Locals A → List Effect × Turn A
  after_wait token timed_out l =
      (counts_timeout ∷ leaves_queue token ∷ [], fails_with queue_timeout)
  after_wait token disconnected l = (leaves_queue token ∷ [], fails_with queue_error)
  after_wait token notified l =
      (receives_token ∷ [], continues (record l { my_token = true; queue_start = true }))

  -- Joining the queue and waiting in it; `marks` is done in between.
  unfoldable pub queue_up :
      Request → Round A → List Effect → Enqueued → Locals A → List Effect × Turn A
  unfolding wait_queue after_wait
  queue_up q r marks refused_draining l = ([], fails_with draining)
  queue_up q r marks refused_global l = ([], fails_with queue_full)
  queue_up q r marks refused_full l = ([], fails_with queue_full)
  queue_up q r marks (queued_as token) l =
      let (effects, turn) =
        after_wait token (wait_queue q.queue_deadline r.wait_start r.in_time r.received) l in
      (joins_queue token ∷ marks ++ effects, turn)

  -- A load that failed, the slot released: the stages of cold-start recovery.
  unfoldable pub recover_load : Bool → Bool → ℕ → Bool → Locals A → List Effect × Locals A
  recover_load claimed is_cold evicted is_draining l =
      let counted = record l { consecutive_spawn_failures = l.consecutive_spawn_failures + 1 } in
      if not claimed
      then ([], l)
      else if is_cold
      then if eqb (l.cold_retry_stage + 1) 1
        then if ltb 0 evicted
          then (evicts_idle ∷ [], record counted { cold_retry_stage = 1 })
          else (evicts_idle ∷ evicts_all ∷ [], record counted { cold_retry_stage = 2 })
        else if eqb (l.cold_retry_stage + 1) 2
        then (evicts_all ∷ [], record counted { cold_retry_stage = 2 })
        else (
          wait_for_capacity is_draining,
          record counted { cold_retry_stage = l.cold_retry_stage + 1 },
        )
      else (wait_for_capacity is_draining, counted)
