-- ===== src/Queues.antt =====
-- src/node_state/mod.rs: the queues of waiting requests, one for each model and profile, and the
-- tokens of the requests that were notified and have not taken a slot yet. Each function here is
-- what happens under one lock, but for the loops of `notify_queue_by_key` and the operations over
-- it. An entry of a queue is its token: the sender beside it is known by the token, and whether the
-- receiver of it was dropped is the parameter `is_closed`.
pub mod Wakeups
pub mod Lengths
pub mod Slots
pub mod Shutdown
pub mod Limits
pub mod Views
pub mod Tokens
pub mod Invariant
pub mod Tests
use llamesh.Prelude.{
  ℕ, zero, suc, ◌+◌, ◌-◌, String, Bool, true, false, not, ◌&&◌, Option, none, some, List, [], ◌∷◌,
  ◌++◌, map, length, keep, is_some, ltb, leb, eqb, if◌then◌else◌,
}
use llamesh.Prelude.Eq.{string_key, ◌==◌}
use llamesh.Prelude.Dict.{Dict, lookup, insert, remove}
use llamesh.Prelude.Buckets.{or_empty, list_at, set_list, occurs, without}
use llamesh.Prelude.Word.{u64_incr}

-- `queue_pending_tokens` and the drop counts are those of `Metrics`.
pub record Queues : Type 0 where
  pub queues : Dict String (List ℕ)
  pub pending_tokens : Dict String (List ℕ)
  pub pending_token_counter : ℕ
  pub draining : Bool
  pub queue_pending_tokens : ℕ
  pub queue_drops_full : ℕ
  pub queue_drops_global_limit : ℕ

-- `max_total_queue_entries` and the profile's `effective_max_queue_size`; 0 is no limit.
pub record QueueLimits : Type 0 where
  pub max_total_queue_entries : ℕ
  pub max_queue : ℕ

-- Both refusals for fullness are `NodeError::QueueFull`.
pub data Enqueued : Type 0 where
  queued_as : ℕ → Enqueued
  refused_draining refused_global refused_full : Enqueued

-- `Profile::effective_max_queue_size`
unfoldable pub effective_max_queue_size : Option ℕ → ℕ → ℕ
effective_max_queue_size none max_queue_size_per_model = max_queue_size_per_model
effective_max_queue_size (some max_queue_size) max_queue_size_per_model = max_queue_size

-- `queues.values().map(|q| q.len()).sum()`
unfoldable pub total_queued : Dict String (List ℕ) → ℕ
total_queued [] = 0
total_queued ((key, queue) ∷ queues) = length queue + total_queued queues

-- The block of `get_instance_for_model` that joins the queue, under the lock of the queues.
unfoldable pub enqueue : QueueLimits → (ℕ → Bool) → Queues → String → Queues × Enqueued
unfolding total_queued
enqueue limits is_closed s key =
    if s.draining
    then (s, refused_draining)
    else if ltb 0 limits.max_total_queue_entries
        && leb limits.max_total_queue_entries (total_queued s.queues)
    then (
      record s { queue_drops_global_limit = u64_incr s.queue_drops_global_limit },
      refused_global,
    )
    else let queue = keep (λ t. not (is_closed t)) (list_at key s.queues) in
      if ltb 0 limits.max_queue && leb limits.max_queue (length queue)
      then (
        record s {
          queues = insert key queue s.queues;
          queue_drops_full = u64_incr s.queue_drops_full;
        },
        refused_full,
      )
      else (
        record s {
          queues = insert key (queue ++ (s.pending_token_counter ∷ [])) s.queues;
          pending_token_counter = u64_incr s.pending_token_counter;
        },
        queued_as s.pending_token_counter,
      )

-- The first entry taken off a queue, in `notify_queue_by_key`.
abbrev pub popped : Queues → String → List ℕ → Queues × Option ℕ
popped s key [] = (record s { queues = remove key s.queues }, none)
popped s key (token ∷ rest) = (record s { queues = set_list key rest s.queues }, some token)

unfoldable pub pop_front : Queues → String → Queues × Option ℕ
pop_front s key =
    if is_some (lookup key s.queues) then popped s key (list_at key s.queues) else (s, none)

-- `remove_queue_entry_from`
unfoldable pub remove_queue_entry : Queues → String → ℕ → Queues × Bool
remove_queue_entry s key token =
    let queue = list_at key s.queues in
    let left = without token queue in
    if is_some (lookup key s.queues)
    then (record s { queues = set_list key left s.queues }, not (eqb (length left) (length queue)))
    else (s, false)

unfoldable pub promote_pending_token : Queues → String → ℕ → Queues
promote_pending_token s key token =
    let set = list_at key s.pending_tokens in
    if occurs token set
    then record s { pending_tokens = insert key set s.pending_tokens }
    else record s {
      pending_tokens = insert key (token ∷ set) s.pending_tokens;
      queue_pending_tokens = u64_incr s.queue_pending_tokens;
    }

-- `remove_pending_token_from`
unfoldable pub remove_pending_token : Queues → String → ℕ → Queues
remove_pending_token s key token =
    let set = list_at key s.pending_tokens in
    if is_some (lookup key s.pending_tokens)
    then record s {
      pending_tokens = set_list key (without token set) s.pending_tokens;
      queue_pending_tokens =
          if occurs token set then s.queue_pending_tokens - 1 else s.queue_pending_tokens;
    }
    else s

unfoldable pub has_pending_waiters : Queues → String → Bool
has_pending_waiters s key =
    if ltb 0 (length (list_at key s.queues))
    then true
    else ltb 0 (length (list_at key s.pending_tokens))

-- `notify_queue_by_key`, with the receivers as `is_closed` says throughout; the token that was
-- woken, if any. Each round takes an entry off the queue, so its length and one more are fuel
-- enough.
unfoldable pub notify_loop : ℕ → (ℕ → Bool) → Queues → String → Queues × Option ℕ
unfolding pop_front promote_pending_token remove_pending_token
notify_loop zero is_closed s key = (s, none)
notify_loop (suc fuel) is_closed s key =
    let (left, found) = pop_front s key in
    elim found [
      | none ↦ (left, none)
      | some token ↦
          let promoted = promote_pending_token left key token in
          let next = notify_loop fuel is_closed (remove_pending_token promoted key token) key in
          if is_closed token then next else (promoted, some token)
    ]

unfoldable pub notify_queue : (ℕ → Bool) → Queues → String → Queues × Option ℕ
unfolding notify_loop
notify_queue is_closed s key = notify_loop (suc (length (list_at key s.queues))) is_closed s key

-- The loop of `notify_waiters_for_available_slots` over its budget; how many were woken.
unfoldable pub notify_up_to : ℕ → (ℕ → Bool) → Queues → String → Queues × ℕ
unfolding notify_queue
notify_up_to zero is_closed s key = (s, 0)
notify_up_to (suc budget) is_closed s key =
    let (left, found) = notify_queue is_closed s key in
    elim found [
      | none ↦ (left, 0)
      | some token ↦
          let (final, woken) = notify_up_to budget is_closed left key in (final, woken + 1)
    ]

-- `notify_waiters_for_available_slots`, given the slots that `available_ready_slots_for_model`
-- counts.
unfoldable pub notify_waiters_for_available_slots : ℕ → (ℕ → Bool) → Queues → String → Queues × ℕ
unfolding notify_up_to
notify_waiters_for_available_slots available is_closed s key =
    notify_up_to (available - length (list_at key s.pending_tokens)) is_closed s key

-- The inner loop of `notify_all_queues`: it goes on past the first waiter only while draining.
unfoldable pub notify_key : ℕ → (ℕ → Bool) → Queues → String → Queues
unfolding notify_queue
notify_key zero is_closed s key = s
notify_key (suc fuel) is_closed s key =
    let (left, found) = notify_queue is_closed s key in
    elim found [
      | none ↦ left
      | some token ↦
          let next = notify_key fuel is_closed left key in if left.draining then next else left
    ]

unfoldable pub notify_keys : (ℕ → Bool) → Queues → List String → Queues
unfolding notify_key
notify_keys is_closed s [] = s
notify_keys is_closed s (key ∷ keys) =
    notify_keys is_closed (notify_key (suc (length (list_at key s.queues))) is_closed s key) keys

unfoldable pub notify_all_queues : (ℕ → Bool) → Queues → Queues
unfolding notify_keys
notify_all_queues is_closed s =
    notify_keys is_closed s (map (λ (e : String × List ℕ). e.0) s.queues)

unfoldable pub begin_shutdown_drain : (ℕ → Bool) → Queues → Queues
unfolding notify_all_queues
begin_shutdown_drain is_closed s = notify_all_queues is_closed (record s { draining = true })
