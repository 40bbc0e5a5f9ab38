-- ===== src/Queues/Tests.antt =====
-- Witnesses of the theorems on the queues, and runs of the operations.
use llamesh.Prelude.{
  ℕ, ◌≡◌, refl, inl, inr, String, Bool, false, some, [], ◌∷◌, arith, eqb, Bool-cases,
}
use llamesh.Prelude.Eq.{string_key, ◌==◌}
use llamesh.Prelude.Dict.{lookup, insert, remove}
use llamesh.Prelude.Buckets.{list_at}
use llamesh.Queues.{Queues, QueueLimits, enqueue, notify_queue, remove_queue_entry}
use llamesh.Queues.Tokens.{
  World, Reach, here, next, enqueues, closes, cleans, no_queues, idle_world, finished, update,
  pruned, fresh_token, move, is_closed,
}
use llamesh.Queues.Invariant.{IsAccounted, Reach-IsAccounted}
use llamesh.Queues.Wakeups.{IsFresh, Notifies, notify_queue-Notifies}
use llamesh.Queues.Limits.{Outcome, Bounds, AreGiven, enqueue-Outcome}

abbrev limits : QueueLimits
limits = record { max_total_queue_entries = 10; max_queue = 2 }

-- Three requests wait for "m:p", and the first of them has given up.
abbrev waiting : Queues
waiting = record no_queues {
  queues = ("m:p", 0 ∷ 1 ∷ 2 ∷ []) ∷ [];
  pending_tokens = ("m:p", 7 ∷ []) ∷ [];
  pending_token_counter = 8;
  queue_pending_tokens = 1;
}

abbrev gone : ℕ → Bool
gone t = eqb t 0

waiting-IsFresh :
    (k : String) → IsFresh (list_at k waiting.pending_tokens) (list_at k waiting.queues)
unfolding lookup
waiting-IsFresh k = elim (Bool-cases ("m:p" == k)) [
  | inl e ↦ rw e (refl, refl, (refl, refl, (refl, refl, tt)))
  | inr e ↦ rw e tt
]

second_is_woken : (notify_queue gone waiting "m:p").1 ≡ some 1
unfolding notify_queue lookup insert remove
second_is_woken = refl

-- A request joins the queue "m:p" of an idle node, gives up, and is cleaned up.
abbrev joined : World
joined = record {
  queues = (enqueue limits (is_closed idle_world) no_queues "m:p").0;
  tokens = update (pruned idle_world "m:p") 0 (fresh_token "m:p");
}

abbrev given_up : World
given_up = record joined {
  tokens = update joined.tokens 0 (record (fresh_token "m:p") { is_open = false });
}

abbrev cleaned_up : World
cleaned_up = record {
  queues = (remove_queue_entry given_up.queues "m:p" 0).0;
  tokens = move given_up 0 finished;
}

joins : Reach idle_world joined
unfolding enqueue lookup insert remove
joins = next here (enqueues idle_world limits "m:p" 0 refl (omega arith))

leaves : Reach idle_world cleaned_up
leaves = next (next joins (closes joined 0)) (cleans given_up 0)

Reach-IsAccounted_example : IsAccounted joined
Reach-IsAccounted_example = Reach-IsAccounted joins

notify_queue-Notifies_example : Notifies gone waiting "m:p" (notify_queue gone waiting "m:p")
unfolding lookup
notify_queue-Notifies_example =
    notify_queue-Notifies gone waiting "m:p" ((refl, refl, (refl, refl, (refl, refl, tt))))

-- The tokens of the queue are below 8.
waiting-AreGiven : AreGiven waiting
unfolding lookup
waiting-AreGiven k = elim (Bool-cases ("m:p" == k)) [
  | inl same ↦ rw same (omega arith, (omega arith, (omega arith, tt)))
  | inr other ↦ rw other tt
]

enqueue-Outcome_example :
    Outcome limits gone waiting "m:p" (enqueue limits gone waiting "m:p")
    × Bounds limits gone waiting "m:p" (enqueue limits gone waiting "m:p").0
    × AreGiven (enqueue limits gone waiting "m:p").0
unfolding lookup
enqueue-Outcome_example =
    enqueue-Outcome limits gone waiting "m:p" (refl, tt) waiting-AreGiven (omega arith)
