-- ===== src/Queues/Lengths.antt =====
-- src/node_state/mod.rs: a notification makes no queue longer.
use llamesh.Prelude.{
  ℕ, zero, suc, ◌≤◌, ◌≡◌, refl, ap, ◌∙◌, String, Bool, List, [], ◌∷◌, length, arith, inl, inr,
  Bool-cases,
}
use llamesh.Prelude.Eq.{string_key}
use llamesh.Prelude.Buckets.{list_at}
use llamesh.Queues.{
  Queues, pop_front, promote_pending_token, remove_pending_token, notify_loop, notify_queue,
}
use llamesh.Queues.Wakeups.{pop_empty, pop_next}

promote_queues :
    (s : Queues) (key : String) (t : ℕ) → (promote_pending_token s key t).queues ≡ s.queues
unfolding promote_pending_token
promote_queues s key t = ground arith

remove_queues :
    (s : Queues) (key : String) (t : ℕ) → (remove_pending_token s key t).queues ≡ s.queues
unfolding remove_pending_token
remove_queues s key t = ground arith

notify_loop-le :
    (fuel : ℕ) (is_closed : ℕ → Bool) (s : Queues) (key j : String) (q : List ℕ)
    → list_at key s.queues ≡ q
    → length (list_at j (notify_loop fuel is_closed s key).0.queues) ≤ length (list_at j s.queues)
unfolding notify_loop
notify_loop-le zero is_closed s key j q e = omega arith
notify_loop-le (suc fuel) is_closed s key j [] e =
    let p = pop_empty s key j e in rw (p.0, notify_loop) (ground (arith, p))
notify_loop-le (suc fuel) is_closed s key j (t ∷ q) e =
    let p = pop_next s key t q j e in
    let left = (pop_front s key).0 in
    let promoted = promote_pending_token left key t in
    let next = remove_pending_token promoted key t in
    let same = remove_queues promoted key t ∙ promote_queues left key t in
    let ih = notify_loop-le fuel is_closed next key j (list_at key next.queues) refl in
    let shorter : length (list_at j left.queues) ≤ length (list_at j s.queues) =
      ground (arith, p, e, string_key.same_iff key j) in
    elim (Bool-cases (is_closed t)) [
      | inl closed ↦
          rw (p.0, notify_loop, closed)
            (omega (arith, ih, ap (λ d. length (list_at j d)) same, shorter))
      | inr there ↦
          rw (p.0, notify_loop, there)
            (omega (arith, ap (λ d. length (list_at j d)) (promote_queues left key t), shorter))
    ]

pub notify_queue-le :
    (is_closed : ℕ → Bool) (s : Queues) (key j : String)
    → length (list_at j (notify_queue is_closed s key).0.queues) ≤ length (list_at j s.queues)
unfolding notify_queue
notify_queue-le is_closed s key j =
    notify_loop-le (suc (length (list_at key s.queues))) is_closed s key j (list_at key s.queues)
      refl
