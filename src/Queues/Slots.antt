-- ===== src/Queues/Slots.antt =====
-- src/node_state/mod.rs, `notify_waiters_for_available_slots` and `notify_all_queues`: how many
-- waiters are woken.
use llamesh.Prelude.{
  ℕ, zero, suc, ◌+◌, ◌-◌, ◌≤◌, ◌≡◌, refl, sym, ◌∙◌, min, max, inl, inr, String, Bool, false, not,
  none, some, List, [], ◌∷◌, arith, length, count_by, eqb_iff, Bool-cases, Option-cases,
}
use llamesh.Prelude.Eq.{string_key, ==_refl}
use llamesh.Prelude.Buckets.{list_at, occurs, times, occurs-times}
use llamesh.Queues.{Queues, notify_queue, notify_up_to, notify_waiters_for_available_slots}
use llamesh.Queues.Tokens.{World}
use llamesh.Queues.Invariant.{IsAccounted}
use llamesh.Queues.Wakeups.{IsFresh, first_open, behind_first_open, notify_queue-Notifies}

-- The entries whose receivers are there.
abbrev pub count_open : (ℕ → Bool) → List ℕ → ℕ
count_open is_closed = count_by (λ t. not (is_closed t))

IsFresh-push :
    (t : ℕ) (set rest : List ℕ) → occurs t rest ≡ false → IsFresh set rest → IsFresh (t ∷ set) rest
IsFresh-push t set [] h f = tt
IsFresh-push t set (u ∷ rest) h f =
    (ground (arith, f.0, eqb_iff u t, eqb_iff t u), f.1, IsFresh-push t set rest (ground arith) f.2)

pub IsFresh-behind :
    (is_closed : ℕ → Bool) (set q : List ℕ) (t : ℕ)
    → first_open is_closed q ≡ some t
    → IsFresh set q
    → IsFresh (t ∷ set) (behind_first_open is_closed q)
IsFresh-behind is_closed set [] t h f = cc
IsFresh-behind is_closed set (u ∷ rest) t h f = elim (Bool-cases (is_closed u)) [
  | inl c ↦ rw c (IsFresh-behind is_closed set rest t (rw c at h) f.2)
  | inr o ↦
      let same : u ≡ t = ground (arith, o) in rw o (rw same at (IsFresh-push u set rest f.1 f.2))
]

pub count_behind :
    (is_closed : ℕ → Bool) (q : List ℕ) (t : ℕ)
    → first_open is_closed q ≡ some t
    → count_open is_closed q ≡ suc (count_open is_closed (behind_first_open is_closed q))
count_behind is_closed [] t h = cc
count_behind is_closed (u ∷ rest) t h = ground (arith, count_behind is_closed rest t)

count_none :
    (is_closed : ℕ → Bool) (q : List ℕ) → first_open is_closed q ≡ none → count_open is_closed q ≡ 0
count_none is_closed [] h = refl
count_none is_closed (u ∷ rest) h = ground (arith, count_none is_closed rest)

-- What waking up to so many does: as many as there are receivers, and each is pending after it.
abbrev pub Wakes : (ℕ → Bool) → ℕ → Queues → String → Queues × ℕ → Type 0
Wakes is_closed budget s key result =
    (result.1 ≡ min budget (count_open is_closed (list_at key s.queues)))
    × (length (list_at key result.0.pending_tokens)
        ≡ length (list_at key s.pending_tokens) + result.1)

notify_up_to-Wakes :
    (budget : ℕ) (is_closed : ℕ → Bool) (s : Queues) (key : String)
    → IsFresh (list_at key s.pending_tokens) (list_at key s.queues)
    → Wakes is_closed budget s key (notify_up_to budget is_closed s key)
unfolding notify_up_to
notify_up_to-Wakes zero is_closed s key f = omega arith
notify_up_to-Wakes (suc budget) is_closed s key f =
    let n = notify_queue-Notifies is_closed s key f in
    let left = (notify_queue is_closed s key).0 in
    elim (Option-cases (notify_queue is_closed s key).1) [
      | inl gone ↦
          rw (gone, notify_up_to)
            (ground
              (arith, n.pending key, gone, n.woken, count_none is_closed (list_at key s.queues)))
      | inr (t, found) ↦
          let head : first_open is_closed (list_at key s.queues) ≡ some t = sym n.woken ∙ found in
          let queue : list_at key left.queues ≡ behind_first_open is_closed (list_at key s.queues) =
            ground (arith, n.left key, ==_refl key) in
          let pending : list_at key left.pending_tokens ≡ t ∷ list_at key s.pending_tokens =
            ground (arith, n.pending key, found, ==_refl key) in
          let ih =
            notify_up_to-Wakes budget is_closed left key
              (rw (queue, pending) (IsFresh-behind is_closed _ _ t head f)) in
          rw (found, notify_up_to)
            (ground
              (arith, ih, queue, pending, count_behind is_closed (list_at key s.queues) t head))
    ]

-- Waking for free slots never promises a slot twice: no more are woken than there are slots beyond
-- those that pending tokens are for, and after it there are more pending tokens than slots only
-- where there were before; and no waiter with a receiver is left out while a slot is not spoken for.
pub notify_waiters-Wakes :
    (available : ℕ) (is_closed : ℕ → Bool) (s : Queues) (key : String)
    → IsFresh (list_at key s.pending_tokens) (list_at key s.queues)
    → let before = length (list_at key s.pending_tokens) in
      let result = notify_waiters_for_available_slots available is_closed s key in
      (result.1 ≡ min (available - before) (count_open is_closed (list_at key s.queues)))
      × (length (list_at key result.0.pending_tokens) ≡ before + result.1)
      × (length (list_at key result.0.pending_tokens) ≤ max available before)
unfolding notify_waiters_for_available_slots
notify_waiters-Wakes available is_closed s key f =
    let w =
      notify_up_to-Wakes (available - length (list_at key s.pending_tokens)) is_closed s key f in
    (w.0, w.1, omega arith)

IsFresh-by_counts : (set q : List ℕ) → ((t : ℕ) → times t q + times t set ≤ 1) → IsFresh set q
IsFresh-by_counts set [] h = tt
IsFresh-by_counts set (t ∷ q) h = (
  ground (arith, h t, eqb_iff t t, occurs-times t set),
  ground (arith, h t, eqb_iff t t, occurs-times t q),
  IsFresh-by_counts set q (λ u. ground (arith, h u)),
)

-- In every reachable state the queues and pending tokens are such as the wake-ups want them.
pub accounted-IsFresh :
    (w : World) (key : String)
    → IsAccounted w
    → IsFresh (list_at key w.queues.pending_tokens) (list_at key w.queues.queues)
accounted-IsFresh w key a =
    IsFresh-by_counts _ _ (λ t. ground (arith, a.queue key t, a.pending key t))
