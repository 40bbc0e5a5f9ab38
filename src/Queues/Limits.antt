-- ===== src/Queues/Limits.antt =====
-- src/node_state/mod.rs, the block of `get_instance_for_model` that joins a queue: the limits.
use mathlib.Core.Path.{subst}
use llamesh.Prelude.{
  ℕ, ◌+◌, ◌≤◌, ◌<◌, ◌≡◌, ◌⊎◌, refl, sym, inl, inr, String, Bool, true, false, not, ◌&&◌, none, List,
  [], ◌∷◌, ◌++◌, All, if_both, arith, length, keep, length-append, ltb, leb, Bool-cases,
}
use llamesh.Prelude.Eq.{string_key, ◌==◌, ==_refl}
use llamesh.Prelude.Dict.{Dict, Distinct, lookup, insert, remove}
use llamesh.Prelude.Buckets.{list_at, list_at-insert}
use llamesh.Prelude.Word.{u64_mod, u64_incr}
use llamesh.Queues.{
  Queues, QueueLimits, Enqueued, queued_as, refused_draining, refused_full, refused_global,
  total_queued, enqueue,
}

remove_gone : (key : String) (m : Dict String (List ℕ)) → lookup key m ≡ none → remove key m ≡ m
unfolding lookup remove
remove_gone key [] h = refl
remove_gone key ((k, q) ∷ m) h = ground (arith, remove_gone key m)

total_queued-remove :
    (key : String) (m : Dict String (List ℕ))
    → Distinct m
    → total_queued (remove key m) + length (list_at key m) ≡ total_queued m
unfolding total_queued lookup remove
total_queued-remove key [] d = refl
total_queued-remove key ((k, q) ∷ m) d = elim (Bool-cases (k == key)) [
  | inl same ↦
      let e : k ≡ key = (string_key.same_iff k key).0 same in
      rw (same, remove_gone key m (rw e at d.0)) (omega arith)
  | inr other ↦ rw other (ground (arith, total_queued-remove key m d.1))
]

total_queued-insert :
    (key : String) (q : List ℕ) (m : Dict String (List ℕ))
    → Distinct m
    → total_queued (insert key q m) + length (list_at key m) ≡ total_queued m + length q
unfolding total_queued insert
total_queued-insert key q m d = omega (arith, total_queued-remove key m d)

length-keep : (p : ℕ → Bool) (xs : List ℕ) → length (keep p xs) ≤ length xs
length-keep p [] = omega arith
length-keep p (x ∷ xs) = ground (arith, length-keep p xs)

-- Every token on a queue was given out before.
abbrev pub AreGiven : Queues → Type 0
AreGiven s = (k : String) → All (λ (t : ℕ). t < s.pending_token_counter) (list_at k s.queues)

All-keep :
    (n m : ℕ) (p : ℕ → Bool) (xs : List ℕ)
    → n ≤ m
    → All (λ (t : ℕ). t < n) xs
    → All (λ (t : ℕ). t < m) (keep p xs)
All-keep n m p [] h a = tt
All-keep n m p (x ∷ xs) h a =
    if_both (λ ys. All (λ (t : ℕ). t < m) ys) (p x) _ _
      (omega (arith, a.0), All-keep n m p xs h a.1) (All-keep n m p xs h a.1)

All-later : (n m : ℕ) (xs : List ℕ) → n ≤ m → All (λ (t : ℕ). t < n) xs → All (λ (t : ℕ). t < m) xs
All-later n m [] h a = tt
All-later n m (x ∷ xs) h a = (omega (arith, a.0), All-later n m xs h a.1)

All-join :
    (n t : ℕ) (xs : List ℕ)
    → t < n
    → All (λ (u : ℕ). u < n) xs
    → All (λ (u : ℕ). u < n) (xs ++ (t ∷ []))
All-join n t [] h a = (h, tt)
All-join n t (x ∷ xs) h a = (a.0, All-join n t xs h a.1)

insert-given :
    (n : ℕ) (key : String) (q : List ℕ) (m : Dict String (List ℕ))
    → All (λ (t : ℕ). t < n) q
    → ((k : String) → All (λ (t : ℕ). t < n) (list_at k m))
    → (k : String) → All (λ (t : ℕ). t < n) (list_at k (insert key q m))
insert-given n key q m a given k =
    subst (λ (xs : List ℕ). All (λ (t : ℕ). t < n) xs) (sym (list_at-insert key k q m))
      (if_both (λ (xs : List ℕ). All (λ (t : ℕ). t < n) xs) (key == k) q (list_at k m) a (given k))

module _ (limits : QueueLimits) (is_closed : ℕ → Bool) (s : Queues) (key : String) where
  abbrev after : Queues
  after = (enqueue limits is_closed s key).0

  abbrev waiting : List ℕ
  waiting = keep (λ t. not (is_closed t)) (list_at key s.queues)

  -- When each answer is given, and what it leaves of the queue.
  abbrev pub Outcome : Queues × Enqueued → Type 0
  Outcome (after, refused_draining) = (s.draining ≡ true) × (after ≡ s)
  Outcome (after, refused_global) =
      (s.draining ≡ false)
      × (0 < limits.max_total_queue_entries)
      × (limits.max_total_queue_entries ≤ total_queued s.queues)
      × (after.queues ≡ s.queues)
      × (after.queue_drops_global_limit ≡ u64_incr s.queue_drops_global_limit)
  Outcome (after, refused_full) =
      (s.draining ≡ false)
      × (0 < limits.max_queue)
      × (limits.max_queue ≤ length waiting)
      × (list_at key after.queues ≡ waiting)
      × (after.queue_drops_full ≡ u64_incr s.queue_drops_full)
  Outcome (after, queued_as t) =
      (s.draining ≡ false)
      × ((limits.max_total_queue_entries ≡ 0)
          ⊎ (total_queued s.queues < limits.max_total_queue_entries))
      × ((limits.max_queue ≡ 0) ⊎ (length waiting < limits.max_queue))
      × (t ≡ s.pending_token_counter)
      × (after.pending_token_counter ≡ u64_incr t)
      × (list_at key after.queues ≡ waiting ++ (t ∷ []))

  enqueue_cases : Outcome (enqueue limits is_closed s key)
  unfolding enqueue
  enqueue_cases =
      let over =
        ltb 0 limits.max_total_queue_entries
        && leb limits.max_total_queue_entries (total_queued s.queues) in
      let full = ltb 0 limits.max_queue && leb limits.max_queue (length waiting) in
      let at_key = λ (q : List ℕ). list_at-insert key key q s.queues in
      elim (Bool-cases s.draining) [
        | inl d ↦ simp d (refl, refl)
        | inr d ↦ elim (Bool-cases over) [
          | inl o ↦ simp (d, o) (refl, ground arith, ground arith, refl, refl)
          | inr o ↦ elim (Bool-cases full) [
            | inl f ↦
                simp (d, o, f)
                  (
                    refl,
                    ground arith,
                    ground arith,
                    ground (arith, at_key waiting, ==_refl key),
                    refl,
                  )
            | inr f ↦
                simp (d, o, f)
                  (
                    refl,
                    ground arith,
                    ground arith,
                    refl,
                    refl,
                    ground (arith, at_key (waiting ++ (s.pending_token_counter ∷ [])), ==_refl key),
                  )
          ]
        ]
      ]

  -- With a limit on a queue, the queue stays within it if it was; with a limit on all queues, so do
  -- they together.
  abbrev pub Bounds : Queues → Type 0
  unfolding total_queued
  Bounds after =
      ((0 < limits.max_queue)
        → length (list_at key s.queues) ≤ limits.max_queue
        → length (list_at key after.queues) ≤ limits.max_queue)
      × ((0 < limits.max_total_queue_entries)
          → total_queued s.queues ≤ limits.max_total_queue_entries
          → total_queued after.queues ≤ limits.max_total_queue_entries)

  enqueue-Bounds : Distinct s.queues → Bounds after
  unfolding enqueue Bounds
  enqueue-Bounds d =
      let waits = length-keep (λ t. not (is_closed t)) (list_at key s.queues) in
      let joined = waiting ++ (s.pending_token_counter ∷ []) in
      let len = length-append waiting (s.pending_token_counter ∷ []) in
      (
        λ on before. ground (
          arith,
          waits,
          len,
          ==_refl key,
          list_at-insert key key waiting s.queues,
          list_at-insert key key joined s.queues,
        ),
        λ on before. ground (
          arith,
          waits,
          len,
          total_queued-insert key waiting s.queues d,
          total_queued-insert key joined s.queues d,
        ),
      )

  enqueue-AreGiven : s.pending_token_counter + 1 < u64_mod → AreGiven s → AreGiven after
  unfolding enqueue
  enqueue-AreGiven small given =
      let n = s.pending_token_counter in
      let kept = λ (m : ℕ) (h : n ≤ m).
        All-keep n m (λ t. not (is_closed t)) (list_at key s.queues) h (given key) in
      if_both (λ (r : Queues × Enqueued). AreGiven r.0) s.draining _ _ given
        (if_both (λ (r : Queues × Enqueued). AreGiven r.0) _ _ _ given
          (if_both (λ (r : Queues × Enqueued). AreGiven r.0) _ _ _
            (insert-given n key waiting s.queues (kept n (omega arith)) given)
            (insert-given (u64_incr n) key (waiting ++ (n ∷ [])) s.queues
              (All-join (u64_incr n) n waiting (omega arith) (kept (u64_incr n) (omega arith)))
              (λ k. All-later n (u64_incr n) _ (omega arith) (given k)))))

  -- A request joins the queue exactly where the node is not draining, the limit on all queues leaves
  -- room, and so does the limit on this queue once the entries without receivers are gone from it; it
  -- stands then behind all the others, under a token that was not given out before. Every refusal for
  -- fullness is counted, by its reason. Neither limit is ever exceeded where it was not, and no token
  -- is on a queue that was not given out, if none was and fewer than 2^64 requests have joined.
  pub enqueue-Outcome :
      Distinct s.queues
      → AreGiven s
      → s.pending_token_counter + 1 < u64_mod
      → Outcome (enqueue limits is_closed s key) × Bounds after × AreGiven after
  enqueue-Outcome d given small = (enqueue_cases, enqueue-Bounds d, enqueue-AreGiven small given)
