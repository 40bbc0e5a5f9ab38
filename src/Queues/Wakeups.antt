-- ===== src/Queues/Wakeups.antt =====
-- src/node_state/mod.rs: who is woken, with the receivers as they are throughout the operation.
use llamesh.Prelude.{
  ℕ, zero, suc, ◌<◌, ◌≡◌, refl, ap, ◌∙◌, inl, inr, String, Bool, false, Option, none, some, List,
  [], ◌∷◌, arith, length, is_some, eqb_iff, Bool-cases, Option-cases, if◌then◌else◌,
}
use llamesh.Prelude.Eq.{string_key, ◌==◌, ==_refl}
use llamesh.Prelude.Dict.{lookup}
use llamesh.Prelude.Buckets.{list_at, occurs, without, list_at-set_list, list_at-insert}
use llamesh.Queues.{
  Queues, popped, pop_front, promote_pending_token, remove_pending_token, notify_loop, notify_queue,
}

-- The first entry whose receiver is there, and the entries behind it.
abbrev pub first_open : (ℕ → Bool) → List ℕ → Option ℕ
first_open is_closed [] = none
first_open is_closed (t ∷ rest) = if is_closed t then first_open is_closed rest else some t

abbrev pub behind_first_open : (ℕ → Bool) → List ℕ → List ℕ
behind_first_open is_closed [] = []
behind_first_open is_closed (t ∷ rest) =
    if is_closed t then behind_first_open is_closed rest else rest

abbrev pub push : Option ℕ → List ℕ → List ℕ
push none set = set
push (some t) set = t ∷ set

-- What a notification of a queue does: it wakes the first entry with a receiver, leaves what
-- stands behind that entry, and makes its token pending; no other queue and no other token changes.
pub record Notifies (is_closed : ℕ → Bool) (s : Queues) (key : String) (result : Queues × Option ℕ)
    : Type 0 where
  pub woken : result.1 ≡ first_open is_closed (list_at key s.queues)
  pub left :
      (j : String)
      → list_at j result.0.queues ≡ (
          if key == j
          then behind_first_open is_closed (list_at key s.queues)
          else list_at j s.queues)
  pub pending :
      (j : String)
      → list_at j result.0.pending_tokens ≡ (
          if key == j
          then push result.1 (list_at j s.pending_tokens)
          else list_at j s.pending_tokens)

-- No token that is on the queue is pending, or on it twice.
abbrev pub IsFresh : List ℕ → List ℕ → Type 0
IsFresh set [] = Unit
IsFresh set (t ∷ rest) = (occurs t set ≡ false) × (occurs t rest ≡ false) × IsFresh set rest

without_absent : (t : ℕ) (xs : List ℕ) → occurs t xs ≡ false → without t xs ≡ xs
without_absent t [] h = refl
without_absent t (x ∷ xs) h = ground (arith, without_absent t xs, eqb_iff t x)

module _ (s : Queues) (key : String) where
  pub pop_empty :
      (j : String)
      → list_at key s.queues ≡ []
      → ((pop_front s key).1 ≡ none)
        × (list_at j (pop_front s key).0.queues ≡ list_at j s.queues)
        × ((pop_front s key).0.pending_tokens ≡ s.pending_tokens)
  unfolding pop_front
  pop_empty j e = elim (Bool-cases (is_some (lookup key s.queues))) [
    | inl here ↦
        rw (here, e)
          (
            refl,
            ground (arith, e, list_at-set_list key j [] s.queues, string_key.same_iff key j),
            refl,
          )
    | inr gone ↦ rw gone (refl, refl, refl)
  ]

  pub pop_next :
      (t : ℕ) (rest : List ℕ) (j : String)
      → list_at key s.queues ≡ t ∷ rest
      → ((pop_front s key).1 ≡ some t)
        × (list_at j (pop_front s key).0.queues ≡ (if key == j then rest else list_at j s.queues))
        × ((pop_front s key).0.pending_tokens ≡ s.pending_tokens)
  unfolding pop_front
  pop_next t rest j e = elim (Option-cases (lookup key s.queues)) [
    | inl gone ↦ ground (arith, gone)
    | inr (q, here) ↦
        let same : q ≡ t ∷ rest = rw here at e in
        rw (here, same, popped) (refl, list_at-set_list key j rest s.queues, refl)
  ]

  promote_next :
      (t : ℕ) (j : String)
      → occurs t (list_at key s.pending_tokens) ≡ false
      → ((promote_pending_token s key t).queues ≡ s.queues)
        × (list_at j (promote_pending_token s key t).pending_tokens
            ≡ (if key == j then t ∷ list_at j s.pending_tokens else list_at j s.pending_tokens))
  unfolding promote_pending_token
  promote_next t j absent = ground (
    arith,
    absent,
    list_at-insert key j (t ∷ list_at key s.pending_tokens) s.pending_tokens,
    string_key.same_iff key j,
  )

  remove_next :
      (t : ℕ) (j : String)
      → ((remove_pending_token s key t).queues ≡ s.queues)
        × (list_at j (remove_pending_token s key t).pending_tokens ≡ (
            if key == j
            then without t (list_at j s.pending_tokens)
            else list_at j s.pending_tokens))
  unfolding remove_pending_token
  remove_next t j = elim (Option-cases (lookup key s.pending_tokens)) [
    | inl e ↦ ground (arith, e, string_key.same_iff key j)
    | inr (q, e) ↦ ground (
      arith,
      e,
      list_at-set_list key j (without t (list_at key s.pending_tokens)) s.pending_tokens,
      string_key.same_iff key j,
    )
  ]

-- A token that was promoted and given back leaves no trace.
bounce :
    (s : Queues) (key : String) (t : ℕ) (j : String)
    → occurs t (list_at key s.pending_tokens) ≡ false
    → ((remove_pending_token (promote_pending_token s key t) key t).queues ≡ s.queues)
      × (list_at j (remove_pending_token (promote_pending_token s key t) key t).pending_tokens
          ≡ list_at j s.pending_tokens)
bounce s key t j absent =
    let up = promote_next s key t j absent in
    let down = remove_next (promote_pending_token s key t) key t j in
    ground (
      arith,
      up,
      down,
      eqb_iff t t,
      string_key.same_iff key j,
      without_absent t (list_at key s.pending_tokens),
    )

notify_loop-Notifies :
    (fuel : ℕ) (is_closed : ℕ → Bool) (s : Queues) (key : String) (q : List ℕ)
    → list_at key s.queues ≡ q
    → length q < fuel
    → IsFresh (list_at key s.pending_tokens) q
    → Notifies is_closed s key (notify_loop fuel is_closed s key)
unfolding notify_loop
notify_loop-Notifies zero is_closed s key q e enough f = absurd (omega arith)
notify_loop-Notifies (suc fuel) is_closed s key [] e enough f =
    let p = pop_empty s key in
    rw ((p key e).0, notify_loop)
      (record {
        woken = rw e refl;
        left = λ j. ground (arith, e, p j e, string_key.same_iff key j);
        pending = λ j. ground (arith, ap (list_at j) ((p j e).2));
      })
notify_loop-Notifies (suc fuel) is_closed s key (t ∷ q) e enough f =
    let p = λ (j : String). pop_next s key t q j e in
    let left = (pop_front s key).0 in
    let same = λ (j : String). ap (list_at j) ((p j).2) in
    let absent : occurs t (list_at key left.pending_tokens) ≡ false = rw (p key).2 f.0 in
    let again = λ (j : String). bounce left key t j absent in
    let next = remove_pending_token (promote_pending_token left key t) key t in
    let back : list_at key next.queues ≡ q = ground (arith, again key, p key, ==_refl key) in
    let kept = λ (j : String). (again j).1 ∙ same j in
    let ih =
      notify_loop-Notifies fuel is_closed next key q back (omega arith) (rw (kept key) f.2) in
    elim (Bool-cases (is_closed t)) [
      | inl closed ↦
          rw ((p key).0, notify_loop, closed)
            (record {
              woken = ih.woken ∙ ap (first_open is_closed) back ∙ rw (e, closed) refl;
              left = λ j. ground (arith, ih.left j, e, closed, again j, p j, back);
              pending = λ j. ground (arith, ih.pending j, kept j);
            })
      | inr there ↦
          rw ((p key).0, notify_loop, there)
            (record {
              woken = rw (e, there) refl;
              left = λ j. ground (arith, e, there, p j, promote_next left key t j absent);
              pending = λ j. ground (arith, same j, promote_next left key t j absent);
            })
    ]

-- A notification of a queue whose tokens are not pending, and on it once, ends, within as many rounds as the queue
-- has entries: it wakes the first entry whose receiver is there, drops the entries before it, keeps
-- the ones behind it in order, makes its token pending and no other, and touches no other queue.
pub notify_queue-Notifies :
    (is_closed : ℕ → Bool) (s : Queues) (key : String)
    → IsFresh (list_at key s.pending_tokens) (list_at key s.queues)
    → Notifies is_closed s key (notify_queue is_closed s key)
unfolding notify_queue
notify_queue-Notifies is_closed s key fresh =
    notify_loop-Notifies (suc (length (list_at key s.queues))) is_closed s key
      (list_at key s.queues) refl (omega arith) fresh
