-- ===== src/Queues/Shutdown.antt =====
-- src/node_state/mod.rs, `begin_shutdown_drain`: the queues are emptied.
use llamesh.Prelude.{
  ℕ, zero, suc, ◌≤◌, ◌<◌, ◌≡◌, refl, sym, ◌∙◌, inl, inr, String, Bool, true, false, ◌||◌, none,
  some, List, [], ◌∷◌, arith, length, map, any, eqb, eqb_iff, Bool-cases, Option-cases,
  if◌then◌else◌,
}
use llamesh.Prelude.Eq.{string_key, ◌==◌, ==_refl}
use llamesh.Prelude.Dict.{Dict, lookup}
use llamesh.Prelude.Buckets.{list_at, occurs}
use llamesh.Queues.{
  Queues, popped, pop_front, promote_pending_token, remove_pending_token, notify_loop, notify_queue,
  notify_key, notify_keys, begin_shutdown_drain,
}
use llamesh.Queues.Wakeups.{IsFresh, first_open, behind_first_open, notify_queue-Notifies}
use llamesh.Queues.Slots.{count_open, count_behind, IsFresh-behind}

pop-draining : (s : Queues) (key : String) → (pop_front s key).0.draining ≡ s.draining
unfolding pop_front
pop-draining s key = elim (Option-cases (lookup key s.queues)) [
  | inl e ↦ rw e refl
  | inr (q, e) ↦ rw e (popped_draining q)
]
  where
    popped_draining : (q : List ℕ) → (popped s key q).0.draining ≡ s.draining
    popped_draining [] = refl
    popped_draining (t ∷ q) = refl

notify_loop-draining :
    (fuel : ℕ) (is_closed : ℕ → Bool) (s : Queues) (key : String)
    → (notify_loop fuel is_closed s key).0.draining ≡ s.draining
unfolding notify_loop
notify_loop-draining zero is_closed s key = refl
notify_loop-draining (suc fuel) is_closed s key =
    let left = (pop_front s key).0 in
    elim (Option-cases (pop_front s key).1) [
      | inl e ↦ rw (e, notify_loop) (pop-draining s key)
      | inr (t, e) ↦
          let up = promote_pending_token left key t in
          let kept : up.draining ≡ s.draining =
            unfold promote_pending_token in ground (arith, pop-draining s key) in
          let down : (remove_pending_token up key t).draining ≡ up.draining =
            unfold remove_pending_token in ground arith in
          rw (e, notify_loop)
            (ground (
              arith,
              kept,
              down,
              notify_loop-draining fuel is_closed (remove_pending_token up key t) key,
            ))
    ]

notify_queue-draining :
    (is_closed : ℕ → Bool) (s : Queues) (key : String)
    → (notify_queue is_closed s key).0.draining ≡ s.draining
unfolding notify_queue
notify_queue-draining is_closed s key =
    notify_loop-draining (suc (length (list_at key s.queues))) is_closed s key

behind_none :
    (is_closed : ℕ → Bool) (q : List ℕ)
    → first_open is_closed q ≡ none
    → behind_first_open is_closed q ≡ []
behind_none is_closed [] h = refl
behind_none is_closed (t ∷ q) h = ground (arith, behind_none is_closed q)

-- A token with a receiver is on a queue or pending.
abbrev pub is_held_by : Queues → ℕ → String → Bool
is_held_by s t j = occurs t (list_at j s.queues) || occurs t (list_at j s.pending_tokens)

nobody_open :
    (is_closed : ℕ → Bool) (q : List ℕ) (t : ℕ)
    → first_open is_closed q ≡ none
    → is_closed t ≡ false
    → occurs t q ≡ false
nobody_open is_closed [] t h o = refl
nobody_open is_closed (u ∷ q) t h o = ground (arith, nobody_open is_closed q t, eqb_iff t u)

open_behind :
    (is_closed : ℕ → Bool) (q : List ℕ) (t u : ℕ)
    → first_open is_closed q ≡ some t
    → is_closed u ≡ false
    → occurs u q ≡ true
    → (eqb u t || occurs u (behind_first_open is_closed q)) ≡ true
open_behind is_closed [] t u h o m = cc
open_behind is_closed (x ∷ q) t u h o m = ground (arith, open_behind is_closed q t u, eqb_iff u x)

-- A queue emptied, and the others as they were; every token with a receiver stays accounted for.
pub record Empties (is_closed : ℕ → Bool) (s : Queues) (key : String) (after : Queues)
    : Type 0 where
  pub queue : (j : String) → list_at j after.queues ≡ (if key == j then [] else list_at j s.queues)
  pub pending :
      (j : String)
      → (key == j) ≡ false
      → list_at j after.pending_tokens ≡ list_at j s.pending_tokens
  pub draining : after.draining ≡ s.draining
  pub kept :
      (t : ℕ) (j : String)
      → is_closed t ≡ false
      → is_held_by s t j ≡ true
      → is_held_by after t j ≡ true

notify_key-Empties :
    (fuel : ℕ) (is_closed : ℕ → Bool) (s : Queues) (key : String)
    → s.draining ≡ true
    → IsFresh (list_at key s.pending_tokens) (list_at key s.queues)
    → count_open is_closed (list_at key s.queues) < fuel
    → Empties is_closed s key (notify_key fuel is_closed s key)
unfolding notify_key
notify_key-Empties zero is_closed s key d f h = absurd (omega arith)
notify_key-Empties (suc fuel) is_closed s key d f h =
    let n = notify_queue-Notifies is_closed s key f in
    let left = (notify_queue is_closed s key).0 in
    let drains : left.draining ≡ s.draining = notify_queue-draining is_closed s key in
    elim (Option-cases (notify_queue is_closed s key).1) [
      | inl gone ↦
          let nobody : first_open is_closed (list_at key s.queues) ≡ none = sym n.woken ∙ gone in
          rw (gone, notify_key)
            (record {
              queue = λ j.
                  ground (arith, n.left j, behind_none is_closed (list_at key s.queues) nobody);
              pending = λ j e. ground (arith, n.pending j, e);
              draining = drains;
              kept = λ u j o m. ground (
                arith,
                n.left j,
                n.pending j,
                gone,
                nobody_open is_closed (list_at key s.queues) u nobody,
                string_key.same_iff key j,
              );
            })
      | inr (t, found) ↦
          let head : first_open is_closed (list_at key s.queues) ≡ some t = sym n.woken ∙ found in
          let queue : list_at key left.queues ≡ behind_first_open is_closed (list_at key s.queues) =
            ground (arith, n.left key, ==_refl key) in
          let pending : list_at key left.pending_tokens ≡ t ∷ list_at key s.pending_tokens =
            ground (arith, n.pending key, found, ==_refl key) in
          let ih =
            notify_key-Empties fuel is_closed left key (drains ∙ d)
              (rw (queue, pending) (IsFresh-behind is_closed _ _ t head f))
              (rw queue (ground (arith, count_behind is_closed (list_at key s.queues) t head))) in
          let on : left.draining ≡ true = drains ∙ d in
          rw (found, notify_key, on)
            (record {
              queue = λ j. ground (arith, ih.queue j, n.left j);
              pending = λ j e. ground (arith, ih.pending j e, n.pending j, e);
              draining = ih.draining ∙ drains;
              kept = λ u j o m. ih.kept u j o (
                  ground (
                    arith,
                    n.left j,
                    n.pending j,
                    found,
                    open_behind is_closed (list_at key s.queues) t u head,
                    string_key.same_iff key j,
                  ));
            })
    ]

count_open-le : (is_closed : ℕ → Bool) (q : List ℕ) → count_open is_closed q ≤ length q
count_open-le is_closed [] = omega arith
count_open-le is_closed (t ∷ q) = ground (arith, count_open-le is_closed q)

IsFresh-after :
    (is_closed : ℕ → Bool) (s : Queues) (key : String) (after : Queues)
    → Empties is_closed s key after
    → ((k : String) → IsFresh (list_at k s.pending_tokens) (list_at k s.queues))
    → (k : String) → IsFresh (list_at k after.pending_tokens) (list_at k after.queues)
IsFresh-after is_closed s key after e f k = elim (Bool-cases (key == k)) [
  | inl same ↦ rw (e.queue k, same) tt
  | inr other ↦ rw (e.queue k, other, e.pending k other) (f k)
]

notify_keys-empties :
    (is_closed : ℕ → Bool) (keys : List String) (s : Queues) (j : String)
    → s.draining ≡ true
    → ((key : String) → IsFresh (list_at key s.pending_tokens) (list_at key s.queues))
    → list_at j (notify_keys is_closed s keys).queues
      ≡ (if any (λ k. k == j) keys then [] else list_at j s.queues)
unfolding notify_keys
notify_keys-empties is_closed [] s j d f = refl
notify_keys-empties is_closed (key ∷ keys) s j d f =
    let fuel = suc (length (list_at key s.queues)) in
    let e =
      notify_key-Empties fuel is_closed s key d (f key)
        (omega (arith, count_open-le is_closed (list_at key s.queues))) in
    let after = notify_key fuel is_closed s key in
    ground (
      arith,
      notify_keys-empties is_closed keys after j (e.draining ∙ d)
          (IsFresh-after is_closed s key after e f),
      e.queue j,
    )

lookup-keys :
    (m : Dict String (List ℕ)) (j : String)
    → any (λ k. k == j) (map (λ (x : String × List ℕ). x.0) m) ≡ false
    → list_at j m ≡ []
unfolding lookup
lookup-keys [] j h = refl
lookup-keys ((k, q) ∷ m) j h = ground (arith, lookup-keys m j)

notify_keys-keeps :
    (is_closed : ℕ → Bool) (keys : List String) (s : Queues) (t : ℕ) (j : String)
    → s.draining ≡ true
    → ((key : String) → IsFresh (list_at key s.pending_tokens) (list_at key s.queues))
    → is_closed t ≡ false
    → is_held_by s t j ≡ true
    → is_held_by (notify_keys is_closed s keys) t j ≡ true
unfolding notify_keys
notify_keys-keeps is_closed [] s t j d f o m = m
notify_keys-keeps is_closed (key ∷ keys) s t j d f o m =
    let fuel = suc (length (list_at key s.queues)) in
    let e =
      notify_key-Empties fuel is_closed s key d (f key)
        (omega (arith, count_open-le is_closed (list_at key s.queues))) in
    notify_keys-keeps is_closed keys (notify_key fuel is_closed s key) t j (e.draining ∙ d)
      (IsFresh-after is_closed s key (notify_key fuel is_closed s key) e f) o (e.kept t j o m)

-- Where no token is on a queue twice or pending beside it, the start of a shutdown ends with every
-- queue empty, and every waiter with a receiver, on whichever queue it was, has its token among the
-- pending ones: it was woken, however many slots there are.
pub begin_shutdown_drain-empties :
    (is_closed : ℕ → Bool) (s : Queues) (key : String)
    → ((k : String) → IsFresh (list_at k s.pending_tokens) (list_at k s.queues))
    → (list_at key (begin_shutdown_drain is_closed s).queues ≡ [])
      × ((t : ℕ)
          → is_closed t ≡ false
          → occurs t (list_at key s.queues) ≡ true
          → occurs t (list_at key (begin_shutdown_drain is_closed s).pending_tokens) ≡ true)
unfolding begin_shutdown_drain
begin_shutdown_drain-empties is_closed s key fresh =
    let keys = map (λ (x : String × List ℕ). x.0) s.queues in
    let start = record s { draining = true } in
    let empty : list_at key (notify_keys is_closed start keys).queues ≡ [] =
      ground (
        arith,
        notify_keys-empties is_closed keys start key refl fresh,
        lookup-keys s.queues key,
      ) in
    (
      empty,
      λ t o m.
          ground (
            arith,
            empty,
            notify_keys-keeps is_closed keys start t key refl fresh o (ground arith),
          ),
    )
