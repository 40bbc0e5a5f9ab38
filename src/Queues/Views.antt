-- ===== src/Queues/Views.antt =====
-- src/node_state/mod.rs: how often a token is on a queue, and among the pending tokens of a key,
-- after each operation.
use llamesh.Prelude.{
  ℕ, ◌+◌, ◌-◌, ◌≡◌, refl, String, Bool, not, ◌&&◌, some, List, [], ◌∷◌, ◌++◌, inl, inr, arith, keep,
  eqb, eqb_iff, Option-cases, count_by-append, if◌then◌else◌,
}
use llamesh.Prelude.Eq.{string_key, ◌==◌}
use llamesh.Prelude.Dict.{lookup}
use llamesh.Prelude.Buckets.{
  list_at, times, without, list_at-set_list, list_at-insert, times-keep, occurs-times, times-occurs,
}
use llamesh.Prelude.Word.{u64_incr}
use llamesh.Queues.{
  Queues, QueueLimits, popped, queued_as, refused_full, refused_global, enqueue, pop_front,
  promote_pending_token, remove_queue_entry, remove_pending_token,
}

abbrev pub on_queue : Queues → String → ℕ → ℕ
on_queue s key t = times t (list_at key s.queues)

abbrev pub on_pending : Queues → String → ℕ → ℕ
on_pending s key t = times t (list_at key s.pending_tokens)

abbrev pub is_at : String → ℕ → String → ℕ → Bool
is_at key t j u = (key == j) && eqb u t

-- The parts of the state beside the queues.
abbrev pub SamePending : Queues → Queues → Type 0
SamePending new old =
    (new.pending_tokens ≡ old.pending_tokens)
    × (new.pending_token_counter ≡ old.pending_token_counter)
    × (new.queue_pending_tokens ≡ old.queue_pending_tokens)

module _ (s : Queues) (key : String) (j : String) (u : ℕ) where
  popped_view :
      (t : ℕ) (q : List ℕ)
      → list_at key s.queues ≡ q
      → (popped s key q).1 ≡ some t
      → (on_queue s j u ≡ on_queue (popped s key q).0 j u + (if is_at key t j u then 1 else 0))
        × SamePending (popped s key q).0 s
  popped_view t [] e h = cc
  popped_view t (x ∷ q) e h =
      ground (arith, list_at-set_list key j q s.queues, string_key.same_iff key j, eqb_iff u t)

  pub pop_view :
      (t : ℕ)
      → (pop_front s key).1 ≡ some t
      → (on_queue s j u ≡ on_queue (pop_front s key).0 j u + (if is_at key t j u then 1 else 0))
        × SamePending (pop_front s key).0 s
  unfolding pop_front
  pop_view t h = elim (Option-cases (lookup key s.queues)) [
    | inl e ↦ ground (arith, e)
    | inr (q, e) ↦ ground (arith, e, popped_view t (list_at key s.queues))
  ]

  pub remove_entry_view :
      (t : ℕ)
      → (on_queue (remove_queue_entry s key t).0 j u
          ≡ (if is_at key t j u then 0 else on_queue s j u))
        × SamePending (remove_queue_entry s key t).0 s
  unfolding remove_queue_entry
  remove_entry_view t = elim (Option-cases (lookup key s.queues)) [
    | inl e ↦ rw e (ground (arith, string_key.same_iff key j, e), (refl, refl, refl))
    | inr (q, e) ↦
        let left = without t (list_at key s.queues) in
        ground (
          arith,
          e,
          list_at-set_list key j left s.queues,
          times-keep u (λ (x : ℕ). not (eqb x t)) (list_at key s.queues),
          string_key.same_iff key j,
          eqb_iff u t,
        )
  ]

  pub promote_view :
      (t : ℕ)
      → on_pending s key t ≡ 0
      → (on_pending (promote_pending_token s key t) j u
          ≡ on_pending s j u + (if is_at key t j u then 1 else 0))
        × ((promote_pending_token s key t).queues ≡ s.queues)
        × ((promote_pending_token s key t).pending_token_counter ≡ s.pending_token_counter)
        × ((promote_pending_token s key t).queue_pending_tokens ≡ u64_incr s.queue_pending_tokens)
  unfolding promote_pending_token
  promote_view t absent = ground (
    arith,
    occurs-times t (list_at key s.pending_tokens),
    list_at-insert key j (t ∷ list_at key s.pending_tokens) s.pending_tokens,
    string_key.same_iff key j,
  )

  pub remove_pending_view :
      (t : ℕ)
      → (on_pending (remove_pending_token s key t) j u
          ≡ (if is_at key t j u then 0 else on_pending s j u))
        × ((remove_pending_token s key t).queues ≡ s.queues)
        × ((remove_pending_token s key t).pending_token_counter ≡ s.pending_token_counter)
        × ((remove_pending_token s key t).queue_pending_tokens ≡ (
            if eqb (on_pending s key t) 0
            then s.queue_pending_tokens
            else s.queue_pending_tokens - 1))
  unfolding remove_pending_token
  remove_pending_view t = elim (Option-cases (lookup key s.pending_tokens)) [
    | inl e ↦ rw e (ground (arith, string_key.same_iff key j, e), refl, refl, ground (arith, e))
    | inr (q, e) ↦
        let left = without t (list_at key s.pending_tokens) in
        ground (
          arith,
          e,
          list_at-set_list key j left s.pending_tokens,
          times-keep u (λ (x : ℕ). not (eqb x t)) (list_at key s.pending_tokens),
          times-occurs t (list_at key s.pending_tokens),
          occurs-times t (list_at key s.pending_tokens),
          string_key.same_iff key j,
          eqb_iff u t,
        )
  ]

module _ (limits : QueueLimits) (is_closed : ℕ → Bool) (s : Queues) (key : String) where
  abbrev joined : Queues
  joined = (enqueue limits is_closed s key).0

  pub enqueue_view :
      (j : String) (u t : ℕ)
      → (enqueue limits is_closed s key).1 ≡ queued_as t
      → (on_queue joined j u ≡ (
          if key == j
          then (if is_closed u then 0 else on_queue s j u) + (if eqb u t then 1 else 0)
          else on_queue s j u))
        × (t ≡ s.pending_token_counter)
        × (joined.pending_token_counter ≡ u64_incr s.pending_token_counter)
        × (joined.pending_tokens ≡ s.pending_tokens)
        × (joined.queue_pending_tokens ≡ s.queue_pending_tokens)
  unfolding enqueue
  enqueue_view j u t h =
      let open_entries = keep (λ x. not (is_closed x)) (list_at key s.queues) in
      ground (
        arith,
        list_at-insert key j (open_entries ++ (s.pending_token_counter ∷ [])) s.queues,
        count_by-append (eqb u) open_entries (s.pending_token_counter ∷ []),
        times-keep u (λ x. not (is_closed x)) (list_at key s.queues),
        string_key.same_iff key j,
      )

  pub full_view :
      (j : String) (u : ℕ)
      → (enqueue limits is_closed s key).1 ≡ refused_full
      → (on_queue joined j u
          ≡ (if key == j then (if is_closed u then 0 else on_queue s j u) else on_queue s j u))
        × SamePending joined s
  unfolding enqueue
  full_view j u h =
      let open_entries = keep (λ x. not (is_closed x)) (list_at key s.queues) in
      ground (
        arith,
        list_at-insert key j open_entries s.queues,
        times-keep u (λ x. not (is_closed x)) (list_at key s.queues),
        string_key.same_iff key j,
      )

  pub global_view :
      (enqueue limits is_closed s key).1 ≡ refused_global
      → (joined.queues ≡ s.queues) × SamePending joined s
  unfolding enqueue
  global_view h = ground arith
