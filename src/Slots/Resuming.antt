-- ===== src/Slots/Resuming.antt =====
-- src/node_state/mod.rs, `maybe_cancel_drains`: which drains its loop ends, and which it leaves.
use llamesh.Prelude.{
  ℕ, ◌≡◌, ◌≤◌, ◌⊎◌, inl, inr, refl, sym, ap, ◌∙◌, String, Bool, true, false, List, [], ◌∷◌, length,
  arith, eqb, eqb_iff, Bool-cases, if◌then◌else◌,
}
use mathlib.Core.Path.{subst}
use llamesh.Prelude.Eq.{string_key}
use llamesh.Prelude.Buckets.{list_at, occurs}
use llamesh.Queues.{Queues, notify_queue}
use llamesh.Slots.{Instance, Heap, update, cancel_drain}
use llamesh.Slots.Cancelling.{
  has_queued_competitors_needing_eviction, queue_key, cancel_each, cancel_each-Resumes,
  Resumes-stays, competitors_mono, notified-le,
}

module _ (is_closed : ℕ → Bool) (needs : List String) where
  abbrev has : Queues → String → Bool
  has queues model = has_queued_competitors_needing_eviction needs queues.queues model

  abbrev step_heap : ℕ → Heap → Queues → Heap
  step_heap i heap queues = update heap i (cancel_drain (has queues (heap i).model_name) (heap i)).0

  abbrev step_queues : ℕ → Heap → Queues → Queues
  step_queues i heap queues =
      if (cancel_drain (has queues (heap i).model_name) (heap i)).1
      then (notify_queue is_closed queues (queue_key (heap i).model_name (heap i).profile_id)).0
      else queues

  step_queues-le :
      (i : ℕ) (heap : Heap) (queues : Queues) (k : String)
      → length (list_at k (step_queues i heap queues).queues) ≤ length (list_at k queues.queues)
  step_queues-le i heap queues k =
      notified-le (cancel_drain (has queues (heap i).model_name) (heap i)).1 is_closed queues
        (queue_key (heap i).model_name (heap i).profile_id) k

  cancel_each-le :
      (candidates : List ℕ) (heap : Heap) (queues : Queues) (k : String)
      → length (list_at k (cancel_each is_closed needs candidates (heap, queues)).1.queues)
        ≤ length (list_at k queues.queues)
  unfolding cancel_each
  cancel_each-le [] heap queues k = omega arith
  cancel_each-le (i ∷ candidates) heap queues k = omega (
    arith,
    cancel_each-le candidates (step_heap i heap queues) (step_queues i heap queues) k,
    step_queues-le i heap queues k,
  )

  cancelled_first :
      (i : ℕ) (heap : Heap) (queues : Queues)
      → has queues (heap i).model_name ≡ false
      → (step_heap i heap queues i).draining_for_competitor ≡ false
  unfolding cancel_drain
  cancelled_first i heap queues h = rw ((eqb_iff i i).1 refl, cancel_drain, h) (ground arith)

  pub cancel_each-cancels :
      (candidates : List ℕ) (heap : Heap) (queues : Queues) (j : ℕ)
      → occurs j candidates ≡ true
      → has queues (heap j).model_name ≡ false
      → ((cancel_each is_closed needs candidates (heap, queues)).0 j).draining_for_competitor
        ≡ false
  unfolding cancel_each
  cancel_each-cancels [] heap queues j m h = ground arith
  cancel_each-cancels (i ∷ candidates) heap queues j m h = elim (Bool-cases (eqb j i)) [
    | inl t ↦
        let e : j ≡ i = (eqb_iff j i).0 t in
        Resumes-stays (step_heap i heap queues j) _
          (cancel_each-Resumes is_closed needs candidates (step_heap i heap queues)
            (step_queues i heap queues) j)
          (subst (λ k. (step_heap i heap queues k).draining_for_competitor ≡ false) (sym e)
            (cancelled_first i heap queues
              (subst (λ k. has queues (heap k).model_name ≡ false) e h)))
    | inr t ↦
        cancel_each-cancels candidates (step_heap i heap queues) (step_queues i heap queues) j
          (ground arith)
          (rw t (
            competitors_mono needs queues.queues (step_queues i heap queues).queues
              (heap j).model_name (step_queues-le i heap queues) h))
  ]

  kept :
      (i : ℕ) (heap : Heap) (queues : Queues)
      → has queues (heap i).model_name ≡ true
      → (cancel_drain (has queues (heap i).model_name) (heap i)).0 ≡ heap i
  unfolding cancel_drain
  kept i heap queues h = rw h (ground arith)

  same_instance :
      (i j : ℕ) (heap : Heap) (queues : Queues)
      → (eqb j i ≡ false) ⊎ (has queues (heap i).model_name ≡ true)
      → step_heap i heap queues j ≡ heap j
  unfolding cancel_drain
  same_instance i j heap queues (inl t) = rw t refl
  same_instance i j heap queues (inr h) = elim (Bool-cases (eqb j i)) [
    | inl t ↦ rw (t, kept i heap queues h) (ap heap (sym ((eqb_iff j i).0 t)))
    | inr t ↦ rw t refl
  ]

  -- A competitor that is queued at the end was queued at the step of each instance.
  queued_before :
      (i : ℕ) (candidates : List ℕ) (heap : Heap) (queues : Queues) (j : ℕ)
      → has
          (cancel_each is_closed needs candidates
            (step_heap i heap queues, step_queues i heap queues)).1
          (heap j).model_name
        ≡ true
      → (eqb j i ≡ false) ⊎ (has queues (heap i).model_name ≡ true)
  queued_before i candidates heap queues j h = elim (Bool-cases (eqb j i)) [
    | inr t ↦ inl t
    | inl t ↦ elim (Bool-cases (has queues (heap i).model_name)) [
      | inl more ↦ inr more
      | inr gone ↦
          let e : j ≡ i = (eqb_iff j i).0 t in
          ground (
            arith,
            h,
            competitors_mono needs queues.queues
                (cancel_each is_closed needs candidates
                  (step_heap i heap queues, step_queues i heap queues)).1.queues
                (heap j).model_name
                (λ k. omega (
                  arith,
                  step_queues-le i heap queues k,
                  cancel_each-le candidates (step_heap i heap queues) (step_queues i heap queues) k,
                ))
                (subst (λ k. has queues (heap k).model_name ≡ false) (sym e) gone),
          )
    ]
  ]

  pub cancel_each-keeps :
      (candidates : List ℕ) (heap : Heap) (queues : Queues) (j : ℕ)
      → has (cancel_each is_closed needs candidates (heap, queues)).1 (heap j).model_name ≡ true
      → (cancel_each is_closed needs candidates (heap, queues)).0 j ≡ heap j
  unfolding cancel_each
  cancel_each-keeps [] heap queues j h = refl
  cancel_each-keeps (i ∷ candidates) heap queues j h =
      let same = same_instance i j heap queues (queued_before i candidates heap queues j h) in
      cancel_each-keeps candidates (step_heap i heap queues) (step_queues i heap queues) j (
        subst
          (λ (r : Instance).
            has
              (cancel_each is_closed needs candidates
                (step_heap i heap queues, step_queues i heap queues)).1
              r.model_name
            ≡ true)
          (sym same) h)
      ∙ same
