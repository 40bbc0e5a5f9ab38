-- ===== src/Slots/Drains.antt =====
-- src/node_state/mod.rs, `maybe_cancel_drains`: the end of the drains that make way for the requests
-- of other models.
use llamesh.Prelude.{
  ℕ, ◌≡◌, ◌⊎◌, inl, inr, String, Bool, false, not, ◌&&◌, List, keep, arith, Bool-cases,
}
use llamesh.Prelude.Eq.{string_key}
use llamesh.Prelude.Buckets.{occurs, occurs-keep}
use llamesh.Queues.{Queues}
use llamesh.Slots.{Heap}
use llamesh.Slots.Cancelling.{
  has_queued_competitors_needing_eviction, cancel_each, maybe_cancel_drains, Resumes,
  cancel_each-Resumes, Resumes-stays,
}
use llamesh.Slots.Resuming.{cancel_each-cancels, cancel_each-keeps}

-- What `maybe_cancel_drains` does to each instance, whatever it does to the queues.
pub record Cancels (needs : List String) (map : List ℕ) (before after : Heap × Queues)
    : Type 0 where
  pub resumes : (j : ℕ) → Resumes (before.0 j) (after.0 j)
  pub cancels :
      (j : ℕ)
      → (occurs j map
          && not (
              has_queued_competitors_needing_eviction needs before.1.queues (before.0 j).model_name)
          && (after.0 j).draining_for_competitor)
        ≡ false
  pub keeps :
      (j : ℕ)
      → (has_queued_competitors_needing_eviction needs after.1.queues (before.0 j).model_name
          ≡ false)
        ⊎ (after.0 j ≡ before.0 j)

-- Cancelling drains ends only drains for a competitor, and changes no other field of an instance; it
-- ends that of every instance in the map whose competitors are not queued any more, and leaves an
-- instance alone whose competitors are queued to the end.
pub maybe_cancel_drains-Cancels :
    (is_closed : ℕ → Bool) (needs : List String) (map : List ℕ) (heap : Heap) (queues : Queues)
    → Cancels needs map (heap, queues) (maybe_cancel_drains is_closed needs map (heap, queues))
unfolding maybe_cancel_drains
maybe_cancel_drains-Cancels is_closed needs map heap queues = record {
  resumes = λ j. cancel_each-Resumes is_closed needs candidates heap queues j;
  cancels = λ j. elim (Bool-cases (heap j).draining_for_competitor) [
    | inl t ↦ ground (
      arith,
      t,
      cancel_each-cancels is_closed needs candidates heap queues j,
      occurs-keep (λ i. (heap i).draining_for_competitor) j map,
    )
    | inr t ↦ ground (
      arith,
      Resumes-stays (heap j) _ (cancel_each-Resumes is_closed needs candidates heap queues j) t,
    )
  ];
  keeps = λ j.
      elim (Bool-cases (
        has_queued_competitors_needing_eviction needs
          (cancel_each is_closed needs candidates (heap, queues)).1.queues (heap j).model_name)) [
            | inl t ↦ inr (cancel_each-keeps is_closed needs candidates heap queues j t)
            | inr t ↦ inl t
          ];
}
  where
    candidates : List ℕ
    candidates = keep (λ i. (heap i).draining_for_competitor) map
