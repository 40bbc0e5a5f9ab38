-- ===== src/Slots/Cancelling.antt =====
-- src/node_state/mod.rs, `maybe_cancel_drains`: the drains that make way for the requests of other
-- models are cancelled.
use llamesh.Prelude.{
  ℕ, ◌≡◌, ◌≤◌, ◌⊎◌, inl, inr, refl, sym, ap, ◌∙◌, String, Bool, true, false, not, ◌&&◌, List, [],
  ◌∷◌, any, keep, length, arith, eqb, eqb_iff, ltb, Bool-cases, if◌then◌else◌,
}
use mathlib.Core.Path.{subst}
use Prim.Native.String.{◌++◌}
use llamesh.Prelude.Eq.{string_key, ◌==◌}
use llamesh.Prelude.Dict.{Dict}
use llamesh.Prelude.Buckets.{list_at}
use llamesh.Gossip.Address.{before}
use llamesh.Queues.{Queues, notify_queue}
use llamesh.Queues.Lengths.{notify_queue-le}
use llamesh.Slots.{Instance, Heap, update, cancel_drain}

-- A key of `needs_eviction` names another model and has requests queued.
unfoldable pub has_queued_competitors_needing_eviction :
    List String → Dict String (List ℕ) → String → Bool
unfolding before
has_queued_competitors_needing_eviction needs queues inst_model =
    any (λ (key : String). not (before 58 key == inst_model) && ltb 0 (length (list_at key queues)))
      needs

abbrev pub queue_key : String → String → String
queue_key model profile = model ++ ":" ++ profile

-- The second loop of `maybe_cancel_drains`, over the instances that its first loop found draining for
-- a competitor. No other task changes them in between.
unfoldable pub cancel_each : (ℕ → Bool) → List String → List ℕ → Heap × Queues → Heap × Queues
unfolding has_queued_competitors_needing_eviction cancel_drain notify_queue
cancel_each is_closed needs [] s = s
cancel_each is_closed needs (i ∷ candidates) (heap, queues) =
    let inst = heap i in
    let (inst', cancelled) =
      cancel_drain (has_queued_competitors_needing_eviction needs queues.queues inst.model_name)
        inst in
    cancel_each is_closed needs candidates (
      update heap i inst',
      if cancelled
          then (notify_queue is_closed queues (queue_key inst.model_name inst.profile_id)).0
          else queues,
    )

unfoldable pub maybe_cancel_drains :
    (ℕ → Bool) → List String → List ℕ → Heap × Queues → Heap × Queues
unfolding cancel_each
maybe_cancel_drains is_closed needs map s =
    cancel_each is_closed needs (keep (λ i. (s.0 i).draining_for_competitor) map) s

-- An instance as it was, or as it was but for a drain for a competitor that is over.
abbrev pub Resumes : Instance → Instance → Type 0
Resumes before after =
    (after ≡ before)
    ⊎ ((before.draining_for_competitor ≡ true)
        × (after ≡ record before { draining = false; draining_for_competitor = false }))

pub cancel_drain-Resumes : (has : Bool) (inst : Instance) → Resumes inst (cancel_drain has inst).0
unfolding cancel_drain
cancel_drain-Resumes has inst = elim (Bool-cases (inst.draining_for_competitor && not has)) [
  | inl t ↦ simp t (inr (ground arith, refl))
  | inr t ↦ simp t (inl refl)
]

pub Resumes-trans : (a b c : Instance) → Resumes a b → Resumes b c → Resumes a c
Resumes-trans a b c (inl e) (inl f) = inl (f ∙ e)
Resumes-trans a b c (inl e) (inr (t, f)) = inr (
  ground arith,
  f ∙ ap (λ (r : Instance). record r { draining = false; draining_for_competitor = false }) e,
)
Resumes-trans a b c (inr (t, e)) (inl f) = inr (t, f ∙ e)
Resumes-trans a b c (inr (t, e)) (inr (u, f)) = ground arith

pub update-Resumes :
    (heap : Heap) (i j : ℕ) (inst : Instance)
    → Resumes (heap i) inst
    → Resumes (heap j) (update heap i inst j)
update-Resumes heap i j inst r = elim (Bool-cases (eqb j i)) [
  | inl t ↦ rw t (subst (λ k. Resumes (heap k) inst) (sym ((eqb_iff j i).0 t)) r)
  | inr t ↦ rw t (inl refl)
]

pub cancel_each-Resumes :
    (is_closed : ℕ → Bool) (needs : List String) (candidates : List ℕ) (heap : Heap)
    (queues : Queues) (j : ℕ)
    → Resumes (heap j) ((cancel_each is_closed needs candidates (heap, queues)).0 j)
unfolding cancel_each
cancel_each-Resumes is_closed needs [] heap queues j = inl refl
cancel_each-Resumes is_closed needs (i ∷ candidates) heap queues j =
    let has = has_queued_competitors_needing_eviction needs queues.queues (heap i).model_name in
    let inst = (cancel_drain has (heap i)).0 in
    Resumes-trans (heap j) (update heap i inst j) _
      (update-Resumes heap i j inst (cancel_drain-Resumes has (heap i)))
      (cancel_each-Resumes is_closed needs candidates (update heap i inst) _ j)

pub Resumes-stays :
    (a b : Instance)
    → Resumes a b
    → a.draining_for_competitor ≡ false
    → b.draining_for_competitor ≡ false
Resumes-stays a b (inl e) f = ap (λ (r : Instance). r.draining_for_competitor) e ∙ f
Resumes-stays a b (inr (t, e)) f = ap (λ (r : Instance). r.draining_for_competitor) e

-- Where the queues only get shorter, competitors only go away.
pub competitors_mono :
    (needs : List String) (q q' : Dict String (List ℕ)) (model : String)
    → ((k : String) → length (list_at k q') ≤ length (list_at k q))
    → has_queued_competitors_needing_eviction needs q model ≡ false
    → has_queued_competitors_needing_eviction needs q' model ≡ false
unfolding has_queued_competitors_needing_eviction
competitors_mono [] q q' model le h = refl
competitors_mono (key ∷ needs) q q' model le h =
    ground (arith, le key, competitors_mono needs q q' model le)

pub notified-le :
    (cancelled : Bool) (is_closed : ℕ → Bool) (queues : Queues) (key k : String)
    → length
        (list_at k (if cancelled then (notify_queue is_closed queues key).0 else queues).queues)
      ≤ length (list_at k queues.queues)
notified-le true is_closed queues key k = notify_queue-le is_closed queues key k
notified-le false is_closed queues key k = omega arith
