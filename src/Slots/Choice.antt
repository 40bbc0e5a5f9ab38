-- ===== src/Slots/Choice.antt =====
-- src/node_state/mod.rs, `try_get_or_spawn_resolved`: the instance that a request is given.
use mathlib.Core.Path.{subst}
use llamesh.Prelude.{
  ℕ, ◌≡◌, ◌≤◌, ◌<◌, ◌⊎◌, inl, inr, refl, sym, ap, ◌∙◌, String, Bool, true, false, not, ◌&&◌, Option,
  none, some, List, [], ◌∷◌, All, arith, ltb, Bool-cases,
}
use llamesh.Prelude.Word.{u64_max}
use llamesh.Routing.Filter.{Among, here, there, Picks}
use llamesh.Slots.{Heap, is_of, has_capacity, has_failed, is_available, best_instance, no_best}

module _ (max_concurrent : ℕ) (model profile : String) (heap : Heap) where
  -- An instance that may take the request: of its model and profile, alive, not failed, not draining
  -- and with a free slot.
  abbrev pub may_take : ℕ → Bool
  may_take i =
      is_of model profile (heap i)
      && (heap i).alive
      && not (has_failed (heap i).status)
      && not (heap i).draining
      && has_capacity max_concurrent (heap i)

  abbrev pub fewer : ℕ → ℕ → Bool
  fewer i j = ltb (heap i).in_flight_requests (heap j).in_flight_requests

  is_available-may_take : (i : ℕ) → is_available max_concurrent model profile (heap i) ≡ may_take i
  unfolding is_available
  is_available-may_take i = ground arith

  -- What the loop makes of an instance that it has found already.
  record IsBest (x : ℕ) (map : List ℕ) (y : ℕ) : Type 0 where
    from : (y ≡ x) ⊎ ((may_take y ≡ true) × Among y map)
    no_more : (heap y).in_flight_requests ≤ (heap x).in_flight_requests
    least : All (λ z. (may_take z ≡ false) ⊎ (fewer z y ≡ false)) map

  skipped :
      (x y i : ℕ) (map : List ℕ)
      → (y ≡ x) ⊎ ((may_take y ≡ true) × Among y map)
      → (y ≡ x) ⊎ ((may_take y ≡ true) × Among y (i ∷ map))
  skipped x y i map (inl e) = inl e
  skipped x y i map (inr (t, m)) = inr (t, there m)

  found :
      (y i : ℕ) (map : List ℕ)
      → may_take i ≡ true
      → (y ≡ i) ⊎ ((may_take y ≡ true) × Among y map)
      → (may_take y ≡ true) × Among y (i ∷ map)
  found y i map free (inl e) = (ap may_take e ∙ free, here e)
  found y i map free (inr (t, m)) = (t, there m)

  improves :
      (x : ℕ) (map : List ℕ)
      → (y : ℕ) × (best_instance max_concurrent model profile heap map
            (some x, (heap x).in_flight_requests)
          ≡ (some y, (heap y).in_flight_requests))
        × IsBest x map y
  unfolding best_instance
  improves x [] = (x, refl, record { from = inl refl; no_more = omega arith; least = tt })
  improves x (i ∷ map) = elim (Bool-cases (is_available max_concurrent model profile (heap i))) [
    | inr busy ↦
        let (y, e, b) = improves x map in
        (
          y,
          rw busy e,
          record {
            from = skipped x y i map b.from;
            no_more = b.no_more;
            least = (inl (sym (is_available-may_take i) ∙ busy), b.least);
          },
        )
    | inl free ↦ elim (Bool-cases (fewer i x)) [
      | inr more ↦
          let (y, e, b) = improves x map in
          (
            y,
            rw (free, more) e,
            record {
              from = skipped x y i map b.from;
              no_more = b.no_more;
              least = (inr (ground (arith, b.no_more)), b.least);
            },
          )
      | inl less ↦
          let (y, e, b) = improves i map in
          (
            y,
            rw (free, less) e,
            record {
              from = inr (found y i map (sym (is_available-may_take i) ∙ free) b.from);
              no_more = ground (arith, b.no_more);
              least = (inr (ground (arith, b.no_more)), b.least);
            },
          )
    ]
  ]

  Picks-skip :
      (i : ℕ) (map : List ℕ) (o : Option ℕ)
      → may_take i ≡ false
      → Picks may_take fewer map o
      → Picks may_take fewer (i ∷ map) o
  Picks-skip i map none busy a = (busy, a)
  Picks-skip i map (some y) busy (t, m, a) = (t, there m, (inl busy, a))

  taken :
      (i : ℕ) (map : List ℕ)
      → is_available max_concurrent model profile (heap i) ≡ true
      → (heap i).in_flight_requests < u64_max
      → best_instance max_concurrent model profile heap (i ∷ map) no_best
        ≡ best_instance max_concurrent model profile heap map (some i, (heap i).in_flight_requests)
  unfolding best_instance
  taken i map free h = rw free (ground arith)

  passed :
      (i : ℕ) (map : List ℕ)
      → is_available max_concurrent model profile (heap i) ≡ false
      → best_instance max_concurrent model profile heap (i ∷ map) no_best
        ≡ best_instance max_concurrent model profile heap map no_best
  unfolding best_instance
  passed i map busy = rw busy refl

  -- A request is given an instance in the map that may take it and has as few requests in flight as
  -- any such instance; it is given none only where no instance may take it. No instance has as many
  -- requests as a machine word can count.
  pub best_instance-Picks :
      (map : List ℕ)
      → All (λ i. (heap i).in_flight_requests < u64_max) map
      → Picks may_take fewer map (best_instance max_concurrent model profile heap map no_best).0
  unfolding best_instance
  best_instance-Picks [] small = tt
  best_instance-Picks (i ∷ map) (h, small) =
      elim (Bool-cases (is_available max_concurrent model profile (heap i))) [
        | inr busy ↦
            subst (λ r. Picks may_take fewer (i ∷ map) r.0) (sym (passed i map busy))
              (Picks-skip i map (best_instance max_concurrent model profile heap map no_best).0
                (sym (is_available-may_take i) ∙ busy) (best_instance-Picks map small))
        | inl free ↦
            let (y, e, b) = improves i map in
            let (t, m) = found y i map (sym (is_available-may_take i) ∙ free) b.from in
            subst (λ r. Picks may_take fewer (i ∷ map) r.0) (sym (taken i map free h ∙ e))
              (t, m, (inr (ground (arith, b.no_more)), b.least))
      ]
