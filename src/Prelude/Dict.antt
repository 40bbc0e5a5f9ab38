-- ===== src/Prelude/Dict.antt =====
-- `HashMap<K, V>`: an association list over a key type with an equality test. An entry is looked up
-- by the first match, and a write drops every older entry of its key. The program's maps are read
-- in no order that matters, so the list's order stands for none.
use Prim.Native.Nat.{ℕ, ◌+◌}
use mathlib.Core.Path.{◌≡◌, refl}
use mathlib.Core.Logic.{inl, inr}
use mathlib.Core.Bool.{Bool}
use mathlib.Core.List.{List, [], ◌∷◌}
use mathlib.Core.Option.{Option, none, some}
use native.Mathlib.Omega.{arith}
use llamesh.Prelude.Tests.{if◌then◌else◌, Bool-cases}
use llamesh.Prelude.Lists.{is_some, count_by}
use llamesh.Prelude.Eq.{Key, ◌==◌}

abbrev pub Dict {ℓ κ} : Type ℓ → Type κ → Type (ℓ ⊔ κ)
Dict K V = List (K × V)

-- What one entry adds to a count.
abbrev pub weight {κ} : {V : Type κ} → (V → Bool) → Option V → ℕ
weight p none = 0
weight p (some v) = if p v then 1 else 0

module _ {ℓ κ} {K : Type ℓ} {V : Type κ} ⦃key : Key K⦄ where
  unfoldable pub lookup : K → Dict K V → Option V
  lookup k [] = none
  lookup k ((j, v) ∷ m) = if j == k then some v else lookup k m

  unfoldable pub remove : K → Dict K V → Dict K V
  remove k [] = []
  remove k ((j, v) ∷ m) = let rest = remove k m in if j == k then rest else (j, v) ∷ rest

  unfoldable pub insert : K → V → Dict K V → Dict K V
  unfolding remove
  insert k v m = (k, v) ∷ remove k m

  abbrev pub contains_key : K → Dict K V → Bool
  contains_key k m = is_some (lookup k m)

  pub lookup-remove :
      (k j : K) (m : Dict K V) → lookup j (remove k m) ≡ (if k == j then none else lookup j m)
  unfolding lookup remove
  lookup-remove k j [] = ground arith
  lookup-remove k j ((i, v) ∷ m) =
      ground (arith, lookup-remove k j m, key.same_iff i k, key.same_iff i j, key.same_iff k j)

  pub lookup-insert :
      (k j : K) (v : V) (m : Dict K V)
      → lookup j (insert k v m) ≡ (if k == j then some v else lookup j m)
  unfolding lookup insert
  lookup-insert k j v m = ground (arith, lookup-remove k j m)

  -- No two entries have one key: each key is found at its own entry only.
  abbrev pub Distinct : Dict K V → Type κ
  Distinct [] = Unit
  Distinct ((k, v) ∷ m) = (lookup k m ≡ none) × Distinct m

  pub remove-Distinct : (k : K) (m : Dict K V) → Distinct m → Distinct (remove k m)
  unfolding remove
  remove-Distinct k [] d = tt
  remove-Distinct k ((j, v) ∷ m) d = elim (Bool-cases (j == k)) [
    | inl same ↦ rw same (remove-Distinct k m d.1)
    | inr other ↦ rw other (gone, remove-Distinct k m d.1)
  ]
    where
      gone : lookup j (remove k m) ≡ none
      gone = ground (arith, lookup-remove k j m, d.0)

  pub insert-Distinct : (k : K) (v : V) (m : Dict K V) → Distinct m → Distinct (insert k v m)
  unfolding insert
  insert-Distinct k v m d =
      (ground (arith, lookup-remove k k m, key.same_iff k k), remove-Distinct k m d)

  -- The number of entries that pass a test of their value (`values().filter(..).count()`).
  abbrev pub count_values : (V → Bool) → Dict K V → ℕ
  count_values p = count_by (λ x. p x.1)

  remove_absent : (k : K) (m : Dict K V) → lookup k m ≡ none → remove k m ≡ m
  unfolding lookup remove
  remove_absent k [] h = refl
  remove_absent k ((j, v) ∷ m) h = ground (arith, remove_absent k m)

  -- Removing a key takes its entry out of a count, and nothing else.
  pub count_values-remove :
      (p : V → Bool) (k : K) (m : Dict K V)
      → Distinct m
      → count_values p (remove k m) + weight p (lookup k m) ≡ count_values p m
  unfolding lookup remove
  count_values-remove p k [] d = omega arith
  count_values-remove p k ((j, v) ∷ m) d = elim (Bool-cases (j == k)) [
    | inl same ↦ rw (same, remove_absent k m (rw ((key.same_iff j k).0 same) at d.0)) (ground arith)
    | inr other ↦ rw other (ground (arith, count_values-remove p k m d.1))
  ]

  pub count_values-insert :
      (p : V → Bool) (k : K) (v : V) (m : Dict K V)
      → Distinct m
      → count_values p (insert k v m) + weight p (lookup k m)
        ≡ count_values p m + (if p v then 1 else 0)
  unfolding insert
  count_values-insert p k v m d = omega (arith, count_values-remove p k m d)

pub ruleset dict_laws = (lookup-remove, lookup-insert)
