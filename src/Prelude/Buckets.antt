-- ===== src/Prelude/Buckets.antt =====
-- A map to lists, in which an absent key stands for the empty list, and sets of numbers as lists.
use Prim.Native.Nat.{ℕ}
use mathlib.Core.Path.{◌≡◌, refl}
use mathlib.Core.Bool.{Bool, false, not, ◌&&◌}
use mathlib.Core.List.{List, [], ◌∷◌}
use mathlib.Core.Option.{Option, none, some}
use native.Mathlib.Omega.{arith}
use llamesh.Prelude.Tests.{eqb, eqb_iff, if◌then◌else◌}
use llamesh.Prelude.Lists.{any, keep, count_by}
use llamesh.Prelude.Eq.{Key, ◌==◌}
use llamesh.Prelude.Dict.{Dict, lookup, insert, remove, lookup-insert, lookup-remove}

abbrev pub or_empty {ℓ} : {A : Type ℓ} → Option (List A) → List A
or_empty none = []
or_empty (some xs) = xs

module _ {ℓ κ} {K : Type ℓ} {A : Type κ} ⦃key : Key K⦄ where
  abbrev pub list_at : K → Dict K (List A) → List A
  list_at k m = or_empty (lookup k m)

  -- A write that drops the key of an empty list.
  abbrev pub set_list : K → List A → Dict K (List A) → Dict K (List A)
  set_list k [] m = remove k m
  set_list k (x ∷ xs) m = insert k (x ∷ xs) m

  pub list_at-set_list :
      (k j : K) (xs : List A) (m : Dict K (List A))
      → list_at j (set_list k xs m) ≡ (if k == j then xs else list_at j m)
  list_at-set_list k j [] m = ground (arith, lookup-remove k j m)
  list_at-set_list k j (x ∷ xs) m = ground (arith, lookup-insert k j (x ∷ xs) m)

  pub list_at-insert :
      (k j : K) (xs : List A) (m : Dict K (List A))
      → list_at j (insert k xs m) ≡ (if k == j then xs else list_at j m)
  list_at-insert k j xs m = ground (arith, lookup-insert k j xs m)

-- How often a number occurs, and whether it does.
abbrev pub times : ℕ → List ℕ → ℕ
times t = count_by (eqb t)

abbrev pub occurs : ℕ → List ℕ → Bool
occurs t = any (eqb t)

abbrev pub without : ℕ → List ℕ → List ℕ
without t = keep (λ x. not (eqb x t))

pub times-keep :
    (t : ℕ) (p : ℕ → Bool) (xs : List ℕ) → times t (keep p xs) ≡ (if p t then times t xs else 0)
times-keep t p [] = ground arith
times-keep t p (x ∷ xs) = ground (arith, times-keep t p xs, eqb_iff t x)

pub occurs-times : (t : ℕ) (xs : List ℕ) → times t xs ≡ 0 → occurs t xs ≡ false
occurs-times t [] h = refl
occurs-times t (x ∷ xs) h = ground (arith, occurs-times t xs)

pub times-occurs : (t : ℕ) (xs : List ℕ) → occurs t xs ≡ false → times t xs ≡ 0
times-occurs t [] h = refl
times-occurs t (x ∷ xs) h = ground (arith, times-occurs t xs)

pub occurs-keep : (p : ℕ → Bool) (j : ℕ) (xs : List ℕ) → occurs j (keep p xs) ≡ (occurs j xs && p j)
occurs-keep p j [] = refl
occurs-keep p j (x ∷ xs) = ground (arith, occurs-keep p j xs, eqb_iff j x)
