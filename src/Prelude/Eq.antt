-- ===== src/Prelude/Eq.antt =====
-- What the maps and the searches ask of a key: a Boolean test that decides equality. Native numbers
-- and strings are keys.
use Prim.Native.Nat.{ℕ}
use Prim.Native.String.{String}
use mathlib.Core.Path.{◌≡◌, refl}
use mathlib.Core.Logic.{◌↔◌}
use mathlib.Core.Bool.{Bool, true}
use llamesh.Prelude.Tests.{eqb, eqb_iff}
use text.Mathlib.Text.{◌==◌ as same_text}
use text.Mathlib.TextEquality.{eq_iff as same_text_iff}

pub record Key {κ} (K : Type κ) : Type κ where
  pub same : K → K → Bool
  pub same_iff : (x y : K) → (same x y ≡ true) ↔ (x ≡ y)

module _ {κ} {K : Type κ} ⦃key : Key K⦄ where
  infix 50 ◌==◌
  abbrev pub ◌==◌ : K → K → Bool
  x == y = key.same x y

  pub ==_refl : (x : K) → (x == x) ≡ true
  ==_refl x = (key.same_iff x x).1 refl

instance abbrev pub string_key : Key String
string_key = record { same = same_text; same_iff = same_text_iff }

instance abbrev pub nat_key : Key ℕ
nat_key = record { same = eqb; same_iff = eqb_iff }
