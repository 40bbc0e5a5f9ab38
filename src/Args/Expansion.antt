-- ===== src/Args/Expansion.antt =====
-- src/node_state/model_index.rs, `build_pre_args`: what the expansion makes of the options.
use llamesh.Prelude.{
  ◌≡◌, inl, inr, refl, sym, ap, ◌∙◌, Bool, true, false, ◌||◌, List, [], ◌∷◌, ◌++◌, All, any, arith,
  eqb_iff, Bool-cases,
}
use mathlib.Core.List.{append_assoc}
use llamesh.Noise.Text.{Text, codes, same_text, same_text_iff, strip_prefix}
use llamesh.Secrets.{equals}
use llamesh.Secrets.Redaction.{has_equals, has_equals-append, split-append}
use llamesh.Args.{starts_with, is_flag, expand, expand_all}

-- An argument that is one of the names.
abbrev pub is_name : List Text → Text → Bool
is_name names arg = any (λ name. same_text arg name) names

pub any-append : (p : Text → Bool) (xs ys : List Text) → any p (xs ++ ys) ≡ (any p xs || any p ys)
any-append p [] ys = refl
any-append p (x ∷ xs) ys = ground (arith, any-append p xs ys)

starts_with-splits :
    (prefix arg : Text) → starts_with arg prefix ≡ true → (rest : Text) × (arg ≡ prefix ++ rest)
unfolding strip_prefix
starts_with-splits [] arg h = (arg, refl)
starts_with-splits (p ∷ ps) [] h = ground arith
starts_with-splits (p ∷ ps) (c ∷ s) h =
    let (rest, e) = starts_with-splits ps s (ground (arith, h)) in
    let same : p ≡ c = (eqb_iff p c).0 (ground (arith, h)) in
    (rest, ap (λ t. c ∷ t) e ∙ ap (λ x. x ∷ ps ++ rest) (sym same))

-- A name of an option: it begins with a dash and has no equals sign.
abbrev pub IsOption : Text → Type 0
IsOption name = (starts_with name (codes "-") ≡ true) × (has_equals name ≡ false)

expand-name : (name : Text) → IsOption name → expand name ≡ name ∷ []
unfolding expand
expand-name name (d, e) = rw e (ground arith)

starts_with-append :
    (s t : Text) → starts_with s (codes "-") ≡ true → starts_with (s ++ t) (codes "-") ≡ true
unfolding strip_prefix
starts_with-append [] t h = ground arith
starts_with-append (c ∷ s) t h = ground (arith, h)

expand-value :
    (name rest : Text) → IsOption name → expand (name ++ (equals ∷ rest)) ≡ name ∷ rest ∷ []
unfolding expand
expand-value name rest (d, e) =
    rw
      (
        starts_with-append name (equals ∷ rest) d,
        has_equals-append name rest,
        split-append name rest e,
      )
      (ground arith)

names-expand :
    (name arg : Text)
    → IsOption name
    → (same_text arg name || starts_with arg (name ++ (equals ∷ []))) ≡ true
    → (rest : List Text) × (expand arg ≡ name ∷ rest)
names-expand name arg o h = elim (Bool-cases (same_text arg name)) [
  | inl t ↦ ([], ap expand ((same_text_iff arg name).0 t) ∙ expand-name name o)
  | inr t ↦
      let (v, e) = starts_with-splits (name ++ (equals ∷ [])) arg (ground (arith, h, t)) in
      (v ∷ [], ap expand (e ∙ append_assoc name (equals ∷ []) v) ∙ expand-value name v o)
]

flag-expands :
    (names : List Text) (arg : Text)
    → All IsOption names
    → is_flag names arg ≡ true
    → (name : Text) × (rest : List Text) × (is_name names name ≡ true) × (expand arg ≡ name ∷ rest)
flag-expands [] arg o h = ground arith
flag-expands (m ∷ ms) arg (o, os) h =
    elim (Bool-cases (same_text arg m || starts_with arg (m ++ (equals ∷ [])))) [
      | inl t ↦
          let (rest, e) = names-expand m arg o t in
          (m, rest, rw ((same_text_iff m m).1 refl) refl, e)
      | inr t ↦
          let (n, rest, k, e) = flag-expands ms arg os (ground (arith, h, t)) in
          (n, rest, ground (arith, k), e)
    ]

pub flags-expand :
    (names : List Text) (args : List Text)
    → All IsOption names
    → any (is_flag names) args ≡ true
    → any (is_name names) (expand_all args) ≡ true
unfolding expand_all
flags-expand names [] o h = ground arith
flags-expand names (arg ∷ args) o h = elim (Bool-cases (is_flag names arg)) [
  | inl t ↦ let (n, rest, k, e) = flag-expands names arg o t in rw e (ground (arith, k))
  | inr t ↦ ground (
    arith,
    any-append (is_name names) (expand arg) (expand_all args),
    flags-expand names args o (ground (arith, h, t)),
  )
]
