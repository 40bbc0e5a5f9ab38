-- ===== src/Secrets/Redaction.antt =====
-- src/instance.rs, `redact_secret_args`: what is logged of a command line does not depend on its
-- secrets.
use llamesh.Prelude.{
  ◌≡◌, inl, inr, refl, sym, ap, ◌∙◌, Bool, true, false, some, List, [], ◌∷◌, ◌++◌, any, arith, eqb,
  eqb_iff, Bool-cases, if◌then◌else◌,
}
use llamesh.Noise.Text.{Text, codes, same_text}
use llamesh.Secrets.{
  equals, dashes, is_long, redacted, is_secret_option, split_equals, redact_split, redact_loop,
  redact_secret_args,
}

-- Command lines that differ only in their secrets: in the values after a secret option, or in the
-- values that an argument gives to one. The flag says whether a value is due.
pub data DiffersInSecrets : Bool → List Text → List Text → Type 0 where
  no_more : {due : Bool} → DiffersInSecrets due [] []
  next_value :
      {v w : Text} {xs ys : List Text}
      → DiffersInSecrets false xs ys
      → DiffersInSecrets true (v ∷ xs) (w ∷ ys)
  same_arg :
      {arg : Text} {xs ys : List Text}
      → DiffersInSecrets (is_secret_option arg) xs ys
      → DiffersInSecrets false (arg ∷ xs) (arg ∷ ys)
  inline_value :
      (name v w : Text) {xs ys : List Text}
      → is_secret_option name ≡ true
      → DiffersInSecrets false xs ys
      → DiffersInSecrets false ((name ++ (equals ∷ v)) ∷ xs) ((name ++ (equals ∷ w)) ∷ ys)

abbrev pub has_equals : Text → Bool
has_equals = any (λ c. eqb c equals)

pub has_equals-append : (s t : Text) → has_equals (s ++ (equals ∷ t)) ≡ true
has_equals-append [] t = refl
has_equals-append (c ∷ s) t = ground (arith, has_equals-append s t)

has_equals-dashes : (s : Text) → has_equals (dashes s) ≡ has_equals s
has_equals-dashes [] = refl
has_equals-dashes (c ∷ s) = ground (arith, has_equals-dashes s)

has_equals-differs :
    (s t : Text) → has_equals s ≡ true → has_equals t ≡ false → same_text s t ≡ false
has_equals-differs [] t h k = ground (arith, h)
has_equals-differs (c ∷ s) [] h k = refl
has_equals-differs (c ∷ s) (d ∷ t) h k = ground (arith, has_equals-differs s t, eqb_iff c d)

no_option :
    (s : Text)
    → has_equals s ≡ true
    → any (same_text s) (codes "--api-key" ∷ codes "--hf-token" ∷ codes "-hft" ∷ []) ≡ false
no_option s h =
    rw
      (
        has_equals-differs s (codes "--api-key") h refl,
        has_equals-differs s (codes "--hf-token") h refl,
        has_equals-differs s (codes "-hft") h refl,
      )
      refl

-- The name of a secret option has no equals sign.
with_equals_is_plain : (s : Text) → has_equals s ≡ true → is_secret_option s ≡ false
unfolding is_secret_option
with_equals_is_plain s h = elim (Bool-cases (is_long s)) [
  | inl t ↦ rw t (no_option (dashes s) (has_equals-dashes s ∙ h))
  | inr t ↦ rw t (no_option s h)
]

secret_has_no_equals : (s : Text) → is_secret_option s ≡ true → has_equals s ≡ false
secret_has_no_equals s h = ground (arith, h, with_equals_is_plain s)

pub split-append :
    (name v : Text) → has_equals name ≡ false → split_equals (name ++ (equals ∷ v)) ≡ some (name, v)
split-append [] v h = refl
split-append (c ∷ name) v h =
    let e : split_equals (name ++ (equals ∷ v)) ≡ some (name, v) =
      split-append name v (ground (arith, h)) in
    let t : eqb c equals ≡ false = ground (arith, h) in rw (t, e) refl

-- An argument that gives a value to a secret option is logged without it.
inline-redacted :
    (name v : Text) (xs : List Text)
    → is_secret_option name ≡ true
    → redact_loop false ((name ++ (equals ∷ v)) ∷ xs)
      ≡ (name ++ (equals ∷ redacted)) ∷ redact_loop false xs
unfolding redact_loop
inline-redacted name v xs h =
    rw
      (
        with_equals_is_plain (name ++ (equals ∷ v)) (has_equals-append name v),
        split-append name v (secret_has_no_equals name h),
        h,
      )
      refl

loop-same :
    {due : Bool} {xs ys : List Text}
    → DiffersInSecrets due xs ys
    → redact_loop due xs ≡ redact_loop due ys
unfolding redact_loop
loop-same no_more = refl
loop-same (next_value d) = ap (λ r. redacted ∷ r) (loop-same d)
loop-same (same_arg {arg} d) =
    ap (λ r. (if is_secret_option arg then arg else redact_split arg (split_equals arg)) ∷ r)
      (loop-same d)
loop-same (inline_value name v w {xs} {ys} h d) =
    inline-redacted name v xs h
    ∙ ap (λ r. (name ++ (equals ∷ redacted)) ∷ r) (loop-same d)
    ∙ sym (inline-redacted name w ys h)

-- Two command lines that differ only in their secrets, whether in an argument after a secret option
-- or after the equals sign of one, are logged as the same text.
pub redact_secret_args-hides :
    (args args' : List Text)
    → DiffersInSecrets false args args'
    → redact_secret_args args ≡ redact_secret_args args'
unfolding redact_secret_args
redact_secret_args-hides args args' d = loop-same d
