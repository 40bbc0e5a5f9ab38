-- ===== src/Args/Address.antt =====
-- src/instance.rs, `compute_args_hash`: the hash leaves out where the server listens.
use llamesh.Prelude.{◌≡◌, refl, sym, ap, ◌∙◌, Bool, true, false, List, [], ◌∷◌, arith, ltb}
use llamesh.Noise.Text.{Text}
use llamesh.Args.{
  is_address, is_inline_address, Grouping, group_step, group_loop, Hasher, compute_args_hash,
  group_bytes, less_by,
}
use llamesh.Routing.{sort_by}

-- A command line, and the same one with options for the host and the port in it.
pub data Listens : List Text → List Text → Type 0 where
  no_more : Listens [] []
  same_arg :
      {arg : Text} {xs ys : List Text}
      → is_address arg ≡ false
      → Listens xs ys
      → Listens (arg ∷ xs) (arg ∷ ys)
  at_address :
      {arg : Text} (value : Text) {xs ys : List Text}
      → is_address arg ≡ true
      → Listens xs ys
      → Listens xs (arg ∷ value ∷ ys)
  at_inline_address :
      {arg : Text} {xs ys : List Text}
      → is_address arg ≡ false
      → is_inline_address arg ≡ true
      → Listens xs ys
      → Listens xs (arg ∷ ys)

step-plain :
    (is_number : Text → Bool) (g : Grouping) (arg : Text)
    → g.skip_next ≡ false
    → is_address arg ≡ false
    → (group_step is_number g arg).skip_next ≡ false
unfolding group_step
step-plain is_number g arg s a = simp (s, a) (ground (arith, s))

step-address :
    (is_number : Text → Bool) (g : Grouping) (arg value : Text)
    → g.skip_next ≡ false
    → is_address arg ≡ true
    → group_step is_number (group_step is_number g arg) value ≡ g
unfolding group_step
step-address is_number g arg value s a = simp (s, a) (sym (ap (λ b. record g { skip_next = b }) s))

step-inline :
    (is_number : Text → Bool) (g : Grouping) (arg : Text)
    → g.skip_next ≡ false
    → is_address arg ≡ false
    → is_inline_address arg ≡ true
    → group_step is_number g arg ≡ g
unfolding group_step
step-inline is_number g arg s a i = simp (s, a, i) refl

loop-same :
    (is_number : Text → Bool) (g : Grouping) {xs ys : List Text}
    → g.skip_next ≡ false
    → Listens xs ys
    → group_loop is_number g xs ≡ group_loop is_number g ys
unfolding group_loop
loop-same is_number g s no_more = refl
loop-same is_number g s (same_arg {arg} {xs} {ys} a l) =
    loop-same is_number (group_step is_number g arg) (step-plain is_number g arg s a) l
loop-same is_number g s (at_address {arg} value {xs} {ys} a l) =
    loop-same is_number g s l
    ∙ ap (λ k. group_loop is_number k ys) (sym (step-address is_number g arg value s a))
loop-same is_number g s (at_inline_address {arg} {xs} {ys} a i l) =
    loop-same is_number g s l
    ∙ ap (λ k. group_loop is_number k ys) (sym (step-inline is_number g arg s a i))

-- The hash of a command line does not change with the host and the port that are added to it.
pub compute_args_hash-Listens :
    (h : Hasher) (args listening : List Text)
    → Listens args listening
    → compute_args_hash h args ≡ compute_args_hash h listening
unfolding compute_args_hash
compute_args_hash-Listens h args listening l =
    ap (λ (g : Grouping). h.digest (group_bytes h.bytes (sort_by (less_by (less_by ltb)) g.groups)))
      (loop-same h.is_number (record { groups = []; skip_next = false; has_option = false }) refl l)
