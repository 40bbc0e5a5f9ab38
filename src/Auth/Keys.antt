-- ===== src/Auth/Keys.antt =====
-- src/security.rs: the comparison in constant time lets in exactly the requests with an allowed key.
use llamesh.Prelude.{
  ℕ, ◌≡◌, ◌<◌, ◌↔◌, refl, ap, ◌∙◌, inl, inr, Bool, true, false, not, ◌&&◌, ◌||◌, Option, none, some,
  List, [], ◌∷◌, All, any, length, arith, eqb, eqb_iff, Bool-cases,
}
use llamesh.Noise.Text.{same_text}
use llamesh.Auth.{
  Bytes, bit_xor, bit_or, diff_loop, constant_time_eq, match_loop, allowed_key_matches, AuthConfig,
  Headers, get_header_value, is_authorized, check_api_key_auth,
}
use llamesh.Auth.Bits.{bit_xor-zero, bit_or-zero, bit_xor-lt, bit_or-lt}

abbrev pub IsBytes : Bytes → Type 0
IsBytes = All (λ b. b < 256)

no_difference :
    (diff next mixed x y : ℕ)
    → (next ≡ 0) ↔ ((diff ≡ 0) × (mixed ≡ 0))
    → (mixed ≡ 0) ↔ (x ≡ y)
    → eqb next 0 ≡ (eqb diff 0 && eqb x y)
no_difference diff next mixed x y n m =
    ground (arith, n, m, eqb_iff next 0, eqb_iff diff 0, eqb_iff x y)

three_and : (a b c : Bool) → ((a && b) && c) ≡ (a && (b && c))
three_and a b c = ground arith

diff_loop-zero :
    (diff : ℕ) (a b : Bytes)
    → diff < 256
    → IsBytes a
    → IsBytes b
    → length a ≡ length b
    → eqb (diff_loop diff a b) 0 ≡ (eqb diff 0 && same_text a b)
unfolding diff_loop
diff_loop-zero diff [] [] d la lb h = ground arith
diff_loop-zero diff [] (y ∷ b) d la lb h = ground (arith, h)
diff_loop-zero diff (x ∷ a) [] d la lb h = ground (arith, h)
diff_loop-zero diff (x ∷ a) (y ∷ b) d (lx, la) (ly, lb) h =
    let next = bit_or 8 diff (bit_xor 8 x y) in
    diff_loop-zero next a b (bit_or-lt 8 diff (bit_xor 8 x y)) la lb (omega (arith, h))
    ∙ ap (λ z. z && same_text a b)
        (no_difference diff next (bit_xor 8 x y) x y
          (bit_or-zero 8 diff (bit_xor 8 x y) d (bit_xor-lt 8 x y)) (bit_xor-zero 8 x y lx ly))
    ∙ three_and (eqb diff 0) (eqb x y) (same_text a b)

same_length : (a b : Bytes) → same_text a b ≡ true → length a ≡ length b
same_length [] [] h = refl
same_length [] (y ∷ b) h = ground arith
same_length (x ∷ a) [] h = ground arith
same_length (x ∷ a) (y ∷ b) h = ground (arith, h, same_length a b)

constant_time_eq-same : (a b : Bytes) → IsBytes a → IsBytes b → constant_time_eq a b ≡ same_text a b
unfolding constant_time_eq
constant_time_eq-same a b la lb = elim (Bool-cases (eqb (length a) (length b))) [
  | inl t ↦ rw t (diff_loop-zero 0 a b (omega arith) la lb ((eqb_iff (length a) (length b)).0 t))
  | inr t ↦ rw t (ground (arith, t, same_length a b))
]

match_loop-any :
    (authorized : Bool) (keys : List Bytes) (candidate : Bytes)
    → All IsBytes keys
    → IsBytes candidate
    → match_loop authorized keys candidate
      ≡ (authorized || any (λ key. same_text key candidate) keys)
unfolding match_loop
match_loop-any authorized [] candidate k c = ground arith
match_loop-any authorized (key ∷ keys) candidate (k, ks) c = ground (
  arith,
  match_loop-any (authorized || constant_time_eq key candidate) keys candidate ks c,
  constant_time_eq-same key candidate k c,
)

abbrev AllBytes : Option Bytes → Type 0
AllBytes none = Unit
AllBytes (some key) = IsBytes key

abbrev pub has_key : AuthConfig → Option Bytes → Bool
has_key config none = false
has_key config (some key) = any (λ k. same_text k key) config.allowed_keys

-- What the check promises: a request is let in where there is no key to check, or its key is allowed.
abbrev pub is_let_in : Option AuthConfig → Headers → Bool
is_let_in none h = true
is_let_in (some config) h = not config.enabled || has_key config (get_header_value config h)

-- The allowed keys and the key of the request are bytes.
abbrev pub KeysAreBytes : Option AuthConfig → Headers → Type 0
KeysAreBytes none h = Unit
KeysAreBytes (some config) h =
    All IsBytes config.allowed_keys × AllBytes (get_header_value config h)

authorized-any :
    (config : AuthConfig) (presented : Option Bytes)
    → All IsBytes config.allowed_keys
    → AllBytes presented
    → is_authorized config presented ≡ has_key config presented
unfolding is_authorized allowed_key_matches
authorized-any config none k c = refl
authorized-any config (some key) k c = match_loop-any false config.allowed_keys key k c

-- The check lets a request in exactly where there is nothing to check, or the key that it presents is
-- one of the allowed keys; the bits of the comparison in constant time tell no two keys alike.
pub check_api_key_auth-refines :
    (config : Option AuthConfig) (h : Headers)
    → KeysAreBytes config h
    → check_api_key_auth config h ≡ is_let_in config h
unfolding check_api_key_auth
check_api_key_auth-refines none h b = refl
check_api_key_auth-refines (some config) h (k, c) = elim (Bool-cases config.enabled) [
  | inl t ↦ rw t (authorized-any config (get_header_value config h) k c)
  | inr t ↦ rw t refl
]
