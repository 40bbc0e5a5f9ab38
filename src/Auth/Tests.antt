-- ===== src/Auth/Tests.antt =====
-- A witness of the theorem on authentication, and runs of the check.
use llamesh.Prelude.{◌≡◌, refl, true, false, none, some, [], ◌∷◌, arith}
use llamesh.Noise.Text.{codes}
use llamesh.Auth.{
  AuthConfig, Headers, check_api_key_auth, get_header_value, allowed_key_matches, match_loop,
  constant_time_eq, diff_loop, bit_or, bit_xor,
}
use llamesh.Auth.Keys.{is_let_in, check_api_key_auth-refines}

abbrev config : AuthConfig
config = record {
  enabled = true;
  required_header = codes "X-Key";
  allowed_keys = (107 ∷ 49 ∷ []) ∷ (107 ∷ 50 ∷ []) ∷ [];
}

-- The header is found only where its case is folded.
abbrev headers : Headers
headers = record {
  get = λ name. none;
  lines = (codes "x-key", 107 ∷ 50 ∷ []) ∷ [];
  to_str = λ value. some value;
  to_lowercase = λ s. codes "x-key";
}

second_key_is_let_in : check_api_key_auth (some config) headers ≡ true
unfolding check_api_key_auth get_header_value allowed_key_matches match_loop constant_time_eq
    diff_loop bit_or bit_xor
second_key_is_let_in = refl

unknown_key_is_refused :
    check_api_key_auth (some (record config { allowed_keys = (107 ∷ 51 ∷ []) ∷ [] })) headers
    ≡ false
unfolding check_api_key_auth get_header_value allowed_key_matches match_loop constant_time_eq
    diff_loop bit_or bit_xor
unknown_key_is_refused = refl

check_api_key_auth-refines_example :
    check_api_key_auth (some config) headers ≡ is_let_in (some config) headers
unfolding get_header_value
check_api_key_auth-refines_example = check_api_key_auth-refines (some config) headers (
  ((omega arith, (omega arith, tt)), ((omega arith, (omega arith, tt)), tt)),
  (omega arith, (omega arith, tt)),
)
