-- ===== src/Auth.antt =====
-- src/security.rs, `check_api_key_auth`, and `AuthConfig` of src/config.rs: which requests are let in by
-- their key. A key is its bytes. The map of headers, which values are text, and the Unicode case
-- table are parameters.
pub mod Bits
pub mod Keys
pub mod Tests
use llamesh.Prelude.{
  ℕ, zero, suc, ◌+◌, ◌*◌, ◌/◌, ◌%◌, Bool, true, false, not, ◌||◌, Option, none, some, List, [], ◌∷◌,
  length, eqb, if◌then◌else◌,
}
use llamesh.Noise.Text.{Text, same_text}

abbrev pub Bytes : Type 0
Bytes = List ℕ

-- `^` and `|` on so many bits.
unfoldable pub bit_xor : ℕ → ℕ → ℕ → ℕ
bit_xor zero a b = 0
bit_xor (suc bits) a b = (if eqb (a % 2) (b % 2) then 0 else 1) + 2 * bit_xor bits (a / 2) (b / 2)

unfoldable pub bit_or : ℕ → ℕ → ℕ → ℕ
bit_or zero a b = 0
bit_or (suc bits) a b = (if eqb (a % 2) 0 then b % 2 else 1) + 2 * bit_or bits (a / 2) (b / 2)

-- The loop of `constant_time_eq`, over the pairs of bytes.
unfoldable pub diff_loop : ℕ → Bytes → Bytes → ℕ
unfolding bit_or bit_xor
diff_loop diff [] bs = diff
diff_loop diff (a ∷ as') [] = diff
diff_loop diff (a ∷ as') (b ∷ bs) = diff_loop (bit_or 8 diff (bit_xor 8 a b)) as' bs

unfoldable pub constant_time_eq : Bytes → Bytes → Bool
unfolding diff_loop
constant_time_eq a b = if not (eqb (length a) (length b)) then false else eqb (diff_loop 0 a b) 0

-- The loop of `allowed_key_matches`; every key is compared.
unfoldable pub match_loop : Bool → List Bytes → Bytes → Bool
unfolding constant_time_eq
match_loop authorized [] candidate = authorized
match_loop authorized (key ∷ keys) candidate =
    match_loop (authorized || constant_time_eq key candidate) keys candidate

unfoldable pub allowed_key_matches : List Bytes → Bytes → Bool
unfolding match_loop
allowed_key_matches keys candidate = match_loop false keys candidate

pub record AuthConfig : Type 0 where
  pub enabled : Bool
  pub required_header : Text
  pub allowed_keys : List Bytes

-- What the map of headers answers: the first value of a header, and all of its lines; with the bytes of
-- a value, where it is text.
pub record Headers : Type 0 where
  pub get : Text → Option Text
  pub lines : List (Text × Text)
  pub to_str : Text → Option Bytes
  pub to_lowercase : Text → Text

abbrev pub read_value : Headers → Option Text → Option Bytes
read_value h none = none
read_value h (some value) = h.to_str value

-- The loop of `get_header_value`.
abbrev pub find_line : Headers → Text → List (Text × Text) → Option Bytes
find_line h required [] = none
find_line h required ((name, value) ∷ lines) =
    let rest = find_line h required lines in
    if same_text (h.to_lowercase name) required then h.to_str value else rest

abbrev pub or_else_line : Option Bytes → Option Bytes → Option Bytes
or_else_line none line = line
or_else_line (some value) line = some value

unfoldable pub get_header_value : AuthConfig → Headers → Option Bytes
get_header_value config h =
    or_else_line (read_value h (h.get config.required_header))
      (find_line h (h.to_lowercase config.required_header) h.lines)

abbrev pub is_authorized : AuthConfig → Option Bytes → Bool
unfolding allowed_key_matches
is_authorized config none = false
is_authorized config (some key) = allowed_key_matches config.allowed_keys key

-- `check_api_key_auth`: whether the request is let in.
unfoldable pub check_api_key_auth : Option AuthConfig → Headers → Bool
unfolding get_header_value is_authorized
check_api_key_auth none h = true
check_api_key_auth (some config) h =
    if config.enabled then is_authorized config (get_header_value config h) else true
