-- ===== src/Relay/Tests.antt =====
-- Witnesses of the theorems on relayed requests, with a list of headers as the map.
use llamesh.Prelude.{
  ℕ, zero, suc, ◌+◌, ◌≡◌, ◌≤◌, refl, some, List, [], ◌∷◌, arith, length, if◌then◌else◌,
}
use llamesh.Noise.Text.{Text, codes, same_text, same_text_iff, trim_start, trim_end, is_whitespace}
use llamesh.Relay.{
  HeaderMaps, hops_header, request_id_header, build_forward_headers, remove_hop_by_hop_headers,
  check_hops,
}
use llamesh.Relay.Headers.{or_set, is_stripped, build_forward_headers-relays}
use llamesh.Relay.Hops.{IsReadBack, starts, relays, verdict, check_hops-counts}

abbrev Headers : Type 0
Headers = List (Text × Text)

abbrev values_of : Text → Headers → List Text
values_of name [] = []
values_of name ((key, value) ∷ m) =
    if same_text name key then value ∷ values_of name m else values_of name m

abbrev without_key : Text → Headers → Headers
without_key key [] = []
without_key key ((k, value) ∷ m) =
    if same_text k key then without_key key m else (k, value) ∷ without_key key m

values-without :
    (name key : Text) (m : Headers)
    → values_of name (without_key key m) ≡ (if same_text name key then [] else values_of name m)
values-without name key [] = ground arith
values-without name key ((k, v) ∷ m) = ground (
  arith,
  values-without name key m,
  same_text_iff k key,
  same_text_iff name k,
  same_text_iff name key,
)

values-insert :
    (name key value : Text) (m : Headers)
    → values_of name ((key, value) ∷ without_key key m)
      ≡ (if same_text name key then value ∷ [] else values_of name m)
values-insert name key value m = ground (arith, values-without name key m)

-- A number as so many strokes.
abbrev strokes : ℕ → Text
strokes zero = []
strokes (suc n) = 49 ∷ strokes n

length-strokes : (n : ℕ) → length (strokes n) ≡ n
length-strokes zero = refl
length-strokes (suc n) = omega (arith, length-strokes n)

abbrev header_list : HeaderMaps
header_list = record {
  Map = Headers;
  get_all = values_of;
  remove = without_key;
  insert = λ key value m. (key, value) ∷ without_key key m;
  from_bytes = λ s. some s;
  to_str = λ s. some s;
  from_str = λ s. some s;
  decimal = strokes;
  parse = λ s. some (length s);
  get_all-remove = values-without;
  get_all-insert = values-insert;
}

strokes-IsReadBack : (n : ℕ) → IsReadBack header_list n
strokes-IsReadBack n = record { fits = refl; readable = refl; parses = rw (length-strokes n) refl }

-- A request with a cookie, and a header that it keeps to this hop.
abbrev source : Headers
source =
    (codes "connection", codes "x-mine")
    ∷ (codes "x-mine", codes "1")
    ∷ (codes "cookie", codes "a")
    ∷ []

build_forward_headers-relays_example :
    values_of (codes "x-mine") (build_forward_headers header_list source 0 (codes "id"))
    ≡ or_set (codes "x-mine") request_id_header (some (codes "id")) (
        or_set (codes "x-mine") hops_header (some (strokes 1)) (
          if is_stripped header_list source (codes "x-mine")
          then []
          else values_of (codes "x-mine") source))
build_forward_headers-relays_example =
    build_forward_headers-relays header_list source 0 (codes "id") (codes "x-mine")

only_the_cookie_is_relayed :
    build_forward_headers header_list source 0 (codes "id")
    ≡ (request_id_header, codes "id") ∷ (hops_header, strokes 1) ∷ (codes "cookie", codes "a") ∷ []
unfolding build_forward_headers remove_hop_by_hop_headers trim_start trim_end is_whitespace
only_the_cookie_is_relayed = refl

check_hops-counts_example :
    (1 ≤ 0 + 1)
    × (check_hops header_list 0 (build_forward_headers header_list source 0 (codes "id"))
        ≡ verdict 0 1)
unfolding check_hops
check_hops-counts_example =
    check_hops-counts header_list 0 1 (build_forward_headers header_list source 0 (codes "id"))
      (λ n h. strokes-IsReadBack n) (relays (starts source refl) refl (codes "id"))
