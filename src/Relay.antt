-- ===== src/Relay.antt =====
-- src/router.rs: the headers of a request that is relayed, and its count of hops. The map of headers is
-- the http crate's and is the parameter `HeaderMaps`, with what its documentation says of its
-- operations. A text is the list of its code points, and the name of a header is in lower case.
pub mod Headers
pub mod Hops
pub mod Tests
use llamesh.Prelude.{
  ℕ, ◌+◌, ◌≡◌, Bool, true, false, Option, none, some, List, [], ◌∷◌, ◌++◌, any, ltb, if◌then◌else◌,
}
use llamesh.Noise.Text.{Text, codes, same_text, trim, push_first}

-- `from_bytes` reads the name of a header, `to_str` and `from_str` its value; `decimal` writes a
-- number and `parse` reads one.
pub record HeaderMaps : Type 1 where
  pub Map : Type 0
  pub get_all : Text → Map → List Text
  pub remove : Text → Map → Map
  pub insert : Text → Text → Map → Map
  pub from_bytes : Text → Option Text
  pub to_str : Text → Option Text
  pub from_str : Text → Option Text
  pub decimal : ℕ → Text
  pub parse : Text → Option ℕ
  pub get_all-remove :
      (name key : Text) (m : Map)
      → get_all name (remove key m) ≡ (if same_text name key then [] else get_all name m)
  pub get_all-insert :
      (name key value : Text) (m : Map)
      → get_all name (insert key value m)
        ≡ (if same_text name key then value ∷ [] else get_all name m)

-- `split(',')`
abbrev pub split_commas : Text → List Text
split_commas [] = [] ∷ []
split_commas (c ∷ s) =
    let rest = split_commas s in
    if same_text (c ∷ []) (codes ",") then [] ∷ rest else push_first c rest

abbrev pub hop_by_hop_headers : List Text
hop_by_hop_headers =
    codes "connection"
    ∷ codes "keep-alive"
    ∷ codes "proxy-authenticate"
    ∷ codes "proxy-authorization"
    ∷ codes "proxy-connection"
    ∷ codes "te"
    ∷ codes "trailer"
    ∷ codes "transfer-encoding"
    ∷ codes "upgrade"
    ∷ []

abbrev pub hops_header : Text
hops_header = codes "x-llama-mesh-hops"

abbrev pub request_id_header : Text
request_id_header = codes "x-request-id"

-- What the check of the hops of a request says.
pub data HopCheck : Type 0 where
  within : ℕ → HopCheck
  invalid_encoding invalid_value too_many : HopCheck

module _ (h : HeaderMaps) where
  -- The names in the parts of a `Connection` header, and in all of them.
  abbrev pub names_in : List Text → List Text
  names_in [] = []
  names_in (token ∷ tokens) = elim (h.from_bytes (trim token)) [
    | some name ↦ name ∷ names_in tokens
    | none ↦ names_in tokens
  ]

  abbrev pub nominated : List Text → List Text
  nominated [] = []
  nominated (value ∷ values) = elim (h.to_str value) [
    | some text ↦ names_in (split_commas text) ++ nominated values
    | none ↦ nominated values
  ]

  abbrev pub remove_each : List Text → h.Map → h.Map
  remove_each [] m = m
  remove_each (name ∷ names) m = remove_each names (h.remove name m)

  unfoldable pub remove_hop_by_hop_headers : h.Map → h.Map
  remove_hop_by_hop_headers m =
      remove_each hop_by_hop_headers (remove_each (nominated (h.get_all (codes "connection") m)) m)

  abbrev pub or_value : Option Text → Text → Text
  or_value none default = default
  or_value (some value) default = value

  abbrev pub insert_valid : Text → Option Text → h.Map → h.Map
  insert_valid key none m = m
  insert_valid key (some value) m = h.insert key value m

  unfoldable pub build_forward_headers : h.Map → ℕ → Text → h.Map
  unfolding remove_hop_by_hop_headers
  build_forward_headers source current_hops request_id =
      insert_valid request_id_header (h.from_str request_id) (
        h.insert hops_header (or_value (h.from_str (h.decimal (current_hops + 1))) (codes "1")) (
          h.remove (codes "content-length")
            (h.remove (codes "host") (remove_hop_by_hop_headers source))))

  -- The headers of a request to an instance of this node.
  unfoldable pub build_local_upstream_headers : h.Map → Bool → h.Map
  unfolding remove_hop_by_hop_headers
  build_local_upstream_headers source response_streaming =
      let stripped =
        h.remove (codes "content-length")
          (h.remove (codes "host") (remove_hop_by_hop_headers source)) in
      if response_streaming
      then h.insert (codes "connection") (codes "close") stripped
      else stripped

  abbrev pub checked_hops : ℕ → Option ℕ → HopCheck
  checked_hops max_hops none = invalid_value
  checked_hops max_hops (some hops) = if ltb max_hops hops then too_many else within hops

  abbrev pub read_hops : ℕ → Option Text → HopCheck
  read_hops max_hops none = invalid_encoding
  read_hops max_hops (some text) = checked_hops max_hops (h.parse text)

  -- The count of hops of a request, in `route_request`.
  abbrev pub hops_from : ℕ → List Text → HopCheck
  hops_from max_hops [] = within 0
  hops_from max_hops (value ∷ values) = read_hops max_hops (h.to_str value)

  unfoldable pub check_hops : ℕ → h.Map → HopCheck
  check_hops max_hops m = hops_from max_hops (h.get_all hops_header m)
