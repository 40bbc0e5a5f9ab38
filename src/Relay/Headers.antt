-- ===== src/Relay/Headers.antt =====
-- src/router.rs, `build_forward_headers`: what each header of a relayed request is.
use llamesh.Prelude.{
  ℕ, ◌+◌, ◌≡◌, inl, inr, refl, ap, ◌∙◌, Bool, true, false, ◌||◌, Option, none, some, List, [], ◌∷◌,
  any, arith, Bool-cases, if◌then◌else◌,
}
use llamesh.Noise.Text.{Text, codes, same_text}
use llamesh.Relay.{
  HeaderMaps, hop_by_hop_headers, hops_header, request_id_header, nominated, remove_each,
  remove_hop_by_hop_headers, or_value, insert_valid, build_forward_headers,
}

-- A header that is not relayed: one of a single hop, one that the sender names in `Connection`, and
-- those that the transport sets.
abbrev pub is_stripped : (h : HeaderMaps) → h.Map → Text → Bool
is_stripped h m name =
    any (same_text name) hop_by_hop_headers
    || (any (same_text name) (nominated h (h.get_all (codes "connection") m))
        || (same_text name (codes "host") || same_text name (codes "content-length")))

-- What the router sets of a header, where it does.
abbrev pub or_set : Text → Text → Option Text → List Text → List Text
or_set name key none rest = rest
or_set name key (some value) rest = if same_text name key then value ∷ [] else rest

if-same : {A : Type 0} (b : Bool) (x : A) → (if b then x else x) ≡ x
if-same true x = refl
if-same false x = refl

module _ (h : HeaderMaps) where
  get_all-remove_each :
      (name : Text) (names : List Text) (m : h.Map)
      → h.get_all name (remove_each h names m)
        ≡ (if any (same_text name) names then [] else h.get_all name m)
  get_all-remove_each name [] m = refl
  get_all-remove_each name (key ∷ names) m =
      get_all-remove_each name names (h.remove key m) ∙ elim (Bool-cases (same_text name key)) [
        | inl t ↦ rw (h.get_all-remove name key m, t) (if-same (any (same_text name) names) [])
        | inr t ↦ rw (h.get_all-remove name key m, t) refl
      ]

  get_all-insert_valid :
      (name key : Text) (value : Option Text) (m : h.Map)
      → h.get_all name (insert_valid h key value m) ≡ or_set name key value (h.get_all name m)
  get_all-insert_valid name key none m = refl
  get_all-insert_valid name key (some value) m = h.get_all-insert name key value m

  stripped-get_all :
      (name : Text) (m : h.Map)
      → h.get_all name (
          h.remove
            (codes "content-length")
            (h.remove (codes "host") (remove_hop_by_hop_headers h m)))
        ≡ (if is_stripped h m name then [] else h.get_all name m)
  unfolding remove_hop_by_hop_headers
  stripped-get_all name m =
      let named = nominated h (h.get_all (codes "connection") m) in
      ground (
        arith,
        h.get_all-remove name (codes "content-length")
            (h.remove (codes "host") (remove_each h hop_by_hop_headers (remove_each h named m))),
        h.get_all-remove name (codes "host")
            (remove_each h hop_by_hop_headers (remove_each h named m)),
        get_all-remove_each name hop_by_hop_headers (remove_each h named m),
        get_all-remove_each name named m,
      )

  -- The request id is the router's, where it fits a header; so is the count of hops; a header of a
  -- single hop, one that the sender names in `Connection`, the host and the length are left out;
  -- and every other header is relayed with all its values, in their order.
  pub build_forward_headers-relays :
      (source : h.Map) (hops : ℕ) (request_id name : Text)
      → h.get_all name (build_forward_headers h source hops request_id)
        ≡ or_set name request_id_header (h.from_str request_id) (
            or_set name hops_header
              (some (or_value h (h.from_str (h.decimal (hops + 1))) (codes "1")))
              (if is_stripped h source name then [] else h.get_all name source))
  unfolding build_forward_headers
  build_forward_headers-relays source hops request_id name =
      let stripped =
        h.remove (codes "content-length")
          (h.remove (codes "host") (remove_hop_by_hop_headers h source)) in
      let count = or_value h (h.from_str (h.decimal (hops + 1))) (codes "1") in
      get_all-insert_valid name request_id_header (h.from_str request_id)
        (h.insert hops_header count stripped)
      ∙ ap (or_set name request_id_header (h.from_str request_id)) (
          h.get_all-insert name hops_header count stripped
          ∙ ap (λ (values : List Text). if same_text name hops_header then count ∷ [] else values)
              (stripped-get_all name source))
