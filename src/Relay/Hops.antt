-- ===== src/Relay/Hops.antt =====
-- src/router.rs: a request that is relayed over and over is refused.
use llamesh.Prelude.{
  ℕ, ◌+◌, ◌≡◌, ◌≤◌, inl, inr, refl, sym, ap, ◌∙◌, Option, none, some, List, [], ◌∷◌, arith, ltb,
  Bool-cases, if◌then◌else◌,
}
use llamesh.Noise.Text.{Text, codes}
use llamesh.Relay.{
  HeaderMaps, HopCheck, within, too_many, hops_header, request_id_header, or_value,
  build_forward_headers, check_hops, hops_from,
}
use llamesh.Relay.Headers.{is_stripped, or_set, build_forward_headers-relays}

-- What the router relies on where it writes a number and reads it: it is a header, and its text reads
-- as it.
pub record IsReadBack (h : HeaderMaps) (n : ℕ) : Type 0 where
  pub fits : h.from_str (h.decimal n) ≡ some (h.decimal n)
  pub readable : h.to_str (h.decimal n) ≡ some (h.decimal n)
  pub parses : h.parse (h.decimal n) ≡ some n

-- What the check says of a request with so many hops.
abbrev pub verdict : ℕ → ℕ → HopCheck
verdict max_hops hops = if ltb max_hops hops then too_many else within hops

verdict-within :
    (max_hops n hops : ℕ) → verdict max_hops n ≡ within hops → (hops ≡ n) × (n ≤ max_hops)
verdict-within max_hops n hops e = elim (Bool-cases (ltb max_hops n)) [
  | inl t ↦ ground (arith, e, t)
  | inr t ↦ (ground (arith, e), ground (arith, t))
]

module _ (h : HeaderMaps) where
  -- A request that every node relays that admits it, each with a request id of its own.
  pub data IsRelayed (max_hops : ℕ) : ℕ → h.Map → Type 0 where
    starts : (m : h.Map) → h.get_all hops_header m ≡ [] → IsRelayed max_hops 0 m
    relays :
        {times hops : ℕ} {m : h.Map}
        → IsRelayed max_hops times m
        → check_hops h max_hops m ≡ within hops
        → (request_id : Text)
        → IsRelayed max_hops (times + 1) (build_forward_headers h m hops request_id)

  reads-decimal :
      (max_hops n : ℕ) (values : List Text)
      → IsReadBack h n
      → values ≡ h.decimal n ∷ []
      → hops_from h max_hops values ≡ verdict max_hops n
  reads-decimal max_hops n values b e = rw (e, b.readable, b.parses) refl

  writes-decimal :
      (m : h.Map) (n : ℕ) (request_id : Text)
      → IsReadBack h (n + 1)
      → h.get_all hops_header (build_forward_headers h m n request_id) ≡ h.decimal (n + 1) ∷ []
  writes-decimal m n request_id b =
      build_forward_headers-relays h m n request_id hops_header
      ∙ own (h.from_str request_id)
          (if is_stripped h m hops_header then [] else h.get_all hops_header m)
    where
      own :
          (id : Option Text) (rest : List Text)
          → or_set hops_header request_id_header id (
              or_set hops_header hops_header
                (some (or_value h (h.from_str (h.decimal (n + 1))) (codes "1")))
                rest)
            ≡ h.decimal (n + 1) ∷ []
      own none rest = ap (λ (o : Option Text). or_value h o (codes "1") ∷ []) b.fits
      own (some id) rest = ap (λ (o : Option Text). or_value h o (codes "1") ∷ []) b.fits

  -- A request that entered the cluster without a count, and was relayed by one node after another that
  -- admitted it, was relayed at most once more than the limit says; a node reads its count as the
  -- number of times that it was relayed, and refuses it when that is over the limit. The counts up
  -- to there are written and read back.
  pub check_hops-counts :
      (max_hops times : ℕ) (m : h.Map)
      → ((n : ℕ) → n ≤ max_hops + 1 → IsReadBack h n)
      → IsRelayed max_hops times m
      → (times ≤ max_hops + 1) × (check_hops h max_hops m ≡ verdict max_hops times)
  unfolding check_hops
  check_hops-counts max_hops times m b (starts m' none_set) =
      (omega arith, rw none_set (ground arith))
  check_hops-counts max_hops times m b (relays {times = before} {hops} {m = m'} r admitted id) =
      let (le, e) = check_hops-counts max_hops before m' b r in
      let (same, few) = verdict-within max_hops before hops (sym e ∙ admitted) in
      let back = b (before + 1) (omega (arith, few)) in
      (
        omega (arith, few),
        reads-decimal max_hops (before + 1) _ back (
            ap (λ k. h.get_all hops_header (build_forward_headers h m' k id)) same
            ∙ writes-decimal m' before id back),
      )
