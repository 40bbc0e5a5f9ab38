-- ===== src/Routing/Best.antt =====
-- src/node_state/mod.rs: what `select_best_node` promises of the node that it chooses.
use Prim.Native.String.{◌++◌}
use mathlib.Core.Path.{subst}
use llamesh.Prelude.{
  ◌≡◌, refl, ◌⊎◌, inl, inr, String, Bool, true, false, not, ◌&&◌, Option, none, some, List, ◌∷◌,
  All, keep, arith, eqb, Bool-cases,
}
use llamesh.Gossip.Peer.{PeerState}
use llamesh.Routing.{Router, sort_by, first}
use llamesh.Routing.Filter.{
  IsOrder, Among, here, there, Picks, IsFirst, sort_by-IsFirst, Among-kept, All-kept, keep_same,
  keep-Picks, is_eligible,
}
use llamesh.Routing.Score.{Floats}
use llamesh.Routing.Select.{Local, is_target, score, serves, select_best_node}

module _ (f : Floats) (r : Router) (l : Local) (model profile : String)
    (excluded : List String) where
  -- The first node has the lower score.
  abbrev pub better : PeerState → PeerState → Bool
  better a b =
      f.lt (score f r l (model ++ ":" ++ profile) a) (score f r l (model ++ ":" ++ profile) b)

  -- A peer may take the request: one that is eligible, as for `find_peer_for_model`, and that may run
  -- instances.
  abbrev pub may_serve : PeerState → Bool
  may_serve peer = is_eligible r excluded model profile peer && not (eqb peer.max_instances 0)

  -- The node itself, where it serves the model, or a peer that may; no candidate
  -- is better. Nothing where there is no candidate.
  abbrev pub Chosen : List PeerState → Option PeerState → Type 0
  Chosen peers none = (serves l model profile ≡ false) × All (λ p. may_serve p ≡ false) peers
  Chosen peers (some c) =
      (((c ≡ l.self_peer) × (serves l model profile ≡ true))
        ⊎ (Among c peers × (may_serve c ≡ true)))
      × All (λ p. (may_serve p ≡ false) ⊎ (better p c ≡ false)) peers
      × ((serves l model profile ≡ false) ⊎ (better l.self_peer c ≡ false))

  -- What becomes of a request, by whether it prefers this node and the node serves the model.
  abbrev pub Selected : Bool → List PeerState → Option PeerState → Type 0
  Selected true peers o = o ≡ some l.self_peer
  Selected false peers o = Chosen peers o

  is_target-may_serve :
      (peer : PeerState) → may_serve peer ≡ is_target r excluded model profile peer
  unfolding is_target
  is_target-may_serve peer = ground arith

  with_self :
      (peers : List PeerState)
      → IsOrder PeerState better
      → serves l model profile ≡ true
      → (o : Option PeerState) → IsFirst better (l.self_peer ∷ keep may_serve peers) o
      → Chosen peers o
  with_self peers order s none e = ground arith
  with_self peers order s (some c) (m, (own, a)) = (
    elim m [
      | here e ↦ inl (e, s)
      | there n ↦ let (ok, k) = Among-kept may_serve c peers n in inr (k, ok)
    ],
    All-kept may_serve (λ p. better p c ≡ false) peers a,
    inr own,
  )

  without_self :
      (peers : List PeerState)
      → serves l model profile ≡ false
      → (o : Option PeerState) → Picks may_serve better peers o
      → Chosen peers o
  without_self peers s none a = (s, a)
  without_self peers s (some c) (ok, k, a) = (inr (k, ok), a, inl s)

  -- A request that prefers this node stays here where the node serves the model. Any other request
  -- goes to this node, if it serves the model, or to a peer that may take it, one heard of
  -- recently, ready, allowed by its circuit, not excluded and with the model, and no candidate has a
  -- lower score; it goes nowhere only where there is no candidate. Scores have to be ordered, as
  -- numbers are that are not NaN.
  pub select_best_node-Selected :
      (peers : List PeerState) (prefer_local : Bool)
      → IsOrder PeerState better
      → Selected
          (prefer_local && serves l model profile)
          peers
          (select_best_node f r l peers model profile prefer_local excluded)
  unfolding select_best_node
  select_best_node-Selected peers prefer_local order = elim (Bool-cases (serves l model profile)) [
    | inl s ↦ elim (Bool-cases prefer_local) [
      | inl p ↦ rw (s, p) refl
      | inr p ↦
          rw (s, p)
            (subst (λ t. Chosen peers (first (sort_by better (l.self_peer ∷ t)))) same
              (with_self peers order s _
                (sort_by-IsFirst better order (l.self_peer ∷ keep may_serve peers))))
    ]
    | inr s ↦ elim (Bool-cases prefer_local) [
      | inl p ↦ rw (s, p) (alone s)
      | inr p ↦ rw (s, p) (alone s)
    ]
  ]
    where
      same : keep may_serve peers ≡ keep (is_target r excluded model profile) peers
      same = keep_same may_serve (is_target r excluded model profile) peers is_target-may_serve

      alone :
          serves l model profile ≡ false
          → Chosen peers (first (sort_by better (keep (is_target r excluded model profile) peers)))
      alone s =
          subst (λ t. Chosen peers (first (sort_by better t))) same
            (without_self peers s _ (keep-Picks may_serve better order peers))
