-- ===== src/Routing/Select.antt =====
-- src/node_state/mod.rs, `select_best_node`: the node that takes a request for a model that this node
-- knows.
use Prim.Native.String.{◌++◌}
use llamesh.Prelude.{
  ℕ, ◌+◌, ◌-◌, String, Bool, false, not, ◌&&◌, Option, none, some, List, [], ◌∷◌, keep, eqb,
  if◌then◌else◌,
}
use llamesh.Prelude.Eq.{string_key, ◌==◌}
use llamesh.Prelude.Dict.{Dict, lookup}
use llamesh.Prelude.Word.{saturating_add}
use llamesh.Gossip.Peer.{PeerState}
use llamesh.Routing.{Router, allows, excludes, is_recent, peer_supports_profile, sort_by, first}
use llamesh.Routing.Score.{Floats, calculate_node_score}

-- What `select_best_node` reads of the node: its own record, whether it can serve, the forwards that
-- are under way for each peer, and the learned memory of the model.
pub record Local : Type 0 where
  pub self_peer : PeerState
  pub can_serve : Bool
  pub peer_pending_forwards : Dict String ℕ
  pub memory_estimate : ℕ × ℕ

-- `can_serve_locally`
abbrev pub can_serve_locally : Bool → Bool → Bool
can_serve_locally draining has_binary = not draining && has_binary

-- The tests of the loop over the peers, in its order.
unfoldable pub is_target : Router → List String → String → String → PeerState → Bool
unfolding peer_supports_profile
is_target r excluded model profile peer =
    if not (is_recent r peer)
    then false
    else if eqb peer.max_instances 0
    then false
    else if not peer.ready
    then false
    else if not (allows r peer.node_id)
    then false
    else if excludes excluded peer.node_id
    then false
    else peer_supports_profile peer model profile

abbrev pub total : Dict String ℕ → ℕ
total [] = 0
total ((id, n) ∷ rest) = n + total rest

abbrev pub pending_of : Dict String ℕ → String → ℕ
pending_of forwards id = elim (lookup id forwards) [ none ↦ 0 | some n ↦ n ]

unfoldable pub effective_current : Router → Local → PeerState → ℕ
effective_current r l c =
    if c.node_id == r.node_id
    then c.current_requests - total l.peer_pending_forwards
    else saturating_add c.current_requests (pending_of l.peer_pending_forwards c.node_id)

unfoldable pub score : (f : Floats) → Router → Local → String → PeerState → f.Float
unfolding calculate_node_score effective_current
score f r l key c = calculate_node_score f c key l.memory_estimate (effective_current r l c)

-- The node itself is a candidate.
unfoldable pub serves : Local → String → String → Bool
unfolding peer_supports_profile
serves l model profile = l.can_serve && peer_supports_profile l.self_peer model profile

-- The scores are computed once for each candidate, and the candidates are sorted by them.
unfoldable pub select_best_node :
    Floats
    → Router
    → Local
    → List PeerState
    → String
    → String
    → Bool
    → List String
    → Option PeerState
unfolding serves is_target score sort_by
select_best_node f r l peers model profile prefer_local excluded =
    let lt : PeerState → PeerState → Bool = λ a b.
      f.lt (score f r l (model ++ ":" ++ profile) a) (score f r l (model ++ ":" ++ profile) b) in
    let targets = keep (is_target r excluded model profile) peers in
    if serves l model profile
    then (if prefer_local then some l.self_peer else first (sort_by lt (l.self_peer ∷ targets)))
    else first (sort_by lt targets)
