-- ===== src/Gossip/Discovery.antt =====
-- src/cluster.rs, `process_gossip_message`: what hearsay does to the peers on record.
use llamesh.Prelude.{
  ℕ, ◌≡◌, inl, inr, String, ◌||◌, Option, none, some, List, [], ◌∷◌, Bool-cases, Option-cases,
  arith, if◌then◌else◌,
}
use llamesh.Prelude.Eq.{string_key, ◌==◌}
use llamesh.Prelude.Dict.{Dict, lookup, insert, contains_key, lookup-insert}
use llamesh.Gossip.Peer.{PeerState, PeerInfo}
use llamesh.Gossip.{placeholder, discover}

-- The first placeholder that the list has for an id.
abbrev pub first_heard : (String → ℕ) → String → List PeerInfo → Option PeerState
first_heard clock id [] = none
first_heard clock id (info ∷ rest) =
    if info.node_id == id
    then some (placeholder info (clock info.node_id))
    else first_heard clock id rest

-- Hearsay never changes a record that is there and never makes one for the node itself; any other
-- node gets the placeholder that is first on the list.
pub lookup-discover :
    (my_id : String) (clock : String → ℕ) (infos : List PeerInfo) (peers : Dict String PeerState)
    (id : String)
    → lookup id (discover my_id clock infos peers) ≡ (
        if contains_key id peers || (id == my_id)
        then lookup id peers
        else first_heard clock id infos)
unfolding discover
lookup-discover my_id clock [] peers id = elim (Option-cases (lookup id peers)) [
  | inl e ↦ ground arith
  | inr (p, e) ↦ ground arith
]
lookup-discover my_id clock (info ∷ rest) peers id =
    let made = placeholder info (clock info.node_id) in
    elim (Bool-cases ((info.node_id == my_id) || contains_key info.node_id peers)) [
      | inl skip ↦ rw skip (
          ground (
            arith,
            lookup-discover my_id clock rest peers id,
            string_key.same_iff info.node_id id,
            string_key.same_iff info.node_id my_id,
            string_key.same_iff id my_id,
          ))
      | inr fresh ↦ rw fresh (
          ground (
            arith,
            lookup-discover my_id clock rest (insert info.node_id made peers) id,
            lookup-insert info.node_id id made peers,
            string_key.same_iff info.node_id id,
            string_key.same_iff info.node_id my_id,
            string_key.same_iff id my_id,
          ))
    ]
