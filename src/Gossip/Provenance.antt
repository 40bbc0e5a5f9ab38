-- ===== src/Gossip/Provenance.antt =====
-- src/cluster.rs, `process_gossip_message`: where the address on record of a peer comes from.
use mathlib.Core.Path.{subst, sym, ◌∙◌}
use mathlib.Core.Option.{some-injective}
use llamesh.Prelude.{
  ℕ, ◌≡◌, ◌⊎◌, refl, inl, inr, String, true, false, ◌||◌, Option, none, some, List, [], ◌∷◌,
  Bool-cases, arith,
}
use llamesh.Prelude.Eq.{string_key}
use llamesh.Gossip.Address.{Urls, IpAddr, is_loopback_address}
use llamesh.Gossip.Peer.{PeerState, GossipMessage, Settings, ClusterState}
use llamesh.Gossip.{preserved, derived, seed_address, by_record, fall_back, resolve_address}
use llamesh.Prelude.Dict.{lookup}
use llamesh.Gossip.Order.{after, stored, is_rejected, dropped, process_cases}

seed-routable :
    (seeds : List String) (node_id address : String)
    → seed_address seeds node_id ≡ some address
    → is_loopback_address address ≡ false
unfolding seed_address
seed-routable [] node_id address h = cc
seed-routable (seed ∷ seeds) node_id address h = ground (arith, seed-routable seeds node_id address)

module _ (urls : Urls) (cfg : Settings) where
  preserved-routable :
      (existing : Option PeerState) (address : String)
      → preserved urls cfg existing ≡ some address
      → is_loopback_address address ≡ false
  unfolding preserved
  preserved-routable none address h = cc
  preserved-routable (some old) address h = ground arith

  -- Where an inferred address may come from: the source socket, or the record, which had it so.
  abbrev pub Inferred : Option PeerState → PeerState → Option IpAddr → PeerState → Type 0
  Inferred existing peer source new =
      (derived urls cfg existing peer.address source ≡ some new.address)
      ⊎ ((old : PeerState) × (existing ≡ some old)
          × (old.address_from_source ≡ true)
          × (new.address ≡ old.address))

  fall_back-Inferred :
      (existing : Option PeerState) (peer : PeerState) (source : Option IpAddr)
      (found : Option String)
      → derived urls cfg existing peer.address source ≡ found
      → peer.address_from_source ≡ false
      → (fall_back urls cfg existing peer found).address_from_source ≡ true
      → Inferred existing peer source (fall_back urls cfg existing peer found)
  fall_back-Inferred existing peer source (some a) e off on = inl e
  fall_back-Inferred none peer source none e off on = cc
  fall_back-Inferred (some old) peer source none e off on = inr (old, refl, on, refl)

  by_record-Inferred :
      (existing : Option PeerState) (peer : PeerState) (source : Option IpAddr)
      (recorded seed : Option String)
      → seed_address cfg.peers peer.node_id ≡ seed
      → peer.address_from_source ≡ false
      → (by_record urls cfg existing peer source recorded).address_from_source ≡ true
      → Inferred existing peer source (by_record urls cfg existing peer source recorded)
  by_record-Inferred existing peer source (some a) seed e off on = cc
  by_record-Inferred existing peer source none (some a) e off on = cc
  by_record-Inferred existing peer source none none e off on = rw e (
      fall_back-Inferred existing peer source (derived urls cfg existing peer.address source) refl
        off (rw e at on))

  resolve-Inferred :
      (existing : Option PeerState) (peer : PeerState) (source : Option IpAddr)
      → peer.address_from_source ≡ false
      → (resolve_address urls cfg existing peer source).address_from_source ≡ true
      → Inferred existing peer source (resolve_address urls cfg existing peer source)
  unfolding resolve_address
  resolve-Inferred existing peer source off on =
      elim (Bool-cases (is_loopback_address peer.address)) [
        | inl e ↦ rw e (
            by_record-Inferred existing peer source (preserved urls cfg existing) _ refl off
              (rw e at on))
        | inr e ↦ let still : peer.address_from_source ≡ true = rw e at on in cc
      ]

  by_record-routable :
      (old peer : PeerState) (recorded seed : Option String)
      → preserved urls cfg (some old) ≡ recorded
      → seed_address cfg.peers peer.node_id ≡ seed
      → is_loopback_address old.address ≡ false
      → is_loopback_address (by_record urls cfg (some old) peer none recorded).address ≡ false
  unfolding derived
  by_record-routable old peer (some a) seed p e routable = preserved-routable (some old) a p
  by_record-routable old peer none (some a) p e routable =
      rw e (seed-routable cfg.peers peer.node_id a e)
  by_record-routable old peer none none p e routable = rw e routable

  resolve-routable :
      (old peer : PeerState)
      → is_loopback_address old.address ≡ false
      → is_loopback_address (resolve_address urls cfg (some old) peer none).address ≡ false
  unfolding resolve_address
  resolve-routable old peer routable = elim (Bool-cases (is_loopback_address peer.address)) [
    | inl e ↦
        rw e (by_record-routable old peer (preserved urls cfg (some old)) _ refl refl routable)
    | inr e ↦ rw (e, resolve_address) e
  ]

module _ (urls : Urls) (cfg : Settings) (s : ClusterState) (msg : GossipMessage)
    (source : Option IpAddr) (now : ℕ) (clock : String → ℕ) where
  -- After a message that took effect, its sender's address counts as inferred only where the source
  -- socket gave it, or where the record before had that address as inferred; what the message says
  -- of it plays no part.
  pub process-Inferred :
      (new : PeerState)
      → (dropped urls cfg s msg source now clock || is_rejected cfg s msg) ≡ false
      → lookup msg.origin.node_id (after urls cfg s msg source now clock).peers ≡ some new
      → new.address_from_source ≡ true
      → Inferred urls cfg (lookup msg.origin.node_id s.peers) msg.origin source new
  process-Inferred new taken found on = elim (process_cases urls cfg s msg source now clock) [
    | inl (p, w, b) ↦ cc
    | inr (p, w, b) ↦
        let same : stored urls cfg s msg source now ≡ new = some-injective _ _ (sym p ∙ found) in
        let peer = record msg.origin { address_from_source = false; last_seen = now } in
        subst (Inferred urls cfg (lookup msg.origin.node_id s.peers) msg.origin source) same (
          resolve-Inferred urls cfg (lookup msg.origin.node_id s.peers) peer source refl
            (rw same on))
  ]

  -- A peer with a routable address on record keeps a routable one through any message that came
  -- without a source socket, also through one that names a loopback address.
  pub process-routable :
      (old : PeerState)
      → source ≡ none
      → lookup msg.origin.node_id s.peers ≡ some old
      → is_loopback_address old.address ≡ false
      → (new : PeerState) × (lookup msg.origin.node_id (after urls cfg s msg source now clock).peers
          ≡ some new)
        × (is_loopback_address new.address ≡ false)
  process-routable old unknown found routable =
      elim (process_cases urls cfg s msg source now clock) [
        | inl (p, w, b) ↦ (old, rw p found, routable)
        | inr (p, w, b) ↦
            let peer = record msg.origin { address_from_source = false; last_seen = now } in
            (
              stored urls cfg s msg source now,
              p,
              rw (found, unknown) (resolve-routable urls cfg old peer routable),
            )
      ]
