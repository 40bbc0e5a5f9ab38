-- ===== src/Gossip/Order.antt =====
-- src/cluster.rs, `process_gossip_message`: the order of a peer's messages.
use llamesh.Prelude.{
  ℕ, ◌+◌, ◌-◌, ◌≤◌, ◌<◌, ◌≡◌, ◌≢◌, ◌↔◌, ◌⊎◌, refl, inl, inr, String, Bool, true, false, ◌||◌,
  Option, none, some, Bool-cases, arith,
}
use llamesh.Prelude.Eq.{string_key}
use llamesh.Prelude.Dict.{lookup, insert, lookup-insert}
use llamesh.Gossip.Address.{Urls, IpAddr, is_loopback_address}
use llamesh.Gossip.Peer.{PeerState, GossipMessage, Settings, ClusterState}
use llamesh.Gossip.{
  ordered, is_newer, timeout, is_stale, check_version, preserved, derived, seed_address, by_record,
  fall_back, resolve_address, process_gossip_message,
}
use llamesh.Gossip.Discovery.{lookup-discover}

-- The address aside, a resolved peer is the one that gossiped.
abbrev pub SameBut : PeerState → PeerState → Type 0
SameBut new old =
    (new.node_id ≡ old.node_id)
    × (new.gossip_epoch ≡ old.gossip_epoch)
    × (new.gossip_seq ≡ old.gossip_seq)
    × (new.started_at_unix ≡ old.started_at_unix)
    × (new.last_seen ≡ old.last_seen)

module _ (urls : Urls) (cfg : Settings) where
  fall_back-SameBut :
      (existing : Option PeerState) (peer : PeerState) (found : Option String)
      → SameBut (fall_back urls cfg existing peer found) peer
  fall_back-SameBut existing peer (some a) = (refl, refl, refl, refl, refl)
  fall_back-SameBut none peer none = (refl, refl, refl, refl, refl)
  fall_back-SameBut (some old) peer none = (refl, refl, refl, refl, refl)

  by_record-SameBut :
      (existing : Option PeerState) (peer : PeerState) (source : Option IpAddr)
      (recorded seed : Option String)
      → (seed_address cfg.peers peer.node_id ≡ seed)
      → SameBut (by_record urls cfg existing peer source recorded) peer
  by_record-SameBut existing peer source (some a) seed e = (refl, refl, refl, refl, refl)
  by_record-SameBut existing peer source none (some a) e = rw e (refl, refl, refl, refl, refl)
  by_record-SameBut existing peer source none none e =
      rw e (fall_back-SameBut existing peer (derived urls cfg existing peer.address source))

  pub resolve-SameBut :
      (existing : Option PeerState) (peer : PeerState) (source : Option IpAddr)
      → SameBut (resolve_address urls cfg existing peer source) peer
  unfolding resolve_address
  resolve-SameBut existing peer source = elim (Bool-cases (is_loopback_address peer.address)) [
    | inl e ↦ rw e (by_record-SameBut existing peer source (preserved urls cfg existing) _ refl)
    | inr e ↦ rw e (refl, refl, refl, refl, refl)
  ]

-- The second record may follow the first.
abbrev pub Follows : PeerState → PeerState → Type 0
Follows new old =
    (ordered new ≡ true)
    × (new.gossip_epoch ≡ old.gossip_epoch → old.gossip_seq < new.gossip_seq)
    × (new.gossip_epoch ≢ old.gossip_epoch → old.started_at_unix ≤ new.started_at_unix)

later-SameBut :
    (cfg : Settings) (old peer new : PeerState) (now : ℕ)
    → is_stale cfg (some old) peer now ≡ false
    → ordered old ≡ true
    → now - old.last_seen ≤ timeout cfg
    → SameBut new (record peer { address_from_source = false; last_seen = now })
    → Follows new old
unfolding is_stale is_newer
later-SameBut cfg old peer new now fresh has_order heard same =
    let follows : Follows peer old = ground arith in rw (same.1, same.2, same.3) follows

or_false : (a b : Bool) → (a || b) ≡ false → a ≡ false
or_false false b h = refl
or_false true b h = h

-- The message as the handler stores it.
abbrev pub stored : Urls → Settings → ClusterState → GossipMessage → Option IpAddr → ℕ → PeerState
stored urls cfg s msg source now =
    resolve_address urls cfg (lookup msg.origin.node_id s.peers)
      (record msg.origin { address_from_source = false; last_seen = now }) source

abbrev pub is_rejected : Settings → ClusterState → GossipMessage → Bool
is_rejected cfg s msg =
    (check_version cfg s.logged_peer_versions (record msg.origin { address_from_source = false })).1

module _ (urls : Urls) (cfg : Settings) (s : ClusterState) (msg : GossipMessage)
    (source : Option IpAddr) (now : ℕ) (clock : String → ℕ) where
  abbrev pub after : ClusterState
  after = process_gossip_message urls cfg s msg source now clock

  abbrev pub dropped : Bool
  dropped = is_stale cfg (lookup msg.origin.node_id s.peers) msg.origin now

  stored-SameBut :
      SameBut
        (stored urls cfg s msg source now)
        (record msg.origin { address_from_source = false; last_seen = now })
  stored-SameBut =
      resolve-SameBut urls cfg (lookup msg.origin.node_id s.peers)
        (record msg.origin { address_from_source = false; last_seen = now }) source

  -- A message is dropped, with nothing changed but the versions on record, or its sender is on
  -- record as the message says it.
  pub process_cases :
      ((after.peers ≡ s.peers)
        × (after.wakeups ≡ s.wakeups)
        × ((dropped || is_rejected cfg s msg) ≡ true))
      ⊎ ((lookup msg.origin.node_id after.peers ≡ some (stored urls cfg s msg source now))
          × (after.wakeups ≡ s.wakeups + 1)
          × ((dropped || is_rejected cfg s msg) ≡ false))
  unfolding process_gossip_message
  process_cases = elim (Bool-cases dropped) [
    | inl stale ↦ inl (rw stale (refl, refl, refl))
    | inr fresh ↦ elim (Bool-cases (is_rejected cfg s msg)) [
      | inl rejected ↦ inl (rw (fresh, rejected) (refl, refl, refl))
      | inr taken ↦
          let known = stored urls cfg s msg source now in
          let same = stored-SameBut in
          inr (
            rw (fresh, taken)
              (
                ground (
                  arith,
                  same.0,
                  lookup-discover cfg.node_id clock msg.known_peers
                      (insert known.node_id known s.peers) msg.origin.node_id,
                  lookup-insert known.node_id msg.origin.node_id known s.peers,
                  string_key.same_iff known.node_id msg.origin.node_id,
                ),
                refl,
                refl,
              ))
    ]
  ]

  -- A message wakes the waiting requests exactly where it is neither stale nor rejected for its
  -- version; where it is, the peers stay as they are, and otherwise its sender is on record as of
  -- now, with the message's epoch and sequence number.
  pub takes_effect :
      ((after.wakeups ≡ s.wakeups + 1) ↔ ((dropped || is_rejected cfg s msg) ≡ false))
      × ((dropped || is_rejected cfg s msg) ≡ true → after.peers ≡ s.peers)
      × ((dropped || is_rejected cfg s msg) ≡ false
          → (new : PeerState) × (lookup msg.origin.node_id after.peers ≡ some new)
            × (new.last_seen ≡ now)
            × (new.gossip_epoch ≡ msg.origin.gossip_epoch)
            × (new.gossip_seq ≡ msg.origin.gossip_seq))
  takes_effect = elim process_cases [
    | inl (p, w, b) ↦ ((λ e. absurd (omega (arith, w, e)), λ e. cc), λ e. p, λ e. cc)
    | inr (p, w, b) ↦
        let same = stored-SameBut in
        (
          (λ e. b, λ e. w),
          λ e. cc,
          λ e. (stored urls cfg s msg source now, p, same.4, same.1, same.2),
        )
  ]

  -- The record of a peer that sends ordering metadata and was heard of within the timeout is only
  -- ever replaced by a later one: of the same process, one with a larger sequence number; of
  -- another, one whose process did not start before.
  pub process-Advances :
      (old : PeerState)
      → lookup msg.origin.node_id s.peers ≡ some old
      → ordered old ≡ true
      → now - old.last_seen ≤ timeout cfg
      → (new : PeerState) × (lookup msg.origin.node_id after.peers ≡ some new)
        × ((new ≡ old) ⊎ Follows new old)
  process-Advances old found has_order heard = elim process_cases [
    | inl (p, w, b) ↦ (old, rw p found, inl refl)
    | inr (p, w, b) ↦
        let same = stored-SameBut in
        (
          stored urls cfg s msg source now,
          p,
          inr (
              later-SameBut cfg old msg.origin (stored urls cfg s msg source now) now
                (rw found at (or_false dropped (is_rejected cfg s msg) b)) has_order heard same),
        )
  ]
