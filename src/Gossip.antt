-- ===== src/Gossip.antt =====
-- src/cluster.rs, `process_gossip_message`: what a node takes over from another node's message. The
-- handler holds the write lock on the peers and is one step. `PeerState` is that of
-- src/node_state/peer_state.rs.
pub mod Peer
pub mod Address
pub mod Order
pub mod Provenance
pub mod Discovery
pub mod Tests
use Peer.{ClusterState, GossipMessage, PeerInfo, PeerState, Settings}
use Prim.Native.Char.{code}
use Prim.Native.String.{[] as empty}
use llamesh.Prelude.{
  ℕ, ◌+◌, ◌-◌, max, String, Bool, true, false, not, ◌&&◌, ◌||◌, Option, none, some, List, [], ◌∷◌,
  any, leb, ltb, eqb, if◌then◌else◌,
}
use llamesh.Prelude.Eq.{string_key, ◌==◌}
use llamesh.Prelude.Dict.{Dict, lookup, insert, remove, contains_key}
use llamesh.Prelude.Word.{saturating_mul}
use Address.{
  Urls, IpAddr, to_canonical, is_loopback, before, is_loopback_address, extract_host_from_url,
  same_peer_url, source_peer_url,
}

abbrev pub ordered : PeerState → Bool
ordered peer = not (eqb peer.gossip_epoch 0) && not (eqb peer.gossip_seq 0)

unfoldable pub is_newer : PeerState → PeerState → Bool
is_newer existing peer =
    not (ordered existing)
    || (ordered peer
        && (if eqb peer.gossip_epoch existing.gossip_epoch
            then ltb existing.gossip_seq peer.gossip_seq
            else leb existing.started_at_unix peer.started_at_unix))

abbrev pub timeout : Settings → ℕ
timeout cfg = max (saturating_mul cfg.gossip_interval_seconds 3) 15

-- The message is dropped as stale or as a duplicate.
unfoldable pub is_stale : Settings → Option PeerState → PeerState → ℕ → Bool
unfolding is_newer
is_stale cfg none peer now = false
is_stale cfg (some existing) peer now =
    leb (now - existing.last_seen) (timeout cfg) && not (is_newer existing peer)

-- `version.split('.').next()`
abbrev pub major : String → String
major version = before 46 version

unfoldable pub should_reject : Settings → PeerState → Bool
unfolding before
should_reject cfg peer =
    if cfg.version_mismatch_action == "reject_any"
    then true
    else if cfg.version_mismatch_action == "reject_major"
    then not (major cfg.local_version == major peer.version)
    else false

abbrev same_version : Option String → String → Bool
same_version none version = false
same_version (some logged) version = logged == version

unfoldable pub note_version_mismatch_for_logging :
    Dict String String → String → String → Dict String String × Bool
note_version_mismatch_for_logging logged node_id peer_version =
    if same_version (lookup node_id logged) peer_version
    then (logged, false)
    else (insert node_id peer_version logged, true)

-- The versions on record after the check of a peer's version, and whether its message is rejected.
unfoldable pub check_version : Settings → Dict String String → PeerState → Dict String String × Bool
unfolding note_version_mismatch_for_logging should_reject
check_version cfg logged peer =
    if not (peer.version == cfg.local_version)
    then (
      (note_version_mismatch_for_logging logged peer.node_id peer.version).0,
      should_reject cfg peer,
    )
    else (remove peer.node_id logged, false)

-- The first seed whose host is the node's id, unless it is a loopback address.
unfoldable pub seed_address : List String → String → Option String
seed_address [] node_id = none
seed_address (seed ∷ seeds) node_id =
    let rest = seed_address seeds node_id in
    if (extract_host_from_url seed == node_id) && not (is_loopback_address seed)
    then some seed
    else rest

module _ (urls : Urls) (cfg : Settings) where
  -- The address on record, where loopback gossip leaves it alone.
  unfoldable pub preserved : Option PeerState → Option String
  preserved none = none
  preserved (some existing) =
      if not (is_loopback_address existing.address)
        && (not existing.address_from_source
            || any (λ seed. same_peer_url urls seed existing.address) cfg.peers)
      then some existing.address
      else none

  abbrev pub may_follow : Option PeerState → Bool
  may_follow none = true
  may_follow (some existing) = is_loopback_address existing.address

  -- The address inferred from the source socket.
  unfoldable pub derived : Option PeerState → String → Option IpAddr → Option String
  derived existing advertised none = none
  derived existing advertised (some source) =
      if not (is_loopback (to_canonical source)) || may_follow existing
      then source_peer_url urls advertised source
      else none

  abbrev pub fall_back : Option PeerState → PeerState → Option String → PeerState
  fall_back existing peer (some address) = record peer {
    address = address;
    address_from_source = true;
  }
  fall_back none peer none = peer
  fall_back (some existing) peer none = record peer {
    address = existing.address;
    address_from_source = existing.address_from_source;
  }

  abbrev pub by_seed : Option PeerState → PeerState → Option IpAddr → Option String → PeerState
  by_seed existing peer source (some seed) = record peer { address = seed }
  by_seed existing peer source none = fall_back existing peer (derived existing peer.address source)

  abbrev pub by_record : Option PeerState → PeerState → Option IpAddr → Option String → PeerState
  by_record existing peer source (some address) = record peer { address = address }
  by_record existing peer source none =
      by_seed existing peer source (seed_address cfg.peers peer.node_id)

  unfoldable pub resolve_address : Option PeerState → PeerState → Option IpAddr → PeerState
  unfolding preserved derived seed_address
  resolve_address existing peer source =
      if is_loopback_address peer.address
      then by_record existing peer source (preserved existing)
      else peer

-- What is put on record of a peer that was only heard of.
abbrev pub placeholder : PeerInfo → ℕ → PeerState
placeholder info now = record {
  node_id = info.node_id;
  address = info.address;
  address_from_source = false;
  version = "unknown";
  llama_cpp_version = "unknown";
  last_seen = now;
  started_at_unix = 0;
  gossip_epoch = 0;
  gossip_seq = 0;
  supported_models = [];
  model_stats = [];
  active_instances = 0;
  max_instances = 0;
  current_requests = 0;
  available_vram = 0;
  available_sysmem = 0;
  llamesh_vram_mb = 0;
  llamesh_sysmem_mb = 0;
  external_vram_mb = 0;
  device_vram_used_mb = 0;
  device_vram_total_mb = 0;
  gpu_telemetry_available = false;
  max_vram = 0;
  max_sysmem = 0;
  total_queue_length = 0;
  ready = false;
  loaded_models = [];
}

-- The loop over `known_peers`. `clock` is the time at which a node's placeholder is made.
unfoldable pub discover :
    String → (String → ℕ) → List PeerInfo → Dict String PeerState → Dict String PeerState
discover my_id clock [] peers = peers
discover my_id clock (info ∷ rest) peers = discover my_id clock rest (
    if (info.node_id == my_id) || contains_key info.node_id peers
    then peers
    else insert info.node_id (placeholder info (clock info.node_id)) peers)

-- `process_gossip_message`
unfoldable pub process_gossip_message :
    Urls → Settings → ClusterState → GossipMessage → Option IpAddr → ℕ → (String → ℕ) → ClusterState
unfolding is_stale check_version resolve_address discover
process_gossip_message urls cfg s msg source now clock =
    let existing = lookup msg.origin.node_id s.peers in
    let peer = record msg.origin { address_from_source = false } in
    let (logged, rejected) = check_version cfg s.logged_peer_versions peer in
    if is_stale cfg existing msg.origin now
    then s
    else if rejected
    then record s { logged_peer_versions = logged }
    else let known = resolve_address urls cfg existing (record peer { last_seen = now }) source in
      record {
        peers = discover cfg.node_id clock msg.known_peers (insert known.node_id known s.peers);
        logged_peer_versions = logged;
        wakeups = s.wakeups + 1;
      }
