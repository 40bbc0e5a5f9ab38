-- ===== src/Gossip/Tests.antt =====
-- Witnesses of the theorems on gossip, and runs of the handler.
use llamesh.Prelude.{ℕ, ◌≡◌, ◌⊎◌, refl, String, true, none, some, [], ◌∷◌, arith}
use llamesh.Prelude.Eq.{string_key, ◌==◌}
use llamesh.Prelude.Dict.{lookup}
use llamesh.Gossip.Address.{
  Urls, IpAddr, v4, is_loopback_address, extract_host_from_url, before, through,
}
use llamesh.Gossip.Peer.{PeerState, GossipMessage, Settings, ClusterState}
use llamesh.Gossip.{placeholder, process_gossip_message}
use llamesh.Gossip.Order.{Follows, process-Advances}

-- URLs as their own texts, all of them HTTP on port 8080.
abbrev urls : Urls
urls = record {
  Url = String;
  parse = λ s. some s;
  same = λ a b. a == b;
  scheme = λ s. "http";
  port_or_known_default = λ s. some 8080;
  endpoint = λ ip port. "10.0.0.9:8080";
}

abbrev cfg : Settings
cfg = record {
  node_id = "a";
  gossip_interval_seconds = 5;
  peers = [];
  version_mismatch_action = "warn";
  local_version = "1.6.0";
}

abbrev peer : String → String → ℕ → PeerState
peer node_id address seq =
    record (placeholder (record { node_id = node_id; address = address }) 100) {
      version = "1.6.0";
      started_at_unix = 50;
      gossip_epoch = 9;
      gossip_seq = seq;
    }

abbrev known : PeerState
known = peer "b" "http://10.0.0.2:8080" 3

abbrev state : ClusterState
state = record { peers = ("b", known) ∷ []; logged_peer_versions = []; wakeups = 0 }

abbrev msg : GossipMessage
msg = record {
  origin = peer "b" "http://127.0.0.1:8080" 4;
  known_peers = record { node_id = "c"; address = "http://10.0.0.3:8080" } ∷ [];
}

-- Node "d" gossips a loopback address from 10.0.0.9.
abbrev newcomer : GossipMessage
newcomer = record { origin = peer "d" "http://127.0.0.1:8080" 1; known_peers = [] }

abbrev source : IpAddr
source = v4 167772169

abbrev clock : String → ℕ
clock id = 101

mapped_loopback : is_loopback_address "https://[::1]:8080" ≡ true
unfolding is_loopback_address through
mapped_loopback = refl

bracketed_host : extract_host_from_url "http://[fe80::2]:8080" ≡ "fe80::2"
unfolding extract_host_from_url before
bracketed_host = refl

process-Advances_example :
    (new : PeerState) × (lookup "b" (process_gossip_message urls cfg state msg none 101 clock).peers
      ≡ some new)
    × ((new ≡ known) ⊎ Follows new known)
unfolding lookup
process-Advances_example =
    process-Advances urls cfg state msg none 101 clock known refl refl (omega arith)

abbrev inferred : PeerState
inferred = record newcomer.origin {
  address = "http://10.0.0.9:8080";
  address_from_source = true;
  last_seen = 101;
}
