-- ===== src/Gossip/Peer.antt =====
-- src/node_state/peer_state.rs and src/cluster.rs: a peer on record, and a message.
use llamesh.Prelude.{ℕ, String, Bool, List}
use llamesh.Prelude.Eq.{string_key}
use llamesh.Prelude.Dict.{Dict}

pub record PeerModelStats : Type 0 where
  pub tps : ℕ  -- the bits of the `f64`, which the handler only carries along
  pub queue_len : ℕ
  pub vram_mb : ℕ
  pub sysmem_mb : ℕ
  pub instance_count : ℕ

pub record PeerState : Type 0 where
  pub node_id : String
  pub address : String
  pub address_from_source : Bool
  pub version : String
  pub llama_cpp_version : String
  pub last_seen : ℕ
  pub started_at_unix : ℕ
  pub gossip_epoch : ℕ
  pub gossip_seq : ℕ
  pub supported_models : List String
  pub model_stats : Dict String PeerModelStats
  pub active_instances : ℕ
  pub max_instances : ℕ
  pub current_requests : ℕ
  pub available_vram : ℕ
  pub available_sysmem : ℕ
  pub llamesh_vram_mb : ℕ
  pub llamesh_sysmem_mb : ℕ
  pub external_vram_mb : ℕ
  pub device_vram_used_mb : ℕ
  pub device_vram_total_mb : ℕ
  pub gpu_telemetry_available : Bool
  pub max_vram : ℕ
  pub max_sysmem : ℕ
  pub total_queue_length : ℕ
  pub ready : Bool
  pub loaded_models : List String

pub record PeerInfo : Type 0 where
  pub node_id : String
  pub address : String

pub record GossipMessage : Type 0 where
  pub origin : PeerState
  pub known_peers : List PeerInfo

-- What the handler reads of the configuration, and the version that the build sets.
pub record Settings : Type 0 where
  pub node_id : String
  pub gossip_interval_seconds : ℕ
  pub peers : List String
  pub version_mismatch_action : String
  pub local_version : String

-- `wakeups` counts the calls of `capacity_notify.notify_waiters`.
pub record ClusterState : Type 0 where
  pub peers : Dict String PeerState
  pub logged_peer_versions : Dict String String
  pub wakeups : ℕ
