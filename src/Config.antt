-- ===== src/Config.antt =====
-- src/config.rs: the checks that a node's configuration passes at start-up, and the merge of the
-- secrets file. The records have the fields that these two read or write; the deprecation warning
-- that `validate` logs is left out, the checks stand in its order.
pub mod Checks
pub mod Startup
pub mod Tests
use Prim.Native.Char.{Char, code}
use Prim.Native.String.{[] as empty, ◌∷◌ as push}
use llamesh.Prelude.{
  ℕ, String, Bool, true, false, not, ◌&&◌, ◌||◌, Option, none, some, List, [], ◌∷◌, length, any,
  leb, ltb, eqb, if◌then◌else◌,
}
use llamesh.Prelude.Eq.{string_key, ◌==◌}
use llamesh.CircuitBreaker.Circuit.{CircuitBreakerConfig}
use llamesh.PortPool.{PortRange, LlamaCppPorts, or_nil}

pub record ServerTlsConfig : Type 0 where
  pub enabled : Bool
  pub cert_path : String
  pub key_path : String

pub record ClusterTlsConfig : Type 0 where
  pub enabled : Bool
  pub ca_cert_path : String
  pub client_cert_path : String
  pub client_key_path : String

pub record AuthConfig : Type 0 where
  pub enabled : Bool
  pub required_header : String
  pub allowed_keys : List String

pub record HttpConfig : Type 0 where
  pub request_body_limit_bytes : ℕ
  pub idle_timeout_seconds : ℕ
  pub body_read_timeout_ms : ℕ
  pub protocol_detect_timeout_ms : ℕ

pub record WedgeDetectorConfig : Type 0 where
  pub enabled : Bool
  pub window_ms : ℕ
  pub sample_interval_ms : ℕ
  pub cpu_only : Bool

pub record ClusterConfig : Type 0 where
  pub enabled : Bool
  pub gossip_interval_seconds : ℕ
  pub max_concurrent_gossip : ℕ
  pub circuit_breaker : CircuitBreakerConfig
  pub version_mismatch_action : String

pub record NodeConfig : Type 0 where
  pub max_instances_per_node : ℕ
  pub llama_cpp_ports : Option LlamaCppPorts
  pub cluster : ClusterConfig
  pub http : HttpConfig
  pub auth : Option AuthConfig
  pub server_tls : Option ServerTlsConfig
  pub cluster_tls : Option ClusterTlsConfig
  pub wedge_detector : WedgeDetectorConfig

pub record SecretsConfig : Type 0 where
  pub auth : Option AuthConfig
  pub server_tls : Option ServerTlsConfig
  pub cluster_tls : Option ClusterTlsConfig

-- The errors, one for each message.
pub data ConfigError : Type 0 where
  server_tls_disabled server_tls_missing : ConfigError
  inverted_range : ℕ → ℕ → ConfigError
  no_usable_ports : ConfigError
  zero_gossip_interval zero_concurrent_gossip : ConfigError
  zero_failure_threshold zero_success_threshold zero_backoff_base zero_backoff_max : ConfigError
  backoff_base_above_max : ℕ → ℕ → ConfigError
  invalid_version_action : String → ConfigError
  zero_instance_cap : ConfigError
  zero_body_limit zero_idle_timeout zero_body_timeout zero_detect_timeout : ConfigError
  zero_wedge_window zero_sample_interval : ConfigError
  no_allowed_keys no_required_header : ConfigError

abbrev pub overlay {ℓ} : {A : Type ℓ} → Option A → Option A → Option A
overlay none old = old
overlay (some new) old = some new

-- `NodeConfig::merge_secrets`
unfoldable pub merge_secrets : NodeConfig → SecretsConfig → NodeConfig
merge_secrets config secrets = record config {
  auth = overlay secrets.auth config.auth;
  server_tls = overlay secrets.server_tls config.server_tls;
  cluster_tls = overlay secrets.cluster_tls config.cluster_tls;
}

-- A check that returns an error ends the validation; one that returns none goes on to the next.
infixr 20 ◌or_else◌
abbrev pub ◌or_else◌ : Option ConfigError → Option ConfigError → Option ConfigError
none or_else next = next
(some e) or_else next = some e

-- `if failed { return Err(e) }`
abbrev pub fail_if : Bool → ConfigError → Option ConfigError
fail_if false e = none
fail_if true e = some e

-- `str::trim` removes exactly the characters with the Unicode property White_Space.
abbrev pub is_whitespace : Char → Bool
is_whitespace c =
    (leb 9 (code c) && leb (code c) 13)
    || eqb (code c) 32
    || eqb (code c) 133
    || eqb (code c) 160
    || eqb (code c) 5760
    || (leb 8192 (code c) && leb (code c) 8202)
    || eqb (code c) 8232
    || eqb (code c) 8233
    || eqb (code c) 8239
    || eqb (code c) 8287
    || eqb (code c) 12288

-- `s.trim().is_empty()`
unfoldable pub is_blank : String → Bool
is_blank empty = true
is_blank (push c s) = is_whitespace c && is_blank s

abbrev pub check_server_tls : Option ServerTlsConfig → Option ConfigError
check_server_tls none = some server_tls_missing
check_server_tls (some tls) = fail_if (not tls.enabled) server_tls_disabled

abbrev pub check_cluster_tls : Option ClusterTlsConfig → Option ServerTlsConfig → Option ConfigError
check_cluster_tls none server = none
check_cluster_tls (some tls) server = if tls.enabled then check_server_tls server else none

unfoldable pub check_ranges : List PortRange → Option ConfigError
check_ranges [] = none
check_ranges (range ∷ rest) =
    fail_if (ltb range.end range.start) (inverted_range range.start range.end)
    or_else check_ranges rest

unfoldable pub check_ports : Option LlamaCppPorts → Option ConfigError
check_ports none = none
check_ports (some ports) =
    check_ranges (or_nil ports.ranges)
    or_else fail_if (eqb (length (or_nil ports.ports)) 0 && eqb (length (or_nil ports.ranges)) 0)
        no_usable_ports

unfoldable pub check_breaker : CircuitBreakerConfig → Option ConfigError
check_breaker cb =
    if cb.enabled
    then fail_if (eqb cb.failure_threshold 0) zero_failure_threshold
      or_else fail_if (eqb cb.success_threshold 0) zero_success_threshold
      or_else fail_if (eqb cb.open_duration_base_ms 0) zero_backoff_base
      or_else fail_if (eqb cb.open_duration_max_ms 0) zero_backoff_max
      or_else fail_if (ltb cb.open_duration_max_ms cb.open_duration_base_ms)
          (backoff_base_above_max cb.open_duration_base_ms cb.open_duration_max_ms)
    else none

-- The strings that the gossip handler knows.
abbrev pub is_version_action : String → Bool
is_version_action s = (s == "warn") || (s == "reject_major") || (s == "reject_any")

unfoldable pub check_cluster : ClusterConfig → Option ConfigError
check_cluster cluster =
    if cluster.enabled
    then fail_if (eqb cluster.gossip_interval_seconds 0) zero_gossip_interval
      or_else fail_if (eqb cluster.max_concurrent_gossip 0) zero_concurrent_gossip
      or_else check_breaker cluster.circuit_breaker
      or_else fail_if (not (is_version_action cluster.version_mismatch_action))
          (invalid_version_action cluster.version_mismatch_action)
    else none

unfoldable pub check_http : HttpConfig → Option ConfigError
check_http http =
    fail_if (eqb http.request_body_limit_bytes 0) zero_body_limit
    or_else fail_if (eqb http.idle_timeout_seconds 0) zero_idle_timeout
    or_else fail_if (eqb http.body_read_timeout_ms 0) zero_body_timeout
    or_else fail_if (eqb http.protocol_detect_timeout_ms 0) zero_detect_timeout

unfoldable pub check_wedge : WedgeDetectorConfig → Option ConfigError
check_wedge wedge =
    if wedge.enabled
    then fail_if (eqb wedge.window_ms 0) zero_wedge_window
      or_else fail_if (eqb wedge.sample_interval_ms 0) zero_sample_interval
    else none

unfoldable pub check_auth : Option AuthConfig → Option ConfigError
check_auth none = none
check_auth (some auth) =
    if auth.enabled
    then fail_if (eqb (length auth.allowed_keys) 0) no_allowed_keys
      or_else fail_if (is_blank auth.required_header) no_required_header
    else none

-- `NodeConfig::validate`: none where it returns `Ok(())`.
unfoldable pub validate : NodeConfig → Option ConfigError
validate config =
    check_cluster_tls config.cluster_tls config.server_tls
    or_else check_ports config.llama_cpp_ports
    or_else check_cluster config.cluster
    or_else fail_if (eqb config.max_instances_per_node 0) zero_instance_cap
    or_else check_http config.http
    or_else check_wedge config.wedge_detector
    or_else check_auth config.auth
