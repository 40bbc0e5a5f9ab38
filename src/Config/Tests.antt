-- ===== src/Config/Tests.antt =====
-- Witnesses of the theorems on the configuration, and runs of the checks.
use llamesh.Prelude.{◌≡◌, ◌↔◌, refl, true, false, none, some, [], ◌∷◌}
use llamesh.CircuitBreaker.Circuit.{default_config}
use llamesh.PortPool.{LlamaCppPorts}
use llamesh.Config.{
  NodeConfig, validate, check_cluster, check_ports, check_breaker, check_ranges, check_http,
  check_wedge, check_auth, is_blank, inverted_range, no_required_header,
}
use llamesh.Config.Checks.{validate_iff, IsUsable}

abbrev ports : LlamaCppPorts
ports = record { ports = none; ranges = some (record { start = 9000; end = 9010 } ∷ []) }

abbrev config : NodeConfig
config = record {
  max_instances_per_node = 100;
  llama_cpp_ports = some ports;
  cluster = record {
    enabled = true;
    gossip_interval_seconds = 5;
    max_concurrent_gossip = 16;
    circuit_breaker = default_config;
    version_mismatch_action = "warn";
  };
  http = record {
    request_body_limit_bytes = 1048576;
    idle_timeout_seconds = 60;
    body_read_timeout_ms = 30000;
    protocol_detect_timeout_ms = 10000;
  };
  auth = some (record { enabled = true; required_header = "x-api-key"; allowed_keys = "k" ∷ [] });
  server_tls = none;
  cluster_tls = none;
  wedge_detector = record {
    enabled = true;
    window_ms = 600000;
    sample_interval_ms = 5000;
    cpu_only = false;
  };
}

config_passes : validate config ≡ none
unfolding validate check_cluster check_ports check_ranges check_breaker check_http check_wedge
    check_auth is_blank
config_passes = refl

inverted_range_fails :
    validate (record config {
      llama_cpp_ports = some (record ports { ranges = some (record { start = 9; end = 8 } ∷ []) });
    })
    ≡ some (inverted_range 9 8)
unfolding validate check_ports check_ranges
inverted_range_fails = refl

blank_header_fails :
    validate (record config {
      auth = some (record { enabled = true; required_header = " \t"; allowed_keys = "k" ∷ [] });
    })
    ≡ some no_required_header
unfolding validate check_cluster check_ports check_ranges check_breaker check_http check_wedge
    check_auth is_blank
blank_header_fails = refl

validate_iff_example : (validate config ≡ none) ↔ IsUsable config
validate_iff_example = validate_iff config
