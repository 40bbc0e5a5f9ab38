-- ===== src/Config/Checks.antt =====
-- Which configurations pass the start-up checks.
use llamesh.Prelude.{
  ℕ, ◌≤◌, ◌<◌, ◌≡◌, ◌↔◌, ◌⊎◌, refl, arith, true, false, Option, none, some, List, [], ◌∷◌, All,
  length, eqb,
}
use llamesh.CircuitBreaker.Circuit.{CircuitBreakerConfig}
use llamesh.PortPool.{PortRange, LlamaCppPorts, or_nil}
use llamesh.Config.{
  NodeConfig, ServerTlsConfig, ClusterTlsConfig, AuthConfig, HttpConfig, WedgeDetectorConfig,
  ClusterConfig, ConfigError, is_blank, is_version_action, check_cluster_tls, check_ranges,
  check_ports, check_breaker, check_cluster, check_http, check_wedge, check_auth, validate, fail_if,
  ◌or_else◌,
}

-- Cluster TLS wants server TLS beside it.
abbrev pub ServesTls : Option ServerTlsConfig → Type 0
ServesTls none = ⊥
ServesTls (some server) = server.enabled ≡ true

abbrev pub TlsIsPaired : Option ClusterTlsConfig → Option ServerTlsConfig → Type 0
TlsIsPaired none server = Unit
TlsIsPaired (some tls) server = tls.enabled ≡ true → ServesTls server

abbrev pub RangesAreOrdered : List PortRange → Type 0
RangesAreOrdered = All (λ r. r.start ≤ r.end)

abbrev pub PortsAreUsable : Option LlamaCppPorts → Type 0
PortsAreUsable none = Unit
PortsAreUsable (some ports) =
    RangesAreOrdered (or_nil ports.ranges)
    × ((0 < length (or_nil ports.ports)) ⊎ (0 < length (or_nil ports.ranges)))

abbrev pub BreakerIsTuned : CircuitBreakerConfig → Type 0
BreakerIsTuned cb =
    (0 < cb.failure_threshold)
    × (0 < cb.success_threshold)
    × (0 < cb.open_duration_base_ms)
    × (cb.open_duration_base_ms ≤ cb.open_duration_max_ms)

abbrev pub ClusterIsTuned : ClusterConfig → Type 0
ClusterIsTuned c =
    (0 < c.gossip_interval_seconds)
    × (0 < c.max_concurrent_gossip)
    × (c.circuit_breaker.enabled ≡ true → BreakerIsTuned c.circuit_breaker)
    × (is_version_action c.version_mismatch_action ≡ true)

abbrev pub HttpIsTuned : HttpConfig → Type 0
HttpIsTuned h =
    (0 < h.request_body_limit_bytes)
    × (0 < h.idle_timeout_seconds)
    × (0 < h.body_read_timeout_ms)
    × (0 < h.protocol_detect_timeout_ms)

abbrev pub AuthAdmits : Option AuthConfig → Type 0
AuthAdmits none = Unit
AuthAdmits (some auth) =
    auth.enabled ≡ true → (0 < length auth.allowed_keys) × (is_blank auth.required_header ≡ false)

-- What a node's configuration has to be, one condition per section.
abbrev pub IsUsable : NodeConfig → Type 0
IsUsable config =
    TlsIsPaired config.cluster_tls config.server_tls
    × PortsAreUsable config.llama_cpp_ports
    × (config.cluster.enabled ≡ true → ClusterIsTuned config.cluster)
    × (0 < config.max_instances_per_node)
    × HttpIsTuned config.http
    × (config.wedge_detector.enabled ≡ true
        → (0 < config.wedge_detector.window_ms) × (0 < config.wedge_detector.sample_interval_ms))
    × AuthAdmits config.auth

or_else_iff :
    {P Q : Type 0} (a b : Option ConfigError)
    → (a ≡ none) ↔ P
    → (b ≡ none) ↔ Q
    → ((a or_else b) ≡ none) ↔ (P × Q)
or_else_iff none b p q = (λ e. (p.0 refl, q.0 e), λ h. q.1 h.1)
or_else_iff (some e) b p q = (λ n. ground arith, λ h. p.1 h.0)

tls_iff :
    (tls : Option ClusterTlsConfig) (server : Option ServerTlsConfig)
    → (check_cluster_tls tls server ≡ none) ↔ TlsIsPaired tls server
tls_iff none server = ground arith
tls_iff (some tls) none = ground arith
tls_iff (some tls) (some server) = ground arith

ranges_iff : (rs : List PortRange) → (check_ranges rs ≡ none) ↔ RangesAreOrdered rs
unfolding check_ranges
ranges_iff [] = (λ h. tt, λ h. refl)
ranges_iff (r ∷ rs) = or_else_iff (fail_if _ _) (check_ranges rs) (ground arith) (ranges_iff rs)

ports_iff : (ports : Option LlamaCppPorts) → (check_ports ports ≡ none) ↔ PortsAreUsable ports
unfolding check_ports
ports_iff none = ground arith
ports_iff (some ports) =
    or_else_iff (check_ranges (or_nil ports.ranges)) (fail_if _ _)
      (ranges_iff (or_nil ports.ranges)) (ground arith)

breaker_iff :
    (cb : CircuitBreakerConfig)
    → (check_breaker cb ≡ none) ↔ (cb.enabled ≡ true → BreakerIsTuned cb)
unfolding check_breaker
breaker_iff cb = ground arith

cluster_iff : (c : ClusterConfig) → (check_cluster c ≡ none) ↔ (c.enabled ≡ true → ClusterIsTuned c)
unfolding check_cluster
cluster_iff c = ground (arith, breaker_iff c.circuit_breaker)

http_iff : (h : HttpConfig) → (check_http h ≡ none) ↔ HttpIsTuned h
unfolding check_http
http_iff h = ground arith

wedge_iff :
    (w : WedgeDetectorConfig)
    → (check_wedge w ≡ none) ↔ (w.enabled ≡ true → (0 < w.window_ms) × (0 < w.sample_interval_ms))
unfolding check_wedge
wedge_iff w = ground arith

auth_iff : (auth : Option AuthConfig) → (check_auth auth ≡ none) ↔ AuthAdmits auth
unfolding check_auth
auth_iff none = ground arith
auth_iff (some auth) = ground arith

cap_iff : (cap : ℕ) (e : ConfigError) → (fail_if (eqb cap 0) e ≡ none) ↔ (0 < cap)
cap_iff cap e = ground arith

-- A configuration passes the start-up checks exactly where each of its sections is usable.
pub validate_iff : (config : NodeConfig) → (validate config ≡ none) ↔ IsUsable config
unfolding validate
validate_iff config =
    let all = or_else_iff _ _ (tls_iff config.cluster_tls config.server_tls) (
      or_else_iff _ _ (ports_iff config.llama_cpp_ports) (
        or_else_iff _ _ (cluster_iff config.cluster) (
          or_else_iff _ _ (cap_iff config.max_instances_per_node _) (
            or_else_iff _ _ (http_iff config.http)
              (or_else_iff _ _ (wedge_iff config.wedge_detector) (auth_iff config.auth)))))) in
    (
      λ e.
          let (tls, (ports, (cluster, (cap, (http, (wedge, auth)))))) = all.0 e in
          (tls, ports, cluster, cap, http, wedge, auth),
      λ (tls, ports, cluster, cap, http, wedge, auth).
          all.1 (tls, (ports, (cluster, (cap, (http, (wedge, auth)))))),
    )
