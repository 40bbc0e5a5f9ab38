-- ===== src/Config/Startup.antt =====
-- What a checked configuration gives the components that it configures.
use llamesh.Prelude.{
  ℕ, ◌≤◌, ◌<◌, ◌≡◌, inl, inr, arith, true, Option, none, some, List, [], ◌∷◌, length,
}
use mathlib.Core.Path.{subst}
use llamesh.Prelude.Word.{u64_max}
use llamesh.CircuitBreaker.Circuit.{calculate_backoff}
use llamesh.CircuitBreaker.Backoff.{calculate_backoff_bounds}
use llamesh.PortPool.{PortRange, LlamaCppPorts, or_nil}
use llamesh.PortPool.Search.{offered, listed, in_ranges}
use llamesh.Config.{AuthConfig, NodeConfig, SecretsConfig, overlay, merge_secrets, validate}
use llamesh.Config.Checks.{validate_iff, RangesAreOrdered, PortsAreUsable, AuthAdmits, TlsIsPaired}

listed_head : (ports : List ℕ) → 0 < length ports → (p : ℕ) × (listed p ports ≡ true)
listed_head [] h = absurd (omega arith)
listed_head (p ∷ ports) h = (p, ground arith)

in_ranges_head :
    (ranges : List PortRange)
    → RangesAreOrdered ranges
    → 0 < length ranges
    → (p : ℕ) × (in_ranges p ranges ≡ true)
in_ranges_head [] ordered h = absurd (omega arith)
in_ranges_head (r ∷ ranges) ordered h = (r.start, ground arith)

usable_ports_offer :
    (ports : LlamaCppPorts)
    → PortsAreUsable (some ports)
    → (p : ℕ) × (offered (some ports) p ≡ true)
usable_ports_offer ports (ordered, inl h) =
    let (p, here) = listed_head (or_nil ports.ports) h in (p, ground arith)
usable_ports_offer ports (ordered, inr h) =
    let (p, here) = in_ranges_head (or_nil ports.ranges) ordered h in (p, ground arith)

-- A checked configuration that has `llama_cpp_ports` offers the port pool at least one port.
pub validated_offers :
    (config : NodeConfig) (ports : LlamaCppPorts)
    → validate config ≡ none
    → config.llama_cpp_ports ≡ some ports
    → (p : ℕ) × (offered (some ports) p ≡ true)
validated_offers config ports passed e =
    usable_ports_offer ports (subst PortsAreUsable e ((validate_iff config).0 passed).1)

-- A checked configuration with clustering and the breaker on spaces its probes: every reopened
-- circuit blocks for at least the base backoff, which is positive, and at most for the maximum,
-- where that is a `u64`.
pub validated_backs_off :
    (config : NodeConfig) (n : ℕ)
    → validate config ≡ none
    → config.cluster.enabled ≡ true
    → config.cluster.circuit_breaker.enabled ≡ true
    → config.cluster.circuit_breaker.open_duration_max_ms ≤ u64_max
    → (0 < config.cluster.circuit_breaker.open_duration_base_ms)
      × (config.cluster.circuit_breaker.open_duration_base_ms
          ≤ calculate_backoff config.cluster.circuit_breaker n)
      × (calculate_backoff config.cluster.circuit_breaker n
          ≤ config.cluster.circuit_breaker.open_duration_max_ms)
validated_backs_off config n passed on breaker h =
    let tuned = (((validate_iff config).0 passed).2 on).2 breaker in
    let bounds = calculate_backoff_bounds config.cluster.circuit_breaker n h in omega arith

overlay-AuthAdmits :
    (new old : Option AuthConfig) → AuthAdmits new → AuthAdmits old → AuthAdmits (overlay new old)
overlay-AuthAdmits none old n o = o
overlay-AuthAdmits (some auth) old n o = n

-- Secrets merged into a configuration that passes the checks leave one that passes them, where
-- their own auth block admits someone and the merged TLS sections are paired.
pub merge_secrets-passes :
    (config : NodeConfig) (secrets : SecretsConfig)
    → validate config ≡ none
    → AuthAdmits secrets.auth
    → TlsIsPaired
        (overlay secrets.cluster_tls config.cluster_tls)
        (overlay secrets.server_tls config.server_tls)
    → validate (merge_secrets config secrets) ≡ none
unfolding merge_secrets
merge_secrets-passes config secrets passed auth tls =
    let (_, ports, cluster, cap, http, wedge, old) = (validate_iff config).0 passed in
    (validate_iff (merge_secrets config secrets)).1
      (tls, ports, cluster, cap, http, wedge, overlay-AuthAdmits secrets.auth config.auth auth old)
