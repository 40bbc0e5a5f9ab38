-- ===== src/CircuitBreaker/Gates.antt =====
-- Which requests the gates of the breaker let through.
use llamesh.Prelude.{
  ℕ, ◌+◌, ◌-◌, ◌*◌, ◌%◌, ◌≤◌, ◌<◌, ◌≡◌, ◌≢◌, ◌⊎◌, true, false, some, String, arith,
}
use llamesh.Prelude.Word.{u32_mod}
use llamesh.Prelude.Eq.{string_key, ==_refl}
use llamesh.Prelude.Dict.{lookup, lookup-insert}
use llamesh.CircuitBreaker.Circuit.{
  closed, opened, half_open, admit, deny, PeerCircuit, CircuitBreakerConfig, backoff_elapsed,
  allow_circuit, allow_sync_by, claim_circuit, success_circuit, failure_circuit, try_claim_probe,
  probe_clock, calculate_backoff, nanos_per_ms,
}
use llamesh.CircuitBreaker.{
  CircuitBreaker, should_allow, should_allow_sync, try_claim_dispatch_sync,
}

module _ (b : CircuitBreaker) (peer_id : String) (now : ℕ) (c : PeerCircuit)
    (on : b.config.enabled ≡ true) (found : lookup peer_id b.circuits ≡ some c) where
  -- Where the breaker is enabled and its lock is free, all three gates refuse a peer whose circuit
  -- is open and whose backoff has not elapsed, and the circuit stays as it is.
  pub open_blocks :
      c.state ≡ opened
      → backoff_elapsed b.config c now ≡ false
      → (should_allow_sync b false peer_id now ≡ false)
        × ((try_claim_dispatch_sync b false peer_id now).1 ≡ deny)
        × ((should_allow b peer_id now).1 ≡ false)
        × (lookup peer_id (try_claim_dispatch_sync b false peer_id now).0.circuits ≡ some c)
        × (lookup peer_id (should_allow b peer_id now).0.circuits ≡ some c)
  unfolding should_allow_sync try_claim_dispatch_sync should_allow claim_circuit allow_circuit
      allow_sync_by
  open_blocks o e =
      simp (on, found, o)
        (ground (arith, lookup-insert peer_id peer_id c b.circuits, ==_refl peer_id))

  -- What the routing filter refuses is never dispatched at that instant.
  pub filter_covers_claim :
      should_allow_sync b false peer_id now ≡ false
      → (try_claim_dispatch_sync b false peer_id now).1 ≡ deny
  unfolding should_allow_sync try_claim_dispatch_sync claim_circuit allow_sync_by
  filter_covers_claim h = simp (on, found) (ground arith)

-- The circuit is in recovery: half-open, or open with its backoff elapsed.
abbrev pub IsRecovering : CircuitBreakerConfig → PeerCircuit → ℕ → Type 0
IsRecovering cfg c now =
    (c.state ≡ half_open) ⊎ ((c.state ≡ opened) × (backoff_elapsed cfg c now ≡ true))

-- A recovering circuit that has not probed since its last transition admits the first probe, with
-- a ticket; with gating on, and the next attempt less than an interval later on the probe clock,
-- that attempt is refused.
pub probe_pacing :
    (cfg : CircuitBreakerConfig) (c : PeerCircuit) (first second : ℕ)
    → IsRecovering cfg c first
    → first ≤ second
    → c.last_probe_ms ≡ 0
    → 0 < cfg.half_open_probe_interval_ms
    → probe_clock c second - probe_clock c first < cfg.half_open_probe_interval_ms
    → ((claim_circuit cfg c first).1 ≡ admit true)
      × ((claim_circuit cfg (claim_circuit cfg c first).0 second).1 ≡ deny)
unfolding claim_circuit try_claim_probe
probe_pacing cfg c first second r h z g p = ground arith

-- What a result leaves alone: the state, the block window and its length, and the probe pacing.
pub record Keeps (c d : PeerCircuit) : Type 0 where
  pub state : d.state ≡ c.state
  pub last_state_change : d.last_state_change ≡ c.last_state_change
  pub consecutive_opens : d.consecutive_opens ≡ c.consecutive_opens
  pub success_count : d.success_count ≡ c.success_count
  pub last_probe_ms : d.last_probe_ms ≡ c.last_probe_ms

-- A result without a probe ticket neither recovers nor re-blocks a circuit that is not closed.
pub stale_results :
    (cfg : CircuitBreakerConfig) (c : PeerCircuit) (now : ℕ)
    → c.state ≢ closed
    → Keeps c (success_circuit cfg c false now).0
      × ((success_circuit cfg c false now).1 ≡ false)
      × Keeps c (failure_circuit cfg c false now)
unfolding success_circuit failure_circuit
stale_results cfg c now open_ = ground arith

-- A ticketed failure of a circuit that is not closed blocks it again from that instant, for the
-- backoff of one more open; until it has elapsed no dispatch is admitted.
pub failed_probe_blocks :
    (cfg : CircuitBreakerConfig) (c : PeerCircuit) (now later : ℕ)
    → c.state ≢ closed
    → c.consecutive_opens + 1 < u32_mod
    → now ≤ later
    → later < now + calculate_backoff cfg (c.consecutive_opens + 1) * nanos_per_ms
    → ((failure_circuit cfg c true now).state ≡ opened)
      × ((failure_circuit cfg c true now).consecutive_opens ≡ c.consecutive_opens + 1)
      × ((claim_circuit cfg (failure_circuit cfg c true now) later).1 ≡ deny)
unfolding failure_circuit claim_circuit
failed_probe_blocks cfg c now later open_ fits h w =
    let e : (c.consecutive_opens + 1) % u32_mod ≡ c.consecutive_opens + 1 = omega arith in
    ground (arith, e)
