-- ===== src/CircuitBreaker.antt =====
-- src/circuit_breaker.rs: the breaker, a map from peer ids to circuits. The asynchronous operations
-- hold the write lock and are one step each. The synchronous ones take `contended`, which says that
-- `try_read` failed; an operation that changes state returns the breaker after it.
pub mod Circuit
pub mod Backoff
pub mod Calls
pub mod Validity
pub mod Gates
pub mod Recovery
pub mod Interleaving
pub mod Isolation
pub mod Tests
use Circuit.{
  CircuitState, closed, opened, half_open, DispatchDecision, admit, deny, PeerCircuit,
  CircuitBreakerConfig, default_circuit, allow_circuit, allow_sync_by, claim_circuit,
  success_circuit, failure_circuit,
}
use llamesh.Prelude.{
  ℕ, suc, ◌+◌, String, Bool, true, false, not, Option, none, some, List, [], ◌∷◌, map, any, is_some,
  if◌then◌else◌,
}
use llamesh.Prelude.Eq.{string_key}
use llamesh.Prelude.Dict.{Dict, lookup, insert, remove, contains_key}

pub record CircuitBreaker : Type 0 where
  pub circuits : Dict String PeerCircuit
  pub config : CircuitBreakerConfig

-- `CircuitBreaker::new`
unfoldable pub new : CircuitBreakerConfig → CircuitBreaker
new config = record { circuits = []; config = config }

abbrev or_default : Option PeerCircuit → ℕ → PeerCircuit
or_default none now = default_circuit now
or_default (some c) now = c

-- `circuits.entry(peer_id).or_default()`, the circuit that it gives
abbrev pub entry : CircuitBreaker → String → ℕ → PeerCircuit
entry b peer_id now = or_default (lookup peer_id b.circuits) now

abbrev pub store : CircuitBreaker → String → PeerCircuit → CircuitBreaker
store b peer_id c = record b { circuits = insert peer_id c b.circuits }

unfoldable pub should_allow : CircuitBreaker → String → ℕ → CircuitBreaker × Bool
should_allow b peer_id now =
    if not b.config.enabled
    then (b, true)
    else let (c, allowed) = allow_circuit b.config (entry b peer_id now) now in
      (store b peer_id c, allowed)

abbrev allow_sync_found : CircuitBreakerConfig → Option PeerCircuit → ℕ → Bool
allow_sync_found cfg none now = true
allow_sync_found cfg (some c) now = allow_sync_by c.state cfg c now

unfoldable pub should_allow_sync : CircuitBreaker → Bool → String → ℕ → Bool
should_allow_sync b contended peer_id now =
    if not b.config.enabled
    then true
    else if contended
    then true
    else allow_sync_found b.config (lookup peer_id b.circuits) now

abbrev claim_found :
    CircuitBreaker → String → Option PeerCircuit → ℕ → CircuitBreaker × DispatchDecision
claim_found b peer_id none now = (b, admit false)
claim_found b peer_id (some c) now =
    let (d, decision) = claim_circuit b.config c now in (store b peer_id d, decision)

unfoldable pub try_claim_dispatch_sync :
    CircuitBreaker → Bool → String → ℕ → CircuitBreaker × DispatchDecision
try_claim_dispatch_sync b contended peer_id now =
    if not b.config.enabled
    then (b, admit false)
    else if contended
    then (b, admit false)
    else claim_found b peer_id (lookup peer_id b.circuits) now

unfoldable pub record_success : CircuitBreaker → String → Bool → ℕ → CircuitBreaker × Bool
record_success b peer_id probe_ticket now =
    if not b.config.enabled
    then (b, false)
    else let (c, advanced) = success_circuit b.config (entry b peer_id now) probe_ticket now in
      (store b peer_id c, advanced)

unfoldable pub record_failure : CircuitBreaker → String → Bool → ℕ → CircuitBreaker
record_failure b peer_id probe_ticket now =
    if not b.config.enabled
    then b
    else store b peer_id (failure_circuit b.config (entry b peer_id now) probe_ticket now)

abbrev state_or_closed : Option PeerCircuit → CircuitState
state_or_closed none = closed
state_or_closed (some c) = c.state

unfoldable pub get_state : CircuitBreaker → String → CircuitState
get_state b peer_id = state_or_closed (lookup peer_id b.circuits)

unfoldable pub get_all_states : CircuitBreaker → Dict String CircuitState
get_all_states b = map (λ kv. (kv.0, kv.1.state)) b.circuits

-- The loop of `forget` under the write lock.
unfoldable pub forget_each : List String → CircuitBreaker → ℕ → CircuitBreaker × ℕ
forget_each [] b removed = (b, removed)
forget_each (key ∷ keys) b removed =
    forget_each keys (record b { circuits = remove key b.circuits })
      (if contains_key key b.circuits then removed + 1 else removed)

-- `forget`; `later` is the map as the write lock finds it, since the read lock was given up.
unfoldable pub forget : CircuitBreaker → CircuitBreaker → List String → CircuitBreaker × ℕ
unfolding forget_each
forget b later keys =
    if not (any (λ key. contains_key key b.circuits) keys)
    then (later, 0)
    else forget_each keys later 0

unfoldable pub reset : CircuitBreaker → String → CircuitBreaker
reset b peer_id = record b { circuits = remove peer_id b.circuits }
