-- ===== src/CircuitBreaker/Circuit.antt =====
-- src/circuit_breaker.rs: the circuit of one peer and its transitions. An `Instant` is a count of
-- nanoseconds; each operation reads the clock once, as `now`. `u32` counters wrap as they do in a
-- release build. Log lines are left out.
use llamesh.Prelude.{
  ℕ, zero, suc, ◌-◌, ◌*◌, ◌/◌, ◌^◌, min, max, Bool, true, false, not, ◌&&◌, ◌||◌, Option, none,
  some, List, [], ◌∷◌, ltb, leb, eqb, any, if◌then◌else◌,
}
use llamesh.Prelude.Word.{u32_incr, as_u64, saturating_mul}

pub data CircuitState : Type 0 where
  closed opened half_open : CircuitState

pub data DispatchDecision : Type 0 where
  admit : Bool → DispatchDecision
  deny : DispatchDecision

pub record PeerCircuit : Type 0 where
  pub state : CircuitState
  pub failure_count : ℕ
  pub success_count : ℕ
  pub last_failure : Option ℕ
  pub last_state_change : ℕ
  pub consecutive_opens : ℕ
  pub opened_at : ℕ
  pub created : ℕ
  pub last_probe_ms : ℕ

pub record CircuitBreakerConfig : Type 0 where
  pub failure_threshold : ℕ
  pub success_threshold : ℕ
  pub open_duration_base_ms : ℕ
  pub open_duration_max_ms : ℕ
  pub half_open_probe_interval_ms : ℕ
  pub enabled : Bool

-- `CircuitBreakerConfig::default`
abbrev pub default_config : CircuitBreakerConfig
default_config = record {
  failure_threshold = 5;
  success_threshold = 2;
  open_duration_base_ms = 5000;
  open_duration_max_ms = 60000;
  half_open_probe_interval_ms = 1000;
  enabled = true;
}

abbrev pub nanos_per_ms : ℕ
nanos_per_ms = 1000000

-- `PeerCircuit::default`
unfoldable pub default_circuit : ℕ → PeerCircuit
default_circuit now = record {
  state = closed;
  failure_count = 0;
  success_count = 0;
  last_failure = none;
  last_state_change = now;
  consecutive_opens = 0;
  opened_at = now;
  created = now;
  last_probe_ms = 0;
}

-- `self.created.elapsed().as_millis() as u64`, at least 1; `elapsed` stops at 0.
unfoldable pub probe_clock : PeerCircuit → ℕ → ℕ
probe_clock c now = max (as_u64 ((now - c.created) / nanos_per_ms)) 1

-- `AtomicU64::compare_exchange` on `last_probe_ms`
unfoldable pub compare_exchange : PeerCircuit → ℕ → ℕ → PeerCircuit × Bool
compare_exchange c expected new =
    if eqb c.last_probe_ms expected then (record c { last_probe_ms = new }, true) else (c, false)

-- The pacing test: a probe was claimed less than an interval ago.
unfoldable pub is_paced : ℕ → ℕ → ℕ → Bool
is_paced last now_ms interval_ms = not (eqb last 0) && ltb (now_ms - last) interval_ms

unfoldable pub try_claim_probe : PeerCircuit → ℕ → ℕ → PeerCircuit × Bool
unfolding probe_clock compare_exchange is_paced
try_claim_probe c interval_ms now =
    let now_ms = probe_clock c now in
    let last = c.last_probe_ms in
    if eqb interval_ms 0
    then (record c { last_probe_ms = now_ms }, true)
    else if is_paced last now_ms interval_ms
    then (c, false)
    else compare_exchange c last now_ms

abbrev pub reset_probe : PeerCircuit → PeerCircuit
reset_probe c = record c { last_probe_ms = 0 }

-- Milliseconds; `Duration::from_millis` of it is `block_nanos`.
unfoldable pub calculate_backoff : CircuitBreakerConfig → ℕ → ℕ
calculate_backoff cfg consecutive_opens =
    let exponent = min (consecutive_opens - 1) 10 in
    min (saturating_mul cfg.open_duration_base_ms (2 ^ exponent)) cfg.open_duration_max_ms

abbrev pub block_nanos : CircuitBreakerConfig → PeerCircuit → ℕ
block_nanos cfg c = calculate_backoff cfg c.consecutive_opens * nanos_per_ms

-- `circuit.last_state_change.elapsed() >= backoff`
abbrev pub backoff_elapsed : CircuitBreakerConfig → PeerCircuit → ℕ → Bool
backoff_elapsed cfg c now = leb (block_nanos cfg c) (now - c.last_state_change)

-- `u32::is_power_of_two`
unfoldable pub powers_of_two : ℕ → List ℕ
powers_of_two zero = []
powers_of_two (suc k) = 2 ^ k ∷ powers_of_two k

unfoldable pub is_power_of_two : ℕ → Bool
is_power_of_two n = any (eqb n) (powers_of_two 32)

unfoldable pub reopen_logs_at_warn : CircuitBreakerConfig → ℕ → Bool
reopen_logs_at_warn cfg consecutive_opens =
    is_power_of_two consecutive_opens
    || not (
        eqb (calculate_backoff cfg consecutive_opens)
          (calculate_backoff cfg (consecutive_opens - 1)))

unfoldable pub close_after_recovery : PeerCircuit → ℕ → PeerCircuit
close_after_recovery c now =
    reset_probe (record c {
      state = closed;
      last_state_change = now;
      failure_count = 0;
      consecutive_opens = 0;
    })

-- The state match of `should_allow`.
unfoldable pub allow_by : CircuitState → CircuitBreakerConfig → PeerCircuit → ℕ → PeerCircuit × Bool
allow_by closed cfg c now = (c, true)
allow_by opened cfg c now =
    if backoff_elapsed cfg c now
    then try_claim_probe
        (reset_probe (record c { state = half_open; last_state_change = now; success_count = 0 }))
        cfg.half_open_probe_interval_ms now
    else (c, false)
allow_by half_open cfg c now = try_claim_probe c cfg.half_open_probe_interval_ms now

-- The state match of `should_allow_sync`.
unfoldable pub allow_sync_by : CircuitState → CircuitBreakerConfig → PeerCircuit → ℕ → Bool
allow_sync_by closed cfg c now = true
allow_sync_by half_open cfg c now = true
allow_sync_by opened cfg c now = backoff_elapsed cfg c now

abbrev pub probe_decision : PeerCircuit × Bool → PeerCircuit × DispatchDecision
probe_decision (c, won) = (c, if won then admit true else deny)

-- The state match of `try_claim_dispatch_sync`.
unfoldable pub claim_by :
    CircuitState → CircuitBreakerConfig → PeerCircuit → ℕ → PeerCircuit × DispatchDecision
claim_by closed cfg c now = (c, admit false)
claim_by half_open cfg c now =
    probe_decision (try_claim_probe c cfg.half_open_probe_interval_ms now)
claim_by opened cfg c now =
    if backoff_elapsed cfg c now
    then probe_decision (try_claim_probe c cfg.half_open_probe_interval_ms now)
    else (c, deny)

-- The state match of `record_success`; the result says that the success advanced a recovery.
unfoldable pub success_by :
    CircuitState → CircuitBreakerConfig → PeerCircuit → Bool → ℕ → PeerCircuit × Bool
unfolding close_after_recovery
success_by half_open cfg c probe_ticket now =
    if not probe_ticket
    then (c, false)
    else let d = record c { success_count = u32_incr c.success_count } in
      if leb cfg.success_threshold d.success_count
      then (close_after_recovery d now, true)
      else (d, false)
success_by closed cfg c probe_ticket now = (record c { failure_count = 0 }, false)
success_by opened cfg c probe_ticket now =
    if not probe_ticket
    then (c, false)
    else let d = record c { last_state_change = now; success_count = 1 } in
      if leb cfg.success_threshold 1
      then (close_after_recovery d now, true)
      else (record d { state = half_open }, true)

-- What both reopening branches of `record_failure` do.
abbrev pub reopen : PeerCircuit → ℕ → PeerCircuit
reopen c now = reset_probe (record c {
  state = opened;
  last_state_change = now;
  consecutive_opens = u32_incr c.consecutive_opens;
  success_count = 0;
})

-- The state match of `record_failure`, on the circuit with the failure counted.
unfoldable pub failure_by :
    CircuitState → CircuitBreakerConfig → PeerCircuit → Bool → ℕ → PeerCircuit
failure_by closed cfg c probe_ticket now =
    if leb cfg.failure_threshold c.failure_count
    then record (reopen c now) { opened_at = now }
    else c
failure_by half_open cfg c probe_ticket now = if probe_ticket then reopen c now else c
failure_by opened cfg c probe_ticket now = if probe_ticket then reopen c now else c

abbrev pub count_failure : PeerCircuit → ℕ → PeerCircuit
count_failure c now = record c { failure_count = u32_incr c.failure_count; last_failure = some now }

unfoldable pub allow_circuit : CircuitBreakerConfig → PeerCircuit → ℕ → PeerCircuit × Bool
unfolding allow_by
allow_circuit cfg c now = allow_by c.state cfg c now

unfoldable pub claim_circuit :
    CircuitBreakerConfig → PeerCircuit → ℕ → PeerCircuit × DispatchDecision
unfolding claim_by
claim_circuit cfg c now = claim_by c.state cfg c now

unfoldable pub success_circuit : CircuitBreakerConfig → PeerCircuit → Bool → ℕ → PeerCircuit × Bool
unfolding success_by
success_circuit cfg c probe_ticket now = success_by c.state cfg c probe_ticket now

unfoldable pub failure_circuit : CircuitBreakerConfig → PeerCircuit → Bool → ℕ → PeerCircuit
unfolding failure_by
failure_circuit cfg c probe_ticket now =
    failure_by c.state cfg (count_failure c now) probe_ticket now
