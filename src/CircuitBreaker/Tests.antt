-- ===== src/CircuitBreaker/Tests.antt =====
-- The theorems on the circuit breaker at concrete inputs, and runs of its operations.
use llamesh.Prelude.{ℕ, ◌+◌, ◌%◌, ◌≡◌, refl, Bool, true, false, some, List, [], ◌∷◌, arith}
use llamesh.Prelude.Eq.{string_key}
use llamesh.Prelude.Dict.{lookup, insert, remove}
use llamesh.CircuitBreaker.Circuit.{
  closed, opened, half_open, PeerCircuit, default_config, default_circuit, calculate_backoff,
  compare_exchange, probe_clock, is_paced, try_claim_probe, success_circuit, failure_circuit,
  allow_circuit,
}
use llamesh.CircuitBreaker.{
  CircuitBreaker, new, should_allow, record_failure, get_state, record_success,
}
use llamesh.CircuitBreaker.Calls.{Call, allows, succeeds, fails, step, run, last_time}
use llamesh.CircuitBreaker.Validity.{AllValid, run-new-AllValid}
use llamesh.CircuitBreaker.Recovery.{fail_all, opens_at_threshold}
use llamesh.CircuitBreaker.Interleaving.{
  here, next, reads, loads, swaps, race_start, Spaced, race-Spaced,
}

-- Five failures open the circuit of `a`; a probe is claimed five seconds later.
abbrev history : List (ℕ × Call)
history =
    (1, fails "a" false)
    ∷ (2, fails "a" false)
    ∷ (3, fails "a" false)
    ∷ (4, fails "a" false)
    ∷ (5, fails "a" false)
    ∷ (5000000005, allows "a")
    ∷ (5000000006, succeeds "a" true)
    ∷ []

run-new-AllValid_example : AllValid (run (new default_config) history) (last_time 0 history)
run-new-AllValid_example = run-new-AllValid default_config 0 history (omega arith) (omega arith)

abbrev blocked : PeerCircuit
blocked = record {
  state = opened;
  failure_count = 5;
  success_count = 0;
  last_failure = some 0;
  last_state_change = 0;
  consecutive_opens = 1;
  opened_at = 0;
  created = 0;
  last_probe_ms = 0;
}

abbrev testing : PeerCircuit
testing = record blocked { state = half_open }

abbrev breaker : CircuitBreaker
breaker = record { circuits = ("a", blocked) ∷ ("b", testing) ∷ []; config = default_config }

abbrev four_failures : List (Bool × ℕ)
four_failures = (false, 1) ∷ (true, 2) ∷ (false, 3) ∷ (false, 4) ∷ []

abbrev fresh : PeerCircuit
fresh = record blocked { state = closed; failure_count = 0; consecutive_opens = 0 }

opens_at_threshold_example :
    ((fail_all default_config fresh four_failures).state ≡ closed)
    × ((failure_circuit default_config (fail_all default_config fresh four_failures) false 5).state
        ≡ opened)
    × ((failure_circuit default_config
          (fail_all default_config fresh four_failures)
          false
          5).last_state_change
        ≡ 5)
    × ((failure_circuit default_config
          (fail_all default_config fresh four_failures)
          false
          5).opened_at
        ≡ 5)
    × ((failure_circuit default_config
          (fail_all default_config fresh four_failures)
          false
          5).success_count
        ≡ 0)
    × ((failure_circuit default_config
          (fail_all default_config fresh four_failures)
          false
          5).last_probe_ms
        ≡ 0)
    × ((failure_circuit default_config
          (fail_all default_config fresh four_failures)
          false
          5).consecutive_opens
        ≡ ((fail_all default_config fresh four_failures).consecutive_opens + 1) % 4294967296)
opens_at_threshold_example =
    opens_at_threshold default_config fresh four_failures false 5 (omega arith) refl refl

-- Two tasks claim a probe two seconds apart.
race-Spaced_example : Spaced 1000 (2005 ∷ 5 ∷ [])
unfolding compare_exchange probe_clock is_paced
race-Spaced_example = race-Spaced 1000 blocked (omega arith) refl (
    next
      (next
        (next
          (next (next (next here (reads (race_start blocked) 0 5000000)) (loads _ 0 5 refl))
            (swaps _ 0 5 0 refl refl))
          (reads _ 1 2005000000))
        (loads _ 1 2005 refl))
      (swaps _ 1 2005 5 refl refl))

-- The circuit after the history: half-open with one success.
history_half_open : get_state (run (new default_config) history) "a" ≡ half_open
unfolding get_state run step new should_allow record_failure allow_circuit failure_circuit
    success_circuit try_claim_probe calculate_backoff default_circuit lookup insert remove
    record_success
history_half_open = refl
