-- ===== src/CircuitBreaker/Validity.antt =====
-- What holds of every circuit after any history of calls.
use llamesh.Prelude.{
  ℕ, if_both, sym, ◌-◌, ◌/◌, ◌≤◌, ◌<◌, ◌≡◌, inl, inr, max, Bool, true, some, List, [], ◌∷◌, String,
  arith, Bool-cases, Option-cases,
}
use mathlib.Core.Path.{subst}
use mathlib.Core.Option.{some-injective}
use llamesh.Prelude.Word.{u32_mod}
use llamesh.Prelude.Eq.{string_key, ◌==◌}
use llamesh.Prelude.Dict.{lookup, insert, remove, lookup-insert, lookup-remove}
use llamesh.CircuitBreaker.Circuit.{
  nanos_per_ms, closed, half_open, PeerCircuit, CircuitBreakerConfig, default_circuit,
  try_claim_probe, allow_circuit, claim_circuit, success_circuit, failure_circuit,
}
use llamesh.CircuitBreaker.{
  CircuitBreaker, new, should_allow, try_claim_dispatch_sync, record_success, record_failure,
  forget_each, forget, reset, entry,
}
use llamesh.CircuitBreaker.Calls.{
  Call, allows, claims, succeeds, fails, forgets, resets, step, step-config, run, Timed, last_time,
}

-- The thresholds are `u32`.
pub record IsConfig (cfg : CircuitBreakerConfig) : Type 0 where
  pub failures_fit : cfg.failure_threshold < u32_mod
  pub successes_fit : cfg.success_threshold < u32_mod

-- A closed circuit is short of its failure threshold and has no opens on record; a half-open one is
-- short of its success threshold; the counters fit `u32`; no time stamp is ahead of the clock, and
-- the stamp of the last probe is at most the age of the circuit in milliseconds, or one.
pub record IsValid (cfg : CircuitBreakerConfig) (now : ℕ) (c : PeerCircuit) : Type 0 where
  pub closed_below : c.state ≡ closed → c.failure_count < max cfg.failure_threshold 1
  pub closed_opens : c.state ≡ closed → c.consecutive_opens ≡ 0
  pub half_below : c.state ≡ half_open → c.success_count < max cfg.success_threshold 1
  pub change_past : c.last_state_change ≤ now
  pub opened_past : c.opened_at ≤ c.last_state_change
  pub created_past : c.created ≤ now
  pub failure_past : (t : ℕ) → c.last_failure ≡ some t → t ≤ now
  pub probe_past : c.last_probe_ms ≤ max ((now - c.created) / nanos_per_ms) 1
  pub successes_u32 : c.success_count < u32_mod
  pub failures_u32 : c.failure_count < u32_mod
  pub opens_u32 : c.consecutive_opens < u32_mod

pub default-IsValid : (cfg : CircuitBreakerConfig) (now : ℕ) → IsValid cfg now (default_circuit now)
unfolding default_circuit
default-IsValid cfg now = ground arith

module _ (cfg : CircuitBreakerConfig) (fits : IsConfig cfg) (then_ now : ℕ)
    (later : then_ ≤ now) where
  pub allow-IsValid :
      (c : PeerCircuit) → IsValid cfg then_ c → IsValid cfg now (allow_circuit cfg c now).0
  unfolding allow_circuit try_claim_probe
  allow-IsValid c v = ground arith

  pub claim-IsValid :
      (c : PeerCircuit) → IsValid cfg then_ c → IsValid cfg now (claim_circuit cfg c now).0
  unfolding claim_circuit try_claim_probe
  claim-IsValid c v = ground arith

  pub success-IsValid :
      (c : PeerCircuit) (ticket : Bool)
      → IsValid cfg then_ c
      → IsValid cfg now (success_circuit cfg c ticket now).0
  unfolding success_circuit
  success-IsValid c ticket v = ground arith

  pub failure-IsValid :
      (c : PeerCircuit) (ticket : Bool)
      → IsValid cfg then_ c
      → IsValid cfg now (failure_circuit cfg c ticket now)
  unfolding failure_circuit
  failure-IsValid c ticket v = ground arith

abbrev pub AllValid : CircuitBreaker → ℕ → Type 0
AllValid b now =
    (k : String) (c : PeerCircuit) → lookup k b.circuits ≡ some c → IsValid b.config now c

later-IsValid :
    {cfg : CircuitBreakerConfig} {then_ now : ℕ} {c : PeerCircuit}
    → then_ ≤ now
    → IsValid cfg then_ c
    → IsValid cfg now c
later-IsValid h v = ground arith

module _ (b : CircuitBreaker) (then_ now : ℕ) (later : then_ ≤ now) (all : AllValid b then_) where
  later-AllValid : AllValid b now
  later-AllValid k c e = later-IsValid later (all k c e)

  entry-IsValid : (peer_id : String) → IsValid b.config now (entry b peer_id now)
  entry-IsValid peer_id = elim (Option-cases (lookup peer_id b.circuits)) [
    | inl e ↦ simp e (default-IsValid b.config now)
    | inr (c, e) ↦ simp e (later-AllValid peer_id c e)
  ]

  store-AllValid :
      (peer_id : String) (d : PeerCircuit)
      → IsValid b.config now d
      → (k : String) (c : PeerCircuit) → lookup k (insert peer_id d b.circuits) ≡ some c
      → IsValid b.config now c
  store-AllValid peer_id d v k c e = elim (Bool-cases (peer_id == k)) [
    | inl same ↦ subst (λ x. IsValid b.config now x) (some-injective d c (found same)) v
    | inr other ↦ later-AllValid k c (ground (arith, lookup-insert peer_id k d b.circuits))
  ]
    where
      found : (peer_id == k) ≡ true → some d ≡ some c
      found same = ground (arith, lookup-insert peer_id k d b.circuits)

  removed-AllValid : (key : String) → AllValid (record b { circuits = remove key b.circuits }) now
  removed-AllValid key k c e = later-AllValid k c (ground (arith, lookup-remove key k b.circuits))

  claim_found-AllValid :
      (contended : Bool) (peer_id : String)
      → IsConfig b.config
      → AllValid (try_claim_dispatch_sync b contended peer_id now).0 now
  unfolding try_claim_dispatch_sync
  claim_found-AllValid contended peer_id fits = elim (Bool-cases b.config.enabled) [
    | inr off ↦ simp off later-AllValid
    | inl on ↦ elim (Bool-cases contended) [
      | inl busy ↦ simp (on, busy) later-AllValid
      | inr free ↦ elim (Option-cases (lookup peer_id b.circuits)) [
        | inl e ↦ simp (on, free, e) later-AllValid
        | inr (c, e) ↦
            simp (on, free, e)
              (store-AllValid peer_id (claim_circuit b.config c now).0
                (claim-IsValid b.config fits then_ now later c (all peer_id c e)))
      ]
    ]
  ]

  step_one-AllValid :
      IsConfig b.config
      → (peer_id : String) (ticket : Bool)
      → AllValid (should_allow b peer_id now).0 now
        × AllValid (record_success b peer_id ticket now).0 now
        × AllValid (record_failure b peer_id ticket now) now
  unfolding should_allow record_success record_failure
  step_one-AllValid fits peer_id ticket = elim (Bool-cases b.config.enabled) [
    | inr off ↦ simp off (later-AllValid, later-AllValid, later-AllValid)
    | inl on ↦
        let v = entry-IsValid peer_id in
        simp on (
          store-AllValid peer_id _ (allow-IsValid b.config fits now now (omega arith) _ v),
          store-AllValid peer_id _ (success-IsValid b.config fits now now (omega arith) _ ticket v),
          store-AllValid peer_id _ (failure-IsValid b.config fits now now (omega arith) _ ticket v),
        )
  ]

pub forget_each-AllValid :
    (keys : List String) (b : CircuitBreaker) (n now : ℕ)
    → AllValid b now
    → AllValid (forget_each keys b n).0 now
unfolding forget_each
forget_each-AllValid [] b n now all = all
forget_each-AllValid (key ∷ keys) b n now all =
    forget_each-AllValid keys (record b { circuits = remove key b.circuits }) _ now
      (removed-AllValid b now now (omega arith) all key)

step-AllValid :
    (b : CircuitBreaker) (then_ now : ℕ) (call : Call)
    → IsConfig b.config
    → then_ ≤ now
    → AllValid b then_
    → AllValid (step b now call) now
unfolding step forget reset
step-AllValid b then_ now (allows p) fits h all =
    (step_one-AllValid b then_ now h all fits p true).0
step-AllValid b then_ now (succeeds p ticket) fits h all =
    (step_one-AllValid b then_ now h all fits p ticket).1
step-AllValid b then_ now (fails p ticket) fits h all =
    (step_one-AllValid b then_ now h all fits p ticket).2
step-AllValid b then_ now (claims contended p) fits h all =
    claim_found-AllValid b then_ now h all contended p fits
step-AllValid b then_ now (forgets seen keys) fits h all =
    if_both (λ r. AllValid r.0 now) _ (b, 0) (forget_each keys b 0)
      (later-AllValid b then_ now h all)
      (forget_each-AllValid keys b 0 now (later-AllValid b then_ now h all))
step-AllValid b then_ now (resets p) fits h all = removed-AllValid b then_ now h all p

run-AllValid :
    (b : CircuitBreaker) (start : ℕ) (calls : List (ℕ × Call))
    → IsConfig b.config
    → Timed start calls
    → AllValid b start
    → AllValid (run b calls) (last_time start calls)
unfolding run
run-AllValid b start [] fits t all = all
run-AllValid b start ((now, call) ∷ calls) fits t all =
    run-AllValid (step b now call) now calls
      (subst (λ x. IsConfig x) (sym (step-config b now call)) fits) t.1
      (step-AllValid b start now call fits t.0 all)

-- Under a configuration whose thresholds are `u32`, and a clock that does not go back, every
-- circuit that a new breaker holds after any calls is valid: closed circuits are short of the
-- failure threshold with no opens on record, half-open ones are short of the success threshold,
-- the counters fit `u32`, no stamp is ahead of the clock, and that of the last probe is at most the
-- age of the circuit in milliseconds, or one.
pub run-new-AllValid :
    (cfg : CircuitBreakerConfig) (start : ℕ) (calls : List (ℕ × Call))
    → IsConfig cfg
    → Timed start calls
    → AllValid (run (new cfg) calls) (last_time start calls)
unfolding new lookup
run-new-AllValid cfg start calls fits t = run-AllValid (new cfg) start calls fits t (λ k c e. cc)
