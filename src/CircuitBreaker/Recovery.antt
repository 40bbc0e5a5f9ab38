-- ===== src/CircuitBreaker/Recovery.antt =====
-- How a circuit opens under failures and closes again under successful probes.
use llamesh.Prelude.{ℕ, ◌+◌, ◌%◌, ◌<◌, ◌≡◌, Bool, true, List, [], ◌∷◌, arith, length}
use llamesh.Prelude.Word.{u32_mod}
use llamesh.CircuitBreaker.Circuit.{
  closed, opened, half_open, PeerCircuit, CircuitBreakerConfig, success_circuit, failure_circuit,
}

-- Failures in a row, each with its ticket and time.
abbrev pub fail_all : CircuitBreakerConfig → PeerCircuit → List (Bool × ℕ) → PeerCircuit
fail_all cfg c [] = c
fail_all cfg c ((ticket, now) ∷ rest) = fail_all cfg (failure_circuit cfg c ticket now) rest

abbrev pub succeed_all : CircuitBreakerConfig → PeerCircuit → List ℕ → PeerCircuit
succeed_all cfg c [] = c
succeed_all cfg c (now ∷ rest) = succeed_all cfg (success_circuit cfg c true now).0 rest

-- One failure of a closed circuit.
fail_once :
    (cfg : CircuitBreakerConfig) (c : PeerCircuit) (ticket : Bool) (now : ℕ)
    → c.state ≡ closed
    → c.failure_count + 1 < cfg.failure_threshold
    → cfg.failure_threshold < u32_mod
    → ((failure_circuit cfg c ticket now).state ≡ closed)
      × ((failure_circuit cfg c ticket now).failure_count ≡ c.failure_count + 1)
unfolding failure_circuit
fail_once cfg c ticket now e h fits = ground arith

-- Failures short of the threshold leave a closed circuit closed, and are all counted.
fails_below :
    (cfg : CircuitBreakerConfig) (c : PeerCircuit) (fs : List (Bool × ℕ))
    → cfg.failure_threshold < u32_mod
    → c.state ≡ closed
    → c.failure_count + length fs < cfg.failure_threshold
    → ((fail_all cfg c fs).state ≡ closed)
      × ((fail_all cfg c fs).failure_count ≡ c.failure_count + length fs)
fails_below cfg c [] fits e h = (e, omega arith)
fails_below cfg c ((ticket, now) ∷ fs) fits e h =
    let one = fail_once cfg c ticket now e (omega arith) fits in
    let ih =
      fails_below cfg (failure_circuit cfg c ticket now) fs fits one.0 (omega (arith, one.1)) in
    (ih.0, omega (arith, ih.1, one.1))

opens_now :
    (cfg : CircuitBreakerConfig) (c : PeerCircuit) (ticket : Bool) (now : ℕ)
    → cfg.failure_threshold < u32_mod
    → c.state ≡ closed
    → c.failure_count + 1 ≡ cfg.failure_threshold
    → ((failure_circuit cfg c ticket now).state ≡ opened)
      × ((failure_circuit cfg c ticket now).last_state_change ≡ now)
      × ((failure_circuit cfg c ticket now).opened_at ≡ now)
      × ((failure_circuit cfg c ticket now).success_count ≡ 0)
      × ((failure_circuit cfg c ticket now).last_probe_ms ≡ 0)
      × ((failure_circuit cfg c ticket now).consecutive_opens ≡ (c.consecutive_opens + 1) % u32_mod)
unfolding failure_circuit
opens_now cfg c ticket now fits e h = ground arith

-- A closed circuit stays closed through failures short of the threshold and opens on the failure
-- that reaches it, at that time, with its success count and probe pacing cleared and one more open
-- counted; tickets play no part.
pub opens_at_threshold :
    (cfg : CircuitBreakerConfig) (c : PeerCircuit) (fs : List (Bool × ℕ)) (ticket : Bool) (now : ℕ)
    → cfg.failure_threshold < u32_mod
    → c.state ≡ closed
    → c.failure_count + length fs + 1 ≡ cfg.failure_threshold
    → ((fail_all cfg c fs).state ≡ closed)
      × ((failure_circuit cfg (fail_all cfg c fs) ticket now).state ≡ opened)
      × ((failure_circuit cfg (fail_all cfg c fs) ticket now).last_state_change ≡ now)
      × ((failure_circuit cfg (fail_all cfg c fs) ticket now).opened_at ≡ now)
      × ((failure_circuit cfg (fail_all cfg c fs) ticket now).success_count ≡ 0)
      × ((failure_circuit cfg (fail_all cfg c fs) ticket now).last_probe_ms ≡ 0)
      × ((failure_circuit cfg (fail_all cfg c fs) ticket now).consecutive_opens
          ≡ ((fail_all cfg c fs).consecutive_opens + 1) % u32_mod)
opens_at_threshold cfg c fs ticket now fits e h =
    let below = fails_below cfg c fs fits e (omega arith) in
    let o = opens_now cfg (fail_all cfg c fs) ticket now fits below.0 (omega (arith, below.1)) in
    (below.0, o.0, o.1, o.2, o.3, o.4, o.5)

-- One ticketed success of a half-open circuit.
succeed_once :
    (cfg : CircuitBreakerConfig) (c : PeerCircuit) (now : ℕ)
    → cfg.success_threshold < u32_mod
    → c.state ≡ half_open
    → c.success_count + 1 < cfg.success_threshold
    → ((success_circuit cfg c true now).0.state ≡ half_open)
      × ((success_circuit cfg c true now).0.success_count ≡ c.success_count + 1)
unfolding success_circuit
succeed_once cfg c now fits e h = ground arith

succeeds_below :
    (cfg : CircuitBreakerConfig) (c : PeerCircuit) (ts : List ℕ)
    → cfg.success_threshold < u32_mod
    → c.state ≡ half_open
    → c.success_count + length ts < cfg.success_threshold
    → ((succeed_all cfg c ts).state ≡ half_open)
      × ((succeed_all cfg c ts).success_count ≡ c.success_count + length ts)
succeeds_below cfg c [] fits e h = (e, omega arith)
succeeds_below cfg c (now ∷ ts) fits e h =
    let d = (success_circuit cfg c true now).0 in
    let one = succeed_once cfg c now fits e (omega arith) in
    let ih = succeeds_below cfg d ts fits one.0 (omega (arith, one.1)) in
    (ih.0, omega (arith, ih.1, one.1))

-- What a closed circuit looks like after a recovery.
pub record IsRecovered (now : ℕ) (d : PeerCircuit) : Type 0 where
  pub state : d.state ≡ closed
  pub failure_count : d.failure_count ≡ 0
  pub consecutive_opens : d.consecutive_opens ≡ 0
  pub last_probe_ms : d.last_probe_ms ≡ 0
  pub last_state_change : d.last_state_change ≡ now

closes_now :
    (cfg : CircuitBreakerConfig) (c : PeerCircuit) (now : ℕ)
    → cfg.success_threshold < u32_mod
    → c.state ≡ half_open
    → c.success_count + 1 ≡ cfg.success_threshold
    → IsRecovered now (success_circuit cfg c true now).0
      × ((success_circuit cfg c true now).1 ≡ true)
unfolding success_circuit
closes_now cfg c now fits e h = ground arith

half_opens :
    (cfg : CircuitBreakerConfig) (c : PeerCircuit) (now : ℕ)
    → c.state ≡ opened
    → 1 < cfg.success_threshold
    → ((success_circuit cfg c true now).0.state ≡ half_open)
      × ((success_circuit cfg c true now).0.success_count ≡ 1)
unfolding success_circuit
half_opens cfg c now e h = ground arith

-- An open circuit whose probes all succeed is half-open until the success that reaches the
-- threshold (of at least two), which closes it with its counters cleared and reports the
-- transition.
pub recovers_at_threshold :
    (cfg : CircuitBreakerConfig) (c : PeerCircuit) (first : ℕ) (ts : List ℕ) (last : ℕ)
    → cfg.success_threshold < u32_mod
    → c.state ≡ opened
    → length ts + 2 ≡ cfg.success_threshold
    → ((succeed_all cfg c (first ∷ ts)).state ≡ half_open)
      × IsRecovered last (success_circuit cfg (succeed_all cfg c (first ∷ ts)) true last).0
      × ((success_circuit cfg (succeed_all cfg c (first ∷ ts)) true last).1 ≡ true)
recovers_at_threshold cfg c first ts last fits e h =
    let d = (success_circuit cfg c true first).0 in
    let one = half_opens cfg c first e (omega arith) in
    let rest = succeeds_below cfg d ts fits one.0 (omega (arith, one.1)) in
    let done =
      closes_now cfg (succeed_all cfg d ts) last fits rest.0 (omega (arith, rest.1, one.1)) in
    (rest.0, done.0, done.1)
