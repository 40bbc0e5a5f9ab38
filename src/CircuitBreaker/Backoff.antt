-- ===== src/CircuitBreaker/Backoff.antt =====
-- How long an open circuit blocks, and which reopens are logged at WARN.
use llamesh.Prelude.{ℕ, ◌-◌, ◌*◌, ◌^◌, ◌≤◌, ◌<◌, ◌≡◌, min, arith}
use native.Mathlib.Nat.{pow-le-pow_right, one-le-pow, mul-le-mul_left}
use llamesh.Prelude.Word.{u64_max}
use llamesh.CircuitBreaker.Circuit.{
  CircuitBreakerConfig, calculate_backoff, reopen_logs_at_warn, is_power_of_two,
}

abbrev pub exponent : ℕ → ℕ
exponent n = min (n - 1) 10

product_mono : (base i j : ℕ) → i ≤ j → base * 2 ^ i ≤ base * 2 ^ j
product_mono base i j h = mul-le-mul_left base (pow-le-pow_right (omega arith) h)

product-le : (base i : ℕ) → base ≤ base * 2 ^ i
product-le base i = grind (arith, one-le-pow i 2 (omega arith))

-- Where the configured cap is a `u64`, the saturating product never shows: the backoff is the
-- capped exponential, exactly.
pub calculate_backoff_exact :
    (cfg : CircuitBreakerConfig) (n : ℕ)
    → cfg.open_duration_max_ms ≤ u64_max
    → calculate_backoff cfg n
      ≡ min (cfg.open_duration_base_ms * 2 ^ exponent n) cfg.open_duration_max_ms
unfolding calculate_backoff
calculate_backoff_exact cfg n h = omega arith

pub calculate_backoff_bounds :
    (cfg : CircuitBreakerConfig) (n : ℕ)
    → cfg.open_duration_max_ms ≤ u64_max
    → (min cfg.open_duration_base_ms cfg.open_duration_max_ms ≤ calculate_backoff cfg n)
      × (calculate_backoff cfg n ≤ cfg.open_duration_max_ms)
unfolding calculate_backoff
calculate_backoff_bounds cfg n h =
    (omega (arith, product-le cfg.open_duration_base_ms (exponent n)), omega arith)

-- More openings in a row never shorten the backoff.
pub calculate_backoff_mono :
    (cfg : CircuitBreakerConfig) (m n : ℕ)
    → m ≤ n
    → calculate_backoff cfg m ≤ calculate_backoff cfg n
unfolding calculate_backoff
calculate_backoff_mono cfg m n h =
    omega (arith, product_mono cfg.open_duration_base_ms (exponent m) (exponent n) (omega arith))

-- After the eleventh opening in a row, a reopening is logged at WARN exactly where the number of
-- openings is a power of two.
pub reopen_warns_late :
    (cfg : CircuitBreakerConfig) (n : ℕ) → 11 < n → reopen_logs_at_warn cfg n ≡ is_power_of_two n
unfolding reopen_logs_at_warn calculate_backoff
reopen_warns_late cfg n h =
    let now : exponent n ≡ 10 = omega arith in
    let before : exponent (n - 1) ≡ 10 = omega arith in rw (now, before) (ground arith)
