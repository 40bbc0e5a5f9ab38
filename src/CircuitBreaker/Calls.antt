-- ===== src/CircuitBreaker/Calls.antt =====
-- Histories of calls on a breaker: each call with the time at which it reads the clock.
use llamesh.Prelude.{ℕ, ◌≤◌, ◌≡◌, refl, if_both, arith, Bool, String, List, [], ◌∷◌}
use llamesh.CircuitBreaker.{
  CircuitBreaker, should_allow, try_claim_dispatch_sync, record_success, record_failure, forget,
  forget_each, reset,
}

-- `forgets` carries the breaker that the read lock of `forget` saw.
pub data Call : Type 0 where
  allows : String → Call
  claims : Bool → String → Call
  succeeds : String → Bool → Call
  fails : String → Bool → Call
  forgets : CircuitBreaker → List String → Call
  resets : String → Call

unfoldable pub step : CircuitBreaker → ℕ → Call → CircuitBreaker
step b now (allows peer_id) = (should_allow b peer_id now).0
step b now (claims contended peer_id) = (try_claim_dispatch_sync b contended peer_id now).0
step b now (succeeds peer_id ticket) = (record_success b peer_id ticket now).0
step b now (fails peer_id ticket) = record_failure b peer_id ticket now
step b now (forgets seen keys) = (forget seen b keys).0
step b now (resets peer_id) = reset b peer_id

unfoldable pub run : CircuitBreaker → List (ℕ × Call) → CircuitBreaker
run b [] = b
run b ((now, call) ∷ calls) = run (step b now call) calls

-- The clock does not go back.
abbrev pub Timed : ℕ → List (ℕ × Call) → Type 0
Timed start [] = Unit {0}
Timed start ((now, call) ∷ calls) = (start ≤ now) × Timed now calls

abbrev pub last_time : ℕ → List (ℕ × Call) → ℕ
last_time start [] = start
last_time start ((now, call) ∷ calls) = last_time now calls

forget_each-config :
    (keys : List String) (b : CircuitBreaker) (n : ℕ) → (forget_each keys b n).0.config ≡ b.config
unfolding forget_each
forget_each-config [] b n = refl
forget_each-config (key ∷ keys) b n = forget_each-config keys _ _

-- No call changes the configuration.
pub step-config : (b : CircuitBreaker) (now : ℕ) (call : Call) → (step b now call).config ≡ b.config
unfolding step should_allow try_claim_dispatch_sync record_success record_failure forget reset
step-config b now (forgets seen keys) =
    if_both (λ r. r.0.config ≡ b.config) _ (b, 0) (forget_each keys b 0) refl
      (forget_each-config keys b 0)
step-config b now _ = ground arith
