-- ===== src/CircuitBreaker/Isolation.antt =====
-- A call reaches the circuits of the peers that it names, and no other.
use llamesh.Prelude.{
  ℕ, ◌+◌, ◌≡◌, refl, ◌∙◌, inl, inr, Bool, true, false, none, List, [], ◌∷◌, String, arith, any,
  if_both, Bool-cases, Option-cases, if◌then◌else◌,
}
use llamesh.Prelude.Eq.{string_key, ◌==◌}
use llamesh.Prelude.Dict.{Dict, lookup, remove, contains_key, lookup-insert, lookup-remove}
use llamesh.CircuitBreaker.Circuit.{PeerCircuit, closed, DispatchDecision, admit}
use llamesh.CircuitBreaker.{
  CircuitBreaker, should_allow, try_claim_dispatch_sync, record_success, record_failure, forget,
  forget_each, reset, get_state, store, claim_found,
}
use llamesh.CircuitBreaker.Calls.{Call, allows, claims, succeeds, fails, forgets, resets, step}

-- The call names the peer.
abbrev pub names : Call → String → Bool
names (allows p) q = p == q
names (claims contended p) q = p == q
names (succeeds p ticket) q = p == q
names (fails p ticket) q = p == q
names (forgets seen keys) q = any (λ key. key == q) keys
names (resets p) q = p == q

store_other :
    (b : CircuitBreaker) (p q : String) (c : PeerCircuit)
    → (p == q) ≡ false
    → lookup q (store b p c).circuits ≡ lookup q b.circuits
store_other b p q c ne = ground (arith, lookup-insert p q c b.circuits)

forget_each_other :
    (keys : List String) (b : CircuitBreaker) (n : ℕ) (q : String)
    → any (λ key. key == q) keys ≡ false
    → lookup q (forget_each keys b n).0.circuits ≡ lookup q b.circuits
unfolding forget_each
forget_each_other [] b n q ne = refl
forget_each_other (key ∷ keys) b n q ne =
    forget_each_other keys (record b { circuits = remove key b.circuits }) _ q (ground arith)
    ∙ ground (arith, lookup-remove key q b.circuits)

claim_other :
    (b : CircuitBreaker) (contended : Bool) (p q : String) (now : ℕ)
    → (p == q) ≡ false
    → lookup q (try_claim_dispatch_sync b contended p now).0.circuits ≡ lookup q b.circuits
unfolding try_claim_dispatch_sync
claim_other b contended p q now ne =
    if_both Same _ (b, admit false) _ refl (if_both Same _ (b, admit false) _ refl by_entry)
  where
    Same : CircuitBreaker × DispatchDecision → Type 0
    Same r = lookup q r.0.circuits ≡ lookup q b.circuits

    by_entry : Same (claim_found b p (lookup p b.circuits) now)
    by_entry = elim (Option-cases (lookup p b.circuits)) [
      | inl e ↦ rw e refl
      | inr (c, e) ↦ rw e (store_other b p q _ ne)
    ]

-- A call leaves the circuit of every peer that it does not name as it was.
pub lookup-step :
    (b : CircuitBreaker) (now : ℕ) (call : Call) (q : String)
    → names call q ≡ false
    → lookup q (step b now call).circuits ≡ lookup q b.circuits
unfolding step should_allow try_claim_dispatch_sync record_success record_failure forget reset
lookup-step b now (forgets seen keys) q ne =
    if_both (λ r. lookup q r.0.circuits ≡ lookup q b.circuits) _ (b, 0) (forget_each keys b 0) refl
      (forget_each_other keys b 0 q ne)
lookup-step b now (resets p) q ne = ground (arith, lookup-remove p q b.circuits)
lookup-step b now (allows p) q ne =
    if_both (λ (r : CircuitBreaker × Bool). lookup q r.0.circuits ≡ lookup q b.circuits) _ (b, true)
      _ refl (store_other b p q _ ne)
lookup-step b now (claims contended p) q ne = claim_other b contended p q now ne
lookup-step b now (succeeds p ticket) q ne =
    if_both (λ (r : CircuitBreaker × Bool). lookup q r.0.circuits ≡ lookup q b.circuits) _
      (b, false) _ refl (store_other b p q _ ne)
lookup-step b now (fails p ticket) q ne =
    if_both (λ (r : CircuitBreaker). lookup q r.circuits ≡ lookup q b.circuits) _ b _ refl
      (store_other b p q _ ne)

-- A key that was forgotten or reset reads as closed, the default.
forget_each_gone :
    (keys : List String) (b : CircuitBreaker) (n : ℕ) (q : String)
    → any (λ key. key == q) keys ≡ true
    → lookup q (forget_each keys b n).0.circuits ≡ none
unfolding forget_each
forget_each_gone [] b n q h = cc
forget_each_gone (key ∷ keys) b n q h = elim (Bool-cases (any (λ k. k == q) keys)) [
  | inl later ↦ forget_each_gone keys _ _ q later
  | inr only ↦
      forget_each_other keys (record b { circuits = remove key b.circuits }) _ q only
      ∙ ground (arith, lookup-remove key q b.circuits)
]

-- The number of listed keys that a map holds, each taken once.
abbrev pub held : Dict String PeerCircuit → List String → ℕ
held m [] = 0
held m (key ∷ keys) = (if contains_key key m then 1 else 0) + held (remove key m) keys

forget_each_count :
    (keys : List String) (b : CircuitBreaker) (n : ℕ)
    → (forget_each keys b n).1 ≡ n + held b.circuits keys
unfolding forget_each
forget_each_count [] b n = omega arith
forget_each_count (key ∷ keys) b n =
    forget_each_count keys (record b { circuits = remove key b.circuits }) _ ∙ ground arith

-- Where the read lock of `forget` saw one of the keys, afterwards every listed key reads as closed,
-- and the result counts the entries removed, a key that is listed twice once.
pub forget_lem :
    (seen b : CircuitBreaker) (keys : List String) (q : String)
    → any (λ key. contains_key key seen.circuits) keys ≡ true
    → any (λ key. key == q) keys ≡ true
    → (get_state (forget seen b keys).0 q ≡ closed)
      × ((forget seen b keys).1 ≡ held b.circuits keys)
unfolding forget get_state
forget_lem seen b keys q h named = (
  simp h (rw (forget_each_gone keys b 0 q named)),
  simp h (omega (arith, forget_each_count keys b 0)),
)
