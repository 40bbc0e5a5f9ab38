-- ===== src/Metrics/Window.antt =====
-- src/metrics.rs, `observe_latency`: the window of the samples after any requests.
use llamesh.Prelude.{
  ℕ, suc, ◌≡◌, refl, sym, ap, ◌∙◌, inl, inr, ◌+◌, ◌%◌, ◌≤◌, ◌<◌, List, [], ◌∷◌, ◌++◌, length, leb,
  leb→le, arith, length-append, Bool-cases, if◌then◌else◌,
}
use mathlib.Core.List.{append-nil, append_assoc}
use llamesh.Prelude.Word.{u64_mod}
use llamesh.Metrics.{HashMetrics, default_metrics, observe_latency, without_oldest}

-- The last members of a list, as many as are asked for.
abbrev pub last_of : ℕ → List ℕ → List ℕ
last_of n [] = []
last_of n (x ∷ xs) = let rest = last_of n xs in if leb (length (x ∷ xs)) n then x ∷ xs else rest

abbrev pub sum : List ℕ → ℕ
sum [] = 0
sum (x ∷ xs) = x + sum xs

last_of_short : (n : ℕ) (xs : List ℕ) → length xs ≤ n → last_of n xs ≡ xs
last_of_short n [] h = refl
last_of_short n (x ∷ xs) h = ground arith

-- The oldest sample leaves the window when a new one enters a full one.
last_of-without_oldest :
    (n : ℕ) (s : List ℕ) (x : ℕ) (xs : List ℕ)
    → length s ≤ suc n
    → last_of (suc n) ((if leb (suc n) (length s) then without_oldest s else s) ++ (x ∷ xs))
      ≡ last_of (suc n) (s ++ (x ∷ xs))
last_of-without_oldest n [] x xs h = ground arith
last_of-without_oldest n (y ∷ s) x xs h = elim (Bool-cases (leb (suc n) (length (y ∷ s)))) [
  | inl full ↦ ground (arith, length-append s (x ∷ xs), leb→le (suc n) (length (y ∷ s)))
  | inr free ↦ rw free refl
]

length_pushed :
    (s : List ℕ) (x : ℕ)
    → length s ≤ 100
    → length ((if leb 100 (length s) then without_oldest s else s) ++ (x ∷ [])) ≤ 100
length_pushed [] x h = ground arith
length_pushed (y ∷ s) x h = ground (arith, length-append s (x ∷ []), length-append (y ∷ s) (x ∷ []))

module _ {P : Type 0} where
  abbrev pub observe_all : HashMetrics P → List ℕ → HashMetrics P
  unfolding observe_latency
  observe_all m [] = m
  observe_all m (ms ∷ rest) = observe_all (observe_latency m ms) rest

  samples_after :
      (m : HashMetrics P) (latencies : List ℕ)
      → length m.latency_samples ≤ 100
      → (observe_all m latencies).latency_samples ≡ last_of 100 (m.latency_samples ++ latencies)
  unfolding observe_latency
  samples_after m [] h =
      sym (ap (last_of 100) (append-nil m.latency_samples) ∙ last_of_short 100 m.latency_samples h)
  samples_after m (ms ∷ rest) h =
      samples_after (observe_latency m ms) rest (length_pushed m.latency_samples ms h)
      ∙ (ap (last_of 100) (
            append_assoc
              (if leb 100 (length m.latency_samples)
                then without_oldest m.latency_samples
                else m.latency_samples)
              (ms ∷ []) rest)
          ∙ last_of-without_oldest 99 m.latency_samples ms rest h)

  total_after :
      (m : HashMetrics P) (latencies : List ℕ)
      → m.total_latency_ms < u64_mod
      → (observe_all m latencies).total_latency_ms ≡ (m.total_latency_ms + sum latencies) % u64_mod
  unfolding observe_latency
  total_after m [] h = omega arith
  total_after m (ms ∷ rest) h = omega (arith, total_after (observe_latency m ms) rest)

-- After any latencies of a hash that is new, its window holds the last hundred of them, in their
-- order, and its total is their sum, modulo 2^64.
pub observe_all-Windowed :
    (P : Type 0) (latencies : List ℕ)
    → ((observe_all (default_metrics {P = P}) latencies).latency_samples ≡ last_of 100 latencies)
      × ((observe_all (default_metrics {P = P}) latencies).total_latency_ms
          ≡ sum latencies % u64_mod)
observe_all-Windowed P latencies = (
  samples_after default_metrics latencies (omega arith),
  omega (arith, total_after (default_metrics {P = P}) latencies (omega arith)),
)
