-- ===== src/Metrics/Restart.antt =====
-- src/metrics.rs: what is left of the metrics after `snapshot`, `from_snapshot` and the file between.
use llamesh.Prelude.{
  ℕ, suc, ◌≡◌, refl, ap, ◌∙◌, String, List, [], ◌∷◌, All, any, ltb, Bool-cases, inl, inr, arith,
  if◌then◌else◌,
}
use llamesh.Prelude.Eq.{◌==◌, string_key}
use llamesh.Prelude.Dict.{Dict, lookup}
use llamesh.Noise.Text.{Text, text_key}
use llamesh.Metrics.{HashMetrics, Metrics, insert_name, get_learned_memory, learned_of}
use llamesh.Metrics.Snapshot.{
  Floats, collect_names, map_values, hash_snapshot, from_hash_snapshot, metrics_snapshot,
  from_snapshot,
}

module _ {P : Type 0} where
  -- What of the metrics a restart forgets: the gauges, the waits and the samples.
  abbrev pub without_samples : HashMetrics P → HashMetrics P
  without_samples v = record v { latency_samples = []; last_memory_update = "" }

  abbrev pub restarted : Metrics P → Metrics P
  restarted m = record m {
    current_requests = 0;
    queue_pending_tokens = 0;
    queue_wait_total_ms = 0;
    queue_wait_count = 0;
    queue_length = 0;
    hash_metrics = map_values without_samples m.hash_metrics;
  }

  -- No name is twice in the set of a hash.
  abbrev pub HasNameSet : Text × HashMetrics P → Type 0
  HasNameSet entry = collect_names entry.1.display_names ≡ entry.1.display_names

  learned_of-without_samples :
      (k : Text) (entries : Dict Text (HashMetrics P))
      → learned_of (lookup k (map_values without_samples entries)) ≡ learned_of (lookup k entries)
  unfolding lookup
  learned_of-without_samples k [] = refl
  learned_of-without_samples k ((j, v) ∷ entries) = elim (Bool-cases (j == k)) [
    | inl same ↦ rw same refl
    | inr other ↦ rw other (learned_of-without_samples k entries)
  ]

-- Adding a name keeps the set a set.
pub insert_name-set :
    (name : String) (names : List String)
    → collect_names names ≡ names
    → collect_names (insert_name name names) ≡ insert_name name names
insert_name-set name names h = elim (Bool-cases (any (λ (n : String). n == name) names)) [
  | inl there ↦ rw there h
  | inr new ↦ rw (new, h, new) refl
]

total_restored :
    (fl : Floats)
    → ((n : ℕ) → fl.scaled (fl.mean 0 n) n ≡ 0)
    → (total requests : ℕ)
    → (if ltb 0 total then total else fl.scaled (fl.mean total requests) requests) ≡ total
total_restored fl zero_mean ℕ.zero requests = zero_mean requests
total_restored fl zero_mean (suc n) requests = ground arith

module _ {P : Type 0} (fl : Floats) (zero_mean : (n : ℕ) → fl.scaled (fl.mean 0 n) n ≡ 0) where
  from_hash_snapshot-hash_snapshot :
      (k : Text) (v : HashMetrics P)
      → HasNameSet (k, v)
      → from_hash_snapshot fl (hash_snapshot fl v) ≡ without_samples v
  unfolding from_hash_snapshot hash_snapshot
  from_hash_snapshot-hash_snapshot k v h =
      ap
        (λ (t : ℕ). record (without_samples v) {
          total_latency_ms = t;
          display_names = collect_names v.display_names;
        })
        (total_restored fl zero_mean v.total_latency_ms v.requests_total)
      ∙ ap (λ (names : List String). record (without_samples v) { display_names = names }) h

  map_values-restored :
      (entries : Dict Text (HashMetrics P))
      → All HasNameSet entries
      → map_values (from_hash_snapshot fl) (map_values (hash_snapshot fl) entries)
        ≡ map_values without_samples entries
  map_values-restored [] h = refl
  map_values-restored ((k, v) ∷ entries) h =
      rw (from_hash_snapshot-hash_snapshot k v h.0, map_values-restored entries h.1) refl

  restored :
      (m : Metrics P)
      → All HasNameSet m.hash_metrics
      → from_snapshot fl (metrics_snapshot fl m) ≡ restarted m
  unfolding from_snapshot metrics_snapshot
  restored m h =
      ap (λ (entries : Dict Text (HashMetrics P)). record (restarted m) { hash_metrics = entries })
        (map_values-restored m.hash_metrics h)

  -- Metrics that are read back from their snapshot are what they were, but for the gauges, the waits
  -- in queues, the window of samples and the time of the last update of each hash, which start afresh;
  -- and the memory that was learned of each command line is the same. A mean of nothing scales to
  -- zero, and no name is twice in a set.
  pub from_snapshot-metrics_snapshot :
      (m : Metrics P)
      → All HasNameSet m.hash_metrics
      → (from_snapshot fl (metrics_snapshot fl m) ≡ restarted m)
        × ((args_hash : Text)
            → get_learned_memory (from_snapshot fl (metrics_snapshot fl m)) args_hash
              ≡ get_learned_memory m args_hash)
  unfolding get_learned_memory
  from_snapshot-metrics_snapshot m h = (
    restored m h,
    λ args_hash.
        ap (λ (n : Metrics P). get_learned_memory n args_hash) (restored m h)
        ∙ learned_of-without_samples args_hash m.hash_metrics,
  )
