-- ===== src/Metrics/Tests.antt =====
-- Witnesses and tests of the metrics, at concrete latencies, snapshots and hashes.
use llamesh.Prelude.{
  ℕ, suc, ◌≡◌, refl, ◌*◌, ◌/◌, ◌-◌, ◌%◌, none, some, List, [], ◌∷◌, arith, if◌then◌else◌,
}
use native.Mathlib.Nat.{zero-div}
use llamesh.Prelude.Dict.{lookup, contains_key}
use llamesh.Prelude.Word.{u64_mod, u64_incr, u64_decr}
use llamesh.Noise.Text.{Text, codes, text_key}
use llamesh.Metrics.{HashMetrics, Metrics, default_metrics, get_learned_memory}
use llamesh.Metrics.Window.{observe_all, observe_all-Windowed}
use llamesh.Metrics.Snapshot.{Floats, metrics_snapshot, from_snapshot}
use llamesh.Metrics.Restart.{restarted, from_snapshot-metrics_snapshot}
use llamesh.Metrics.Migration.{migrate_args_hashes}
use llamesh.Metrics.Moves.{is_legacy, first_source, migrate_args_hashes-lookup}

abbrev many : ℕ → List ℕ
many ℕ.zero = []
many (suc n) = suc n ∷ many n

observe_all-Windowed_example :
    ((observe_all (default_metrics {P = ℕ}) (many 102)).latency_samples ≡ many 100)
    × ((observe_all (default_metrics {P = ℕ}) (many 102)).total_latency_ms ≡ 5253 % u64_mod)
observe_all-Windowed_example = observe_all-Windowed ℕ (many 102)

-- Means and totals in whole milliseconds.
abbrev whole_floats : Floats
whole_floats = record {
  F = ℕ;
  mean = λ total n. total / n;
  scaled = λ mean n. mean * n;
  p95_index = λ n. n * 95 / 100;
}

abbrev served : HashMetrics ℕ
served = record (default_metrics {P = ℕ}) {
  requests_total = 3;
  total_latency_ms = 70;
  latency_samples = 20 ∷ 25 ∷ 25 ∷ [];
  peak_vram_mb = 900;
  sample_count = 2;
  display_names = "small" ∷ "tiny" ∷ [];
}

abbrev node_metrics : Metrics ℕ
node_metrics = record {
  requests_total = 4;
  errors_total = 1;
  current_requests = 1;
  queue_pending_tokens = 1;
  queue_wait_total_ms = 12;
  queue_wait_count = 2;
  queue_length = 1;
  queue_drops_full = 0;
  queue_drops_timeout = 1;
  queue_drops_global_limit = 0;
  wedged_instances_killed_total = 0;
  hash_metrics = (codes "old", served) ∷ (codes "cold", default_metrics {P = ℕ}) ∷ [];
}

quotient_zero : (n : ℕ) → 0 / n * n ≡ 0
quotient_zero ℕ.zero = refl
quotient_zero (suc n) = rw (zero-div (suc n)) (omega arith)

from_snapshot-metrics_snapshot_example :
    (from_snapshot whole_floats (metrics_snapshot whole_floats node_metrics)
      ≡ restarted node_metrics)
    × ((args_hash : Text)
        → get_learned_memory
            (from_snapshot whole_floats (metrics_snapshot whole_floats node_metrics))
            args_hash
          ≡ get_learned_memory node_metrics args_hash)
from_snapshot-metrics_snapshot_example =
    from_snapshot-metrics_snapshot whole_floats (λ n. quotient_zero n) node_metrics
      (refl, (refl, tt))

abbrev moves : List (Text × Text)
moves =
    (codes "old", codes "first")
    ∷ (codes "old", codes "second")
    ∷ (codes "gone", codes "third")
    ∷ []

migrate_args_hashes-lookup_example :
    lookup (codes "second") (migrate_args_hashes node_metrics moves).1.hash_metrics ≡ (
      if contains_key (codes "second") node_metrics.hash_metrics
      then (if is_legacy moves (codes "second")
          then none
          else lookup (codes "second") node_metrics.hash_metrics)
      else first_source node_metrics.hash_metrics moves (codes "second"))
migrate_args_hashes-lookup_example = migrate_args_hashes-lookup node_metrics moves (codes "second")

-- The entry is copied to both new hashes, and its old hash is removed.
migrated_test :
    ((migrate_args_hashes node_metrics moves).0 ≡ 2)
    × (lookup (codes "second") (migrate_args_hashes node_metrics moves).1.hash_metrics
        ≡ some served)
    × (lookup (codes "old") (migrate_args_hashes node_metrics moves).1.hash_metrics ≡ none)
unfolding migrate_args_hashes lookup
migrated_test = (refl, refl, refl)

-- Of two decrements of an empty gauge, the second starts before the first corrects itself: it sees
-- the underflow and not zero, so that only the first corrects it.
overlapping_decrements_test : u64_incr (u64_decr (u64_decr 0)) ≡ u64_mod - 1
overlapping_decrements_test = refl
