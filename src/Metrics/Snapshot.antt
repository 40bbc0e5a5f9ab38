-- ===== src/Metrics/Snapshot.antt =====
-- src/metrics.rs: `snapshot`, which is written to a file, and `from_snapshot`, which reads it back at
-- the next start. Floating-point numbers are the parameter `Floats`. Of a snapshot, the texts that
-- identify the node, the state of its build, the counters of the process and the gauges of its
-- resources are left out; none of them is restored.
use llamesh.Prelude.{
  ℕ, String, Option, none, some, List, [], ◌∷◌, length, get_elem?, ltb, if◌then◌else◌,
}
use llamesh.Prelude.Eq.{string_key}
use llamesh.Prelude.Dict.{Dict}
use llamesh.Noise.Text.{Text, text_key}
use llamesh.Routing.{sort_by}
use llamesh.Metrics.{HashMetrics, Metrics, insert_name}

pub record HashMetricsSnapshot (P F : Type 0) : Type 0 where
  pub display_names : List String
  pub requests_total : ℕ
  pub errors_total : ℕ
  pub tokens_generated_total : ℕ
  pub avg_latency_ms : F
  pub total_latency_ms : ℕ
  pub p95_latency_ms : ℕ
  pub peak_vram_mb : ℕ
  pub peak_sysmem_mb : ℕ
  pub sample_count : ℕ
  pub parsed_model_params : Option (P × Option String)

pub record MetricsSnapshot (P F : Type 0) : Type 0 where
  pub requests_total : ℕ
  pub errors_total : ℕ
  pub current_requests : ℕ
  pub queue_length : ℕ
  pub queue_drops_full : ℕ
  pub queue_drops_timeout : ℕ
  pub queue_drops_global_limit : ℕ
  pub wedged_instances_killed_total : ℕ
  pub queue_pending_tokens : ℕ
  pub queue_wait_total_ms : ℕ
  pub queue_wait_count : ℕ
  pub hashes : Dict Text (HashMetricsSnapshot P F)

-- `l as f64 / n as f64`, or 0.0 where `n` is 0; `(x * n as f64) as u64`; and
-- `(n as f64 * 0.95).floor() as usize`.
pub record Floats : Type 1 where
  pub F : Type 0
  pub mean : ℕ → ℕ → F
  pub scaled : F → ℕ → ℕ
  pub p95_index : ℕ → ℕ

abbrev pub or_zero : Option ℕ → ℕ
or_zero none = 0
or_zero (some n) = n

-- The index is among the samples, since it is at most the one of the last.
unfoldable pub p95_of : Floats → List ℕ → ℕ
unfolding sort_by
p95_of fl [] = 0
p95_of fl (x ∷ samples) =
    or_zero (get_elem? (sort_by ltb (x ∷ samples)) (fl.p95_index (length samples)))

-- A list of names is collected into a set.
abbrev pub collect_names : List String → List String
collect_names [] = []
collect_names (name ∷ names) = insert_name name (collect_names names)

-- A loop over the entries of a map, which makes another map.
abbrev pub map_values {ℓ κ} : {A : Type ℓ} {B : Type κ} → (A → B) → Dict Text A → Dict Text B
map_values f [] = []
map_values f ((k, a) ∷ m) = (k, f a) ∷ map_values f m

module _ {P : Type 0} where
  -- The entry of a hash, and what is made of it.
  unfoldable pub hash_snapshot : (fl : Floats) → HashMetrics P → HashMetricsSnapshot P fl.F
  unfolding p95_of
  hash_snapshot fl v = record {
    display_names = v.display_names;
    requests_total = v.requests_total;
    errors_total = v.errors_total;
    tokens_generated_total = v.tokens_generated_total;
    avg_latency_ms = fl.mean v.total_latency_ms v.requests_total;
    total_latency_ms = v.total_latency_ms;
    p95_latency_ms = p95_of fl v.latency_samples;
    peak_vram_mb = v.peak_vram_mb;
    peak_sysmem_mb = v.peak_sysmem_mb;
    sample_count = v.sample_count;
    parsed_model_params = v.parsed_params;
  }

  unfoldable pub from_hash_snapshot : (fl : Floats) → HashMetricsSnapshot P fl.F → HashMetrics P
  from_hash_snapshot fl v = record {
    requests_total = v.requests_total;
    errors_total = v.errors_total;
    tokens_generated_total = v.tokens_generated_total;
    total_latency_ms =
        if ltb 0 v.total_latency_ms
        then v.total_latency_ms
        else fl.scaled v.avg_latency_ms v.requests_total;
    latency_samples = [];
    peak_vram_mb = v.peak_vram_mb;
    peak_sysmem_mb = v.peak_sysmem_mb;
    sample_count = v.sample_count;
    last_memory_update = "";
    display_names = collect_names v.display_names;
    parsed_params = v.parsed_model_params;
  }

  unfoldable pub metrics_snapshot : (fl : Floats) → Metrics P → MetricsSnapshot P fl.F
  unfolding hash_snapshot
  metrics_snapshot fl m = record {
    requests_total = m.requests_total;
    errors_total = m.errors_total;
    current_requests = m.current_requests;
    queue_length = m.queue_length;
    queue_drops_full = m.queue_drops_full;
    queue_drops_timeout = m.queue_drops_timeout;
    queue_drops_global_limit = m.queue_drops_global_limit;
    wedged_instances_killed_total = m.wedged_instances_killed_total;
    queue_pending_tokens = m.queue_pending_tokens;
    queue_wait_total_ms = m.queue_wait_total_ms;
    queue_wait_count = m.queue_wait_count;
    hashes = map_values (hash_snapshot fl) m.hash_metrics;
  }

  unfoldable pub from_snapshot : (fl : Floats) → MetricsSnapshot P fl.F → Metrics P
  unfolding from_hash_snapshot
  from_snapshot fl s = record {
    requests_total = s.requests_total;
    errors_total = s.errors_total;
    current_requests = 0;
    queue_pending_tokens = 0;
    queue_wait_total_ms = 0;
    queue_wait_count = 0;
    queue_length = 0;
    queue_drops_full = s.queue_drops_full;
    queue_drops_timeout = s.queue_drops_timeout;
    queue_drops_global_limit = s.queue_drops_global_limit;
    wedged_instances_killed_total = s.wedged_instances_killed_total;
    hash_metrics = map_values (from_hash_snapshot fl) s.hashes;
  }
