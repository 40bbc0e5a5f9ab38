-- ===== src/Metrics.antt =====
-- src/metrics.rs: the counters of a node, those of each command line by its hash, their snapshot,
-- and the migration of old hashes. What was parsed of a model is a type `P`. The gauges of resources
-- and of the process are left out, and a set of names is a list without double ones.
pub mod Window
pub mod Snapshot
pub mod Restart
pub mod Migration
pub mod Moves
pub mod Tests
use llamesh.Prelude.{
  ℕ, ◌+◌, ◌-◌, ◌%◌, max, String, Bool, true, false, not, ◌&&◌, Option, none, some, is_some, List,
  [], ◌∷◌, ◌++◌, any, length, leb, eqb, if◌then◌else◌,
}
use llamesh.Prelude.Eq.{string_key, ◌==◌}
use llamesh.Prelude.Dict.{Dict, lookup, insert, remove, contains_key}
use llamesh.Prelude.Word.{u64_mod, u64_incr, u64_decr}
use llamesh.Noise.Text.{Text, text_key}

-- `fetch_add` on a `u64`.
abbrev pub fetch_add : ℕ → ℕ → ℕ
fetch_add a b = (a + b) % u64_mod

pub record HashMetrics (P : Type 0) : Type 0 where
  pub requests_total : ℕ
  pub errors_total : ℕ
  pub tokens_generated_total : ℕ
  pub total_latency_ms : ℕ
  pub latency_samples : List ℕ
  pub peak_vram_mb : ℕ
  pub peak_sysmem_mb : ℕ
  pub sample_count : ℕ
  pub last_memory_update : String
  pub display_names : List String
  pub parsed_params : Option (P × Option String)  -- with the version of llama.cpp

pub data QueueDropReason : Type 0 where
  full timeout global_limit : QueueDropReason

pub record Metrics (P : Type 0) : Type 0 where
  pub requests_total : ℕ
  pub errors_total : ℕ
  pub current_requests : ℕ
  pub queue_pending_tokens : ℕ
  pub queue_wait_total_ms : ℕ
  pub queue_wait_count : ℕ
  pub queue_length : ℕ
  pub queue_drops_full : ℕ
  pub queue_drops_timeout : ℕ
  pub queue_drops_global_limit : ℕ
  pub wedged_instances_killed_total : ℕ
  pub hash_metrics : Dict Text (HashMetrics P)

abbrev pub without_oldest : List ℕ → List ℕ
without_oldest [] = []
without_oldest (x ∷ xs) = xs

-- A name is put into a set of names.
abbrev pub insert_name : String → List String → List String
insert_name name names = if any (λ (n : String). n == name) names then names else name ∷ names

module _ {P : Type 0} where
  abbrev pub default_metrics : HashMetrics P
  default_metrics = record {
    requests_total = 0;
    errors_total = 0;
    tokens_generated_total = 0;
    total_latency_ms = 0;
    latency_samples = [];
    peak_vram_mb = 0;
    peak_sysmem_mb = 0;
    sample_count = 0;
    last_memory_update = "";
    display_names = [];
    parsed_params = none;
  }

  unfoldable pub observe_latency : HashMetrics P → ℕ → HashMetrics P
  observe_latency m ms = record m {
    total_latency_ms = fetch_add m.total_latency_ms ms;
    latency_samples =
        (if leb 100 (length m.latency_samples)
          then without_oldest m.latency_samples
          else m.latency_samples)
        ++ (ms ∷ []);
  }

  unfoldable pub observe_forwarded_latency : HashMetrics P → ℕ → HashMetrics P
  observe_forwarded_latency m ms = record m { total_latency_ms = fetch_add m.total_latency_ms ms }

  unfoldable pub observe_memory : HashMetrics P → ℕ → ℕ → String → HashMetrics P
  observe_memory m vram_mb sysmem_mb now = record m {
    peak_vram_mb = max m.peak_vram_mb vram_mb;
    peak_sysmem_mb = max m.peak_sysmem_mb sysmem_mb;
    sample_count = u64_incr m.sample_count;
    last_memory_update = now;
  }

  unfoldable pub add_display_name : HashMetrics P → String → HashMetrics P
  add_display_name m name = record m { display_names = insert_name name m.display_names }

  abbrev pub served_params : Option (P × Option String) → Option String → Option P
  served_params none current = none
  served_params (some (params, none)) current = some params
  served_params (some (params, some stored)) none = some params
  served_params (some (params, some stored)) (some current) =
      if not (stored == current) then none else some params

  unfoldable pub get_parsed_params : HashMetrics P → Option String → Option P
  get_parsed_params m current = served_params m.parsed_params current

  unfoldable pub record_queue_drop : Metrics P → QueueDropReason → Metrics P
  record_queue_drop m full = record m { queue_drops_full = u64_incr m.queue_drops_full }
  record_queue_drop m timeout = record m { queue_drops_timeout = u64_incr m.queue_drops_timeout }
  record_queue_drop m global_limit = record m {
    queue_drops_global_limit = u64_incr m.queue_drops_global_limit;
  }

  unfoldable pub inc_requests : Metrics P → Metrics P
  inc_requests m = record m {
    requests_total = u64_incr m.requests_total;
    current_requests = u64_incr m.current_requests;
  }

  -- An underflow is corrected by a second access.
  unfoldable pub dec_current_requests : Metrics P → Metrics P
  dec_current_requests m = record m {
    current_requests =
        if eqb m.current_requests 0
        then u64_incr (u64_decr m.current_requests)
        else u64_decr m.current_requests;
  }

  unfoldable pub observe_queue_wait : Metrics P → ℕ → Metrics P
  observe_queue_wait m ms = record m {
    queue_wait_total_ms = fetch_add m.queue_wait_total_ms ms;
    queue_wait_count = u64_incr m.queue_wait_count;
  }

  abbrev pub learned_of : Option (HashMetrics P) → Option (ℕ × ℕ)
  learned_of none = none
  learned_of (some m) =
      if eqb m.sample_count 0 then none else some (m.peak_vram_mb, m.peak_sysmem_mb)

  unfoldable pub get_learned_memory : Metrics P → Text → Option (ℕ × ℕ)
  get_learned_memory m args_hash = learned_of (lookup args_hash m.hash_metrics)

  -- The entry of a hash is made where there is none; the caller shares the one that then stands there.
  unfoldable pub get_hash_metrics : Metrics P → Text → Metrics P
  get_hash_metrics m args_hash =
      if contains_key args_hash m.hash_metrics
      then m
      else record m { hash_metrics = insert args_hash default_metrics m.hash_metrics }
