-- ===== src/Metrics/Migration.antt =====
-- src/metrics.rs, `migrate_args_hashes` and `legacy_args_hash`: what stands under the old hash of a
-- command line, which took its texts in any order, moves to its new hash. The digest and the bytes of
-- a text are a `Hasher`.
use llamesh.Prelude.{
  ℕ, Bool, true, false, Option, none, some, List, [], ◌∷◌, ◌++◌, length, ltb, if◌then◌else◌,
}
use llamesh.Prelude.Eq.{◌==◌}
use llamesh.Prelude.Dict.{Dict, lookup, insert, remove, contains_key}
use llamesh.Noise.Text.{Text, text_key}
use llamesh.Args.{
  ProfileArgs, Hasher, build_pre_args, compute_args_hash, is_address, is_inline_address, less_by,
}
use llamesh.Routing.{sort_by}
use llamesh.Metrics.{HashMetrics, Metrics}

-- The arguments without the address, which is the next argument where `skip_next` says so.
abbrev pub without_address : Bool → List Text → List Text
without_address skip_next [] = []
without_address true (arg ∷ args) = without_address false args
without_address false (arg ∷ args) =
    let skipped = without_address true args in
    let rest = without_address false args in
    if is_address arg then skipped else if is_inline_address arg then rest else arg ∷ rest

abbrev pub terminated : (Text → List ℕ) → List Text → List ℕ
terminated bytes [] = []
terminated bytes (arg ∷ args) = bytes arg ++ (0 ∷ terminated bytes args)

unfoldable pub legacy_args_hash : Hasher → List Text → Text
unfolding sort_by
legacy_args_hash h args =
    h.digest (terminated h.bytes (sort_by (less_by ltb) (without_address false args)))

-- The old and the new hash of each profile of the cookbook.
abbrev pub profile_hashes : Hasher → List ProfileArgs → List (Text × Text)
unfolding build_pre_args compute_args_hash legacy_args_hash
profile_hashes h [] = []
profile_hashes h (profile ∷ profiles) =
    let args = (build_pre_args profile).0 in
    (legacy_args_hash h args, compute_args_hash h args) ∷ profile_hashes h profiles

-- The copies made so far, and the old hashes to remove.
pub record Copies (P : Type 0) : Type 0 where
  pub migrated : Dict Text (HashMetrics P)
  pub legacy_hashes : List Text

module _ {P : Type 0} where
  abbrev pub clone_for_migration : HashMetrics P → HashMetrics P
  clone_for_migration m = record {
    requests_total = m.requests_total;
    errors_total = m.errors_total;
    tokens_generated_total = m.tokens_generated_total;
    total_latency_ms = m.total_latency_ms;
    latency_samples = m.latency_samples;
    peak_vram_mb = m.peak_vram_mb;
    peak_sysmem_mb = m.peak_sysmem_mb;
    sample_count = m.sample_count;
    last_memory_update = m.last_memory_update;
    display_names = m.display_names;
    parsed_params = m.parsed_params;
  }

  abbrev pub or_insert :
      Text → HashMetrics P → Dict Text (HashMetrics P) → Dict Text (HashMetrics P)
  or_insert k m entries = if contains_key k entries then entries else insert k m entries

  abbrev pub copy_found :
      Dict Text (HashMetrics P) → Text → Text → Option (HashMetrics P) → Copies P → Copies P
  copy_found hashes legacy new none c = c
  copy_found hashes legacy new (some m) c = record {
    migrated =
        if contains_key new hashes
        then c.migrated
        else or_insert new (clone_for_migration m) c.migrated;
    legacy_hashes = legacy ∷ c.legacy_hashes;
  }

  -- The loop over the profiles, on one of them.
  unfoldable pub copy_profile : Dict Text (HashMetrics P) → Text × Text → Copies P → Copies P
  unfolding lookup insert
  copy_profile hashes (legacy, new) c =
      if legacy == new then c else copy_found hashes legacy new (lookup legacy hashes) c

  unfoldable pub copy_all : Dict Text (HashMetrics P) → List (Text × Text) → Copies P → Copies P
  unfolding copy_profile
  copy_all hashes [] c = c
  copy_all hashes (pair ∷ pairs) c = copy_all hashes pairs (copy_profile hashes pair c)

  unfoldable pub remove_hashes : List Text → Dict Text (HashMetrics P) → Dict Text (HashMetrics P)
  unfolding remove
  remove_hashes [] hashes = hashes
  remove_hashes (k ∷ ks) hashes = remove k (remove_hashes ks hashes)

  unfoldable pub extend :
      Dict Text (HashMetrics P) → Dict Text (HashMetrics P) → Dict Text (HashMetrics P)
  unfolding insert
  extend [] hashes = hashes
  extend ((k, m) ∷ entries) hashes = insert k m (extend entries hashes)

  unfoldable pub migrate_args_hashes : Metrics P → List (Text × Text) → ℕ × Metrics P
  unfolding copy_all remove_hashes extend
  migrate_args_hashes m pairs =
      let copies = copy_all m.hash_metrics pairs (record { migrated = []; legacy_hashes = [] }) in
      (
        length copies.migrated,
        record m {
          hash_metrics = extend copies.migrated (remove_hashes copies.legacy_hashes m.hash_metrics);
        },
      )
