-- ===== src/SpawnReservations/Counts.antt =====
-- How the registry's operations move the pending counts by which admission is decided.
use llamesh.Prelude.{
  ℕ, ◌+◌, ◌≡◌, refl, ap, Option-cases, inl, inr, Bool, true, false, none, some, String, arith,
  if◌then◌else◌,
}
use llamesh.Prelude.Eq.{string_key, ◌==◌}
use llamesh.Prelude.Dict.{
  Distinct, lookup, insert, remove, count_values, weight, count_values-insert, count_values-remove,
}
use llamesh.SpawnReservations.{
  MemoryCommitment, ReservationState, pending_for, profile_count, node_total, add_entry,
  mark_handed_off, update_pid, mark_ready, release_memory,
}

module _ (p : MemoryCommitment → Bool) (state : ReservationState) (d : Distinct state.entries) where
  insert_fresh :
      (id : String) (entry : MemoryCommitment)
      → lookup id state.entries ≡ none
      → count_values p (insert id entry state.entries)
        ≡ count_values p state.entries + (if p entry then 1 else 0)
  insert_fresh id entry fresh =
      ground (arith, count_values-insert p id entry state.entries d, ap (weight p) fresh)

  insert_over :
      (id : String) (old entry : MemoryCommitment)
      → lookup id state.entries ≡ some old
      → count_values p (insert id entry state.entries) + (if p old then 1 else 0)
        ≡ count_values p state.entries + (if p entry then 1 else 0)
  insert_over id old entry found =
      ground (arith, count_values-insert p id entry state.entries d, ap (weight p) found)

  remove_found :
      (id : String) (old : MemoryCommitment)
      → lookup id state.entries ≡ some old
      → count_values p (remove id state.entries) + (if p old then 1 else 0)
        ≡ count_values p state.entries
  remove_found id old found =
      ground (arith, count_values-remove p id state.entries d, ap (weight p) found)

abbrev is_pending : MemoryCommitment → Bool
is_pending entry = entry.pending

-- A new reservation adds one pending spawn to its key and to the node, and none to another key.
pub add_entry_counts :
    (state : ReservationState) (id key other : String) (estimate : ℕ × ℕ)
    → Distinct state.entries
    → lookup id state.entries ≡ none
    → (node_total (add_entry state id key estimate) ≡ node_total state + 1)
      × (profile_count (add_entry state id key estimate) other
          ≡ profile_count state other + (if key == other then 1 else 0))
unfolding add_entry node_total profile_count
add_entry_counts state id key other estimate d fresh = (
  insert_fresh is_pending state d id _ fresh,
  insert_fresh (pending_for other) state d id _ fresh,
)

-- A handoff takes a pending reservation out of both counts, and a second one changes neither.
pub handed_off_counts :
    (state : ReservationState) (id other : String) (entry : MemoryCommitment)
    → Distinct state.entries
    → lookup id state.entries ≡ some entry
    → (node_total (mark_handed_off state id) + (if entry.pending then 1 else 0) ≡ node_total state)
      × (profile_count (mark_handed_off state id) other + (if pending_for other entry then 1 else 0)
          ≡ profile_count state other)
unfolding mark_handed_off node_total profile_count
handed_off_counts state id other entry d found =
    let done = record entry { pending = false } in
    rw (found, mark_handed_off)
      (
        ground (arith, insert_over is_pending state d id entry done found),
        ground (arith, insert_over (pending_for other) state d id entry done found),
      )

-- A pid or a readiness mark moves neither count.
pub marks_counts :
    (state : ReservationState) (id other : String) (pid : ℕ)
    → Distinct state.entries
    → (node_total (update_pid state id pid) ≡ node_total state)
      × (profile_count (update_pid state id pid) other ≡ profile_count state other)
      × (node_total (mark_ready state id) ≡ node_total state)
      × (profile_count (mark_ready state id) other ≡ profile_count state other)
unfolding update_pid mark_ready node_total profile_count
marks_counts state id other pid d = elim (Option-cases (lookup id state.entries)) [
  | inl e ↦ rw e (refl, refl, refl, refl)
  | inr (old, e) ↦
      let tracked = record old { pid = some pid } in
      let marked = record old { ready = true } in
      rw (e, update_pid, mark_ready)
        (
          ground (arith, insert_over is_pending state d id old tracked e),
          ground (arith, insert_over (pending_for other) state d id old tracked e),
          ground (arith, insert_over is_pending state d id old marked e),
          ground (arith, insert_over (pending_for other) state d id old marked e),
        )
]

-- A release takes the entry out of the counts if it was still pending.
pub released_counts :
    (state : ReservationState) (id other : String) (entry : MemoryCommitment)
    → Distinct state.entries
    → lookup id state.entries ≡ some entry
    → (node_total (release_memory state id) + (if entry.pending then 1 else 0) ≡ node_total state)
      × (profile_count (release_memory state id) other + (if pending_for other entry then 1 else 0)
          ≡ profile_count state other)
unfolding release_memory node_total profile_count
released_counts state id other entry d found =
    rw (found, release_memory)
      (
        remove_found is_pending state d id entry found,
        remove_found (pending_for other) state d id entry found,
      )
