-- ===== src/SpawnReservations.antt =====
-- src/node_state/spawn_reservations.rs: the registry of pending spawns and of the memory that
-- spawned processes hold. Each registry operation runs under the leaf mutex and is one step. The
-- shared objects that refer to the registry (`MemoryReservation`, `SpawnReservation`) live in a
-- store by reservation id; the ULID of a new reservation is a parameter.
pub mod Counts
pub mod Revision
pub mod Ownership
pub mod Tests
use llamesh.Prelude.{
  ℕ, zero, suc, ◌+◌, ◌%◌, Bool, true, false, not, ◌&&◌, Option, none, some, List, [], ◌∷◌, String,
  count_by, eqb, if◌then◌else◌,
}
use llamesh.Prelude.Word.{u64_incr}
use llamesh.Prelude.Eq.{string_key, ◌==◌}
use llamesh.Prelude.Dict.{Dict, lookup, insert, remove, count_values}

pub record MemoryCommitment : Type 0 where
  pub key : String
  pub pending : Bool
  pub pid : Option ℕ
  pub estimate : ℕ × ℕ
  pub ready : Bool

-- `ReservationState` and `ReservationSnapshot`, which have the same fields
pub record ReservationState : Type 0 where
  pub entries : Dict String MemoryCommitment
  pub revision : ℕ

abbrev pub pending_for : String → MemoryCommitment → Bool
pending_for key entry = entry.pending && entry.key == key

-- `ReservationSnapshot::profile_count`
unfoldable pub profile_count : ReservationState → String → ℕ
profile_count state key = count_values (pending_for key) state.entries

-- `ReservationSnapshot::node_total`
unfoldable pub node_total : ReservationState → ℕ
node_total state = count_values (λ entry. entry.pending) state.entries

unfoldable pub snapshot : ReservationState → ReservationState
snapshot state = record { entries = state.entries; revision = state.revision }

-- `f` runs under the registry's lock; its result is `f tt`.
unfoldable pub with_revision {ℓ} : {T : Type ℓ} → ReservationState → ℕ → (Unit {0} → T) → Option T
with_revision state revision f = if eqb state.revision revision then some (f tt) else none

-- `revision.wrapping_add(1)` with the entries written.
abbrev pub commit : ReservationState → Dict String MemoryCommitment → ReservationState
commit state entries = record { entries = entries; revision = u64_incr state.revision }

-- The registry's part of `reserve`.
unfoldable pub add_entry : ReservationState → String → String → ℕ × ℕ → ReservationState
add_entry state id key estimate = commit state (
    insert id (record { key = key; pending = true; pid = none; estimate = estimate; ready = false })
      state.entries)

abbrev handed_off_found : ReservationState → String → Option MemoryCommitment → ReservationState
handed_off_found state id none = state
handed_off_found state id (some entry) =
    if entry.pending
    then commit state (insert id (record entry { pending = false }) state.entries)
    else state

unfoldable pub mark_handed_off : ReservationState → String → ReservationState
mark_handed_off state id = handed_off_found state id (lookup id state.entries)

abbrev has_pid : Option ℕ → ℕ → Bool
has_pid none pid = false
has_pid (some p) pid = eqb p pid

abbrev pid_found : ReservationState → String → ℕ → Option MemoryCommitment → ReservationState
pid_found state id pid none = state
pid_found state id pid (some entry) =
    if not (has_pid entry.pid pid)
    then commit state (insert id (record entry { pid = some pid }) state.entries)
    else state

unfoldable pub update_pid : ReservationState → String → ℕ → ReservationState
update_pid state id pid = pid_found state id pid (lookup id state.entries)

abbrev ready_found : ReservationState → String → Option MemoryCommitment → ReservationState
ready_found state id none = state
ready_found state id (some entry) =
    if not entry.ready
    then commit state (insert id (record entry { ready = true }) state.entries)
    else state

unfoldable pub mark_ready : ReservationState → String → ReservationState
mark_ready state id = ready_found state id (lookup id state.entries)

abbrev release_found : ReservationState → String → Option MemoryCommitment → ReservationState
release_found state id none = state
release_found state id (some entry) = commit state (remove id state.entries)

unfoldable pub release_memory : ReservationState → String → ReservationState
release_memory state id = release_found state id (lookup id state.entries)

-- `MemoryReservation`; `on_abandon` says that a callback is still held.
pub record MemoryReservation : Type 0 where
  pub finished : Bool
  pub released : Bool
  pub on_abandon : Bool

-- One reservation's shared objects: the token, and the guard's `handed_off` flag.
pub record SpawnReservation : Type 0 where
  pub memory : MemoryReservation
  pub handed_off : Bool

-- The registry, the objects by reservation id, and the ids whose callback ran, newest first.
pub record Node : Type 0 where
  pub registry : ReservationState
  pub objects : Dict String SpawnReservation
  pub woken : List String

unfoldable pub reserve : Node → String → String → ℕ × ℕ → Bool → Node
unfolding add_entry
reserve n id key estimate has_callback = record n {
  registry = add_entry n.registry id key estimate;
  objects =
      insert id
        (record {
          memory = record { finished = false; released = false; on_abandon = has_callback };
          handed_off = false;
        })
        n.objects;
}

-- `SpawnReservation::handoff`
unfoldable pub handoff : Node → String → SpawnReservation → Node
handoff n id r = if r.handed_off then n else record n {
  registry = mark_handed_off n.registry id;
  objects =
      insert id (record r { handed_off = true; memory = record r.memory { on_abandon = false } })
        n.objects;
}

-- `MemoryReservation::set_pid`
unfoldable pub set_pid : Node → String → SpawnReservation → ℕ → Node
set_pid n id r pid =
    if r.memory.finished then n else record n { registry = update_pid n.registry id pid }

-- `MemoryReservation::mark_ready`
unfoldable pub set_ready : Node → String → SpawnReservation → Node
set_ready n id r = if r.memory.finished then n else record n { registry = mark_ready n.registry id }

-- `MemoryReservation::finish`, which `Drop` calls too
unfoldable pub finish : Node → String → SpawnReservation → Node
finish n id r = if r.memory.finished then n else record {
  registry = release_memory n.registry id;
  objects =
      insert id
        (record r { memory = record { finished = true; released = true; on_abandon = false } })
        n.objects;
  woken = if r.memory.on_abandon then id ∷ n.woken else n.woken;
}
