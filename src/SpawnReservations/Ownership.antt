-- ===== src/SpawnReservations/Ownership.antt =====
-- How the shared objects of a reservation and its registry entry keep in step.
use llamesh.Prelude.{
  ℕ, ◌+◌, ◌≤◌, ◌≡◌, refl, inl, inr, Bool, true, false, not, ◌&&◌, ◌||◌, Option, none, some, List,
  [], String, arith, count_by, is_some, Option-cases, if◌then◌else◌,
}
use llamesh.Prelude.Eq.{string_key, ◌==◌, ==_refl}
use llamesh.Prelude.Dict.{lookup, lookup-insert, lookup-remove}
use llamesh.SpawnReservations.{
  MemoryCommitment, ReservationState, SpawnReservation, Node, reserve, handoff, set_pid, set_ready,
  finish, mark_handed_off, update_pid, mark_ready, release_memory,
}

abbrev pub is_pending : Option MemoryCommitment → Bool
is_pending none = false
is_pending (some entry) = entry.pending

-- One reservation: the registry holds its memory exactly until it is finished, and its pending
-- admission exactly until it is finished or handed off; its callback runs at most once, and is
-- held only while it is neither.
abbrev pub Linked : Option SpawnReservation → Bool → Bool → ℕ → Type 0
Linked none present pending runs = (present ≡ false) × (runs ≡ 0)
Linked (some r) present pending runs =
    (r.memory.released ≡ r.memory.finished)
    × (present ≡ not r.memory.finished)
    × (pending ≡ (not r.memory.finished && not r.handed_off))
    × ((r.memory.on_abandon && (r.memory.finished || r.handed_off)) ≡ false)
    × (runs + (if r.memory.on_abandon then 1 else 0) ≤ 1)

abbrev pub runs_of : String → List String → ℕ
runs_of id = count_by (λ k. k == id)

abbrev pub IsLinked : Node → Type 0
IsLinked n =
    (id : String)
    → Linked (lookup id n.objects) (is_some (lookup id n.registry.entries))
        (is_pending (lookup id n.registry.entries)) (runs_of id n.woken)

-- The operations on the reservations that there are, and new ones under fresh ids.
pub data Step : Node → Node → Type 0 where
  reserves :
      (n : Node) (id key : String) (estimate : ℕ × ℕ) (has_callback : Bool)
      → lookup id n.objects ≡ none
      → Step n (reserve n id key estimate has_callback)
  hands_off :
      (n : Node) (id : String) (r : SpawnReservation)
      → lookup id n.objects ≡ some r
      → Step n (handoff n id r)
  pids :
      (n : Node) (id : String) (r : SpawnReservation) (pid : ℕ)
      → lookup id n.objects ≡ some r
      → Step n (set_pid n id r pid)
  readies :
      (n : Node) (id : String) (r : SpawnReservation)
      → lookup id n.objects ≡ some r
      → Step n (set_ready n id r)
  finishes :
      (n : Node) (id : String) (r : SpawnReservation)
      → lookup id n.objects ≡ some r
      → Step n (finish n id r)

pub data Reach (start : Node) : Node → Type 0 where
  here : Reach start start
  next : {m n : Node} → Reach start m → Step m n → Reach start n

-- The entry of an id after each registry operation on `id`.
abbrev map_entry :
    (MemoryCommitment → MemoryCommitment) → Option MemoryCommitment → Option MemoryCommitment
map_entry f none = none
map_entry f (some e) = some (f e)

module _ (s : ReservationState) (id j : String) where
  lookup-handed_off : lookup j (mark_handed_off s id).entries ≡ (
      if id == j
      then map_entry (λ e. record e { pending = false }) (lookup j s.entries)
      else lookup j s.entries)
  unfolding mark_handed_off
  lookup-handed_off = elim (Option-cases (lookup id s.entries)) [
    | inl e ↦ rw (e, mark_handed_off) (ground (arith, e, string_key.same_iff id j))
    | inr (c, e) ↦
        rw (e, mark_handed_off)
          (ground (
            arith,
            e,
            string_key.same_iff id j,
            lookup-insert id j (record c { pending = false }) s.entries,
          ))
  ]

  lookup-released :
      lookup j (release_memory s id).entries ≡ (if id == j then none else lookup j s.entries)
  unfolding release_memory
  lookup-released = elim (Option-cases (lookup id s.entries)) [
    | inl e ↦ rw (e, release_memory) (ground (arith, e, string_key.same_iff id j))
    | inr (c, e) ↦ rw (e, release_memory) (lookup-remove id j s.entries)
  ]

  marks_keep :
      (pid : ℕ)
      → (is_some (lookup j (update_pid s id pid).entries) ≡ is_some (lookup j s.entries))
        × (is_pending (lookup j (update_pid s id pid).entries) ≡ is_pending (lookup j s.entries))
        × (is_some (lookup j (mark_ready s id).entries) ≡ is_some (lookup j s.entries))
        × (is_pending (lookup j (mark_ready s id).entries) ≡ is_pending (lookup j s.entries))
  unfolding update_pid mark_ready
  marks_keep pid = elim (Option-cases (lookup id s.entries)) [
    | inl e ↦ rw e (refl, refl, refl, refl)
    | inr (c, e) ↦
        let tracked = lookup-insert id j (record c { pid = some pid }) s.entries in
        let marked = lookup-insert id j (record c { ready = true }) s.entries in
        rw (e, update_pid, mark_ready)
          (
            ground (arith, e, string_key.same_iff id j, tracked),
            ground (arith, e, string_key.same_iff id j, tracked),
            ground (arith, e, string_key.same_iff id j, marked),
            ground (arith, e, string_key.same_iff id j, marked),
          )
  ]

abbrev new_entry : String → ℕ × ℕ → MemoryCommitment
new_entry key estimate = record {
  key = key;
  pending = true;
  pid = none;
  estimate = estimate;
  ready = false;
}

abbrev new_object : Bool → SpawnReservation
new_object has_callback = record {
  memory = record { finished = false; released = false; on_abandon = has_callback };
  handed_off = false;
}

abbrev handed_object : SpawnReservation → SpawnReservation
handed_object r = record r { handed_off = true; memory = record r.memory { on_abandon = false } }

abbrev finished_object : SpawnReservation → SpawnReservation
finished_object r = record r {
  memory = record { finished = true; released = true; on_abandon = false };
}

Step-IsLinked : {m n : Node} → Step m n → IsLinked m → IsLinked n
unfolding reserve handoff set_pid set_ready finish
Step-IsLinked (reserves n id key estimate cb fresh) all j = ground (
  arith,
  all j,
  fresh,
  string_key.same_iff id j,
  lookup-insert id j (new_entry key estimate) n.registry.entries,
  lookup-insert id j (new_object cb) n.objects,
)
Step-IsLinked (hands_off n id r found) all j = ground (
  arith,
  all j,
  found,
  string_key.same_iff id j,
  lookup-handed_off n.registry id j,
  lookup-insert id j (handed_object r) n.objects,
)
Step-IsLinked (pids n id r pid found) all j = ground (arith, all j, marks_keep n.registry id j pid)
Step-IsLinked (readies n id r found) all j = ground (arith, all j, marks_keep n.registry id j 0)
Step-IsLinked (finishes n id r found) all j = ground (
  arith,
  all j,
  found,
  string_key.same_iff id j,
  lookup-released n.registry id j,
  lookup-insert id j (finished_object r) n.objects,
)

abbrev pub no_reservations : Node
no_reservations = record {
  registry = record { entries = []; revision = 0 };
  objects = [];
  woken = [];
}

-- After any reservations, handoffs, pid and readiness marks and finishes, in any order: every
-- reservation's memory is on the registry exactly until it is finished, its admission is pending
-- exactly until it is finished or handed off, an abandonment callback is held only while it is
-- neither, and has run at most once; the registry holds no other entry.
pub Reach-IsLinked : {n : Node} → Reach no_reservations n → IsLinked n
unfolding lookup
Reach-IsLinked here = λ id. (refl, refl)
Reach-IsLinked (next path step) = Step-IsLinked step (Reach-IsLinked path)

-- No callback runs for a reservation that was handed off.
pub woken-finish :
    (n : Node) (id : String) (r : SpawnReservation)
    → IsLinked n
    → lookup id n.objects ≡ some r
    → r.handed_off ≡ true
    → (finish n id r).woken ≡ n.woken
unfolding finish
woken-finish n id r all found off = ground (arith, all id)

-- Finishing is idempotent: done again on the object that it left, it changes nothing.
pub finish_twice :
    (n : Node) (id : String) (r s : SpawnReservation)
    → lookup id n.objects ≡ some r
    → lookup id (finish n id r).objects ≡ some s
    → finish (finish n id r) id s ≡ finish n id r
unfolding finish
finish_twice n id r s found again =
    ground (arith, lookup-insert id id (finished_object r) n.objects, ==_refl id)
