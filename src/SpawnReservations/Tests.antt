-- ===== src/SpawnReservations/Tests.antt =====
-- The theorems on the reservations at concrete inputs.
use llamesh.Prelude.{refl, true, false, none, [], ◌∷◌}
use llamesh.Prelude.Eq.{string_key}
use llamesh.Prelude.Dict.{lookup, insert, remove}
use llamesh.SpawnReservations.{
  MemoryCommitment, ReservationState, SpawnReservation, Node, reserve, handoff,
}
use llamesh.SpawnReservations.Ownership.{
  IsLinked, Reach, here, next, reserves, finishes, no_reservations, Reach-IsLinked, woken-finish,
  finish_twice,
}
use llamesh.SpawnReservations.Ownership

abbrev loading : MemoryCommitment
loading = record { key = "m:p"; pending = true; pid = none; estimate = (400, 800); ready = false }

abbrev state : ReservationState
state = record { entries = ("r1", loading) ∷ []; revision = 1 }

abbrev reserved : Node
reserved = reserve no_reservations "r1" "m:p" (400, 800) true

Reach-IsLinked_example : IsLinked reserved
unfolding lookup
Reach-IsLinked_example =
    Reach-IsLinked (next here (reserves no_reservations "r1" "m:p" (400, 800) true refl))

abbrev guard : SpawnReservation
guard = record {
  memory = record { finished = false; released = false; on_abandon = true };
  handed_off = false;
}

abbrev handed : SpawnReservation
handed = record {
  memory = record { finished = false; released = false; on_abandon = false };
  handed_off = true;
}

abbrev after_handoff : Node
after_handoff = handoff reserved "r1" guard

after_handoff-IsLinked : IsLinked after_handoff
unfolding lookup reserve insert remove
after_handoff-IsLinked = Reach-IsLinked (
    next (next here (reserves no_reservations "r1" "m:p" (400, 800) true refl))
      (Ownership.hands_off _ "r1" guard refl))
