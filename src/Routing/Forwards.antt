-- ===== src/Routing/Forwards.antt =====
-- src/node_state/mod.rs: `track_peer_forward` and `PeerForwardGuard`, the counts of the forwards under
-- way that the score of a peer adds. A counter is shared by the guards of its peer.
use llamesh.Prelude.{
  ℕ, zero, suc, ◌≡◌, refl, ap, ◌∙◌, ◌+◌, ◌%◌, String, Bool, true, false, not, ◌&&◌, List, [], ◌∷◌,
  count_by, Bool-cases, inl, inr, arith, if◌then◌else◌,
}
use llamesh.Prelude.Eq.{◌==◌, string_key}
use llamesh.Prelude.Dict.{Dict, lookup, insert, lookup-insert}
use llamesh.Prelude.Word.{u64_mod, u64_incr, u64_decr}
use llamesh.Routing.Select.{pending_of}

-- A guard has the peer whose counter it shares.
pub record PeerForwardGuard : Type 0 where
  pub peer_id : String
  pub released : Bool

abbrev pub Counters : Type 0
Counters = Dict String ℕ

unfoldable pub track_peer_forward : Counters → String → PeerForwardGuard × Counters
unfolding insert
track_peer_forward counters peer_id = (
  record { peer_id = peer_id; released = false },
  insert peer_id (u64_incr (pending_of counters peer_id)) counters,
)

-- `release`, which the drop of a guard calls too.
unfoldable pub release_forward : Counters → PeerForwardGuard → PeerForwardGuard × Counters
unfolding insert
release_forward counters guard =
    if not guard.released
    then (
      record guard { released = true },
      insert guard.peer_id (u64_decr (pending_of counters guard.peer_id)) counters,
    )
    else (guard, counters)

-- A forward starts, or the guard of a forward is released, by its request or on its drop.
pub data ForwardEvent : Type 0 where
  started : String → ForwardEvent
  ended : ℕ → ForwardEvent

abbrev pub release_at : Counters → List PeerForwardGuard → ℕ → List PeerForwardGuard × Counters
unfolding release_forward
release_at counters [] i = ([], counters)
release_at counters (guard ∷ guards) zero =
    let r = release_forward counters guard in (r.0 ∷ guards, r.1)
release_at counters (guard ∷ guards) (suc i) =
    let r = release_at counters guards i in (guard ∷ r.0, r.1)

abbrev pub after_event :
    List PeerForwardGuard × Counters → ForwardEvent → List PeerForwardGuard × Counters
unfolding track_peer_forward release_at
after_event (guards, counters) (started peer_id) =
    let r = track_peer_forward counters peer_id in (r.0 ∷ guards, r.1)
after_event (guards, counters) (ended i) = release_at counters guards i

-- The latest event is the first of the list.
unfoldable pub after_forwards : List ForwardEvent → List PeerForwardGuard × Counters
unfolding after_event
after_forwards [] = ([], [])
after_forwards (event ∷ events) = after_event (after_forwards events) event

-- A guard of this peer that is not released.
abbrev pub is_live : String → PeerForwardGuard → Bool
is_live id guard = (guard.peer_id == id) && not guard.released

pending-insert :
    (counters : Counters) (peer id : String) (n : ℕ)
    → pending_of (insert peer n counters) id ≡ (if peer == id then n else pending_of counters id)
pending-insert counters peer id n =
    rw (pending_of, lookup-insert peer id n counters)
      (elim (Bool-cases (peer == id)) [ inl same ↦ rw same refl | inr other ↦ rw other refl ])

pending_same :
    (counters : Counters) (peer id : String)
    → (peer == id) ≡ true
    → pending_of counters peer ≡ pending_of counters id
pending_same counters peer id same =
    ap (λ (name : String). pending_of counters name) ((string_key.same_iff peer id).0 same)

track_peer_forward-counts :
    (counters : Counters) (peer id : String) (guards : List PeerForwardGuard)
    → pending_of counters id ≡ count_by (is_live id) guards % u64_mod
    → pending_of (track_peer_forward counters peer).1 id
      ≡ count_by (is_live id) ((track_peer_forward counters peer).0 ∷ guards) % u64_mod
unfolding track_peer_forward
track_peer_forward-counts counters peer id guards h =
    pending-insert counters peer id (u64_incr (pending_of counters peer))
    ∙ elim (Bool-cases (peer == id)) [
      | inl same ↦ rw (same, pending_same counters peer id same, h) (omega arith)
      | inr other ↦ rw other (h ∙ omega arith)
    ]

release_at-counts :
    (counters : Counters) (guards : List PeerForwardGuard) (i : ℕ) (id : String) (others : ℕ)
    → pending_of counters id ≡ (others + count_by (is_live id) guards) % u64_mod
    → pending_of (release_at counters guards i).1 id
      ≡ (others + count_by (is_live id) (release_at counters guards i).0) % u64_mod
unfolding release_at release_forward
release_at-counts counters [] i id others h = h
release_at-counts counters (guard ∷ guards) zero id others h = elim (Bool-cases guard.released) [
  | inl before ↦ rw before (rw before at h)
  | inr first ↦ rw first (
      pending-insert counters guard.peer_id id (u64_decr (pending_of counters guard.peer_id))
      ∙ elim (Bool-cases (guard.peer_id == id)) [
        | inl same ↦
            rw (same, pending_same counters guard.peer_id id same, h, first, same) (omega arith)
        | inr other ↦ rw other (h ∙ rw other refl)
      ])
]
release_at-counts counters (guard ∷ guards) (suc i) id others h =
    release_at-counts counters guards i id (others + (if is_live id guard then 1 else 0))
      (h ∙ omega arith)
    ∙ omega arith

-- After any forwards that start and end, in any order and with guards that are released more than
-- once, the count of each peer is the number of its guards that are not released, modulo 2^64.
pub after_forwards-Counted :
    (events : List ForwardEvent) (id : String)
    → pending_of (after_forwards events).1 id
      ≡ count_by (is_live id) (after_forwards events).0 % u64_mod
unfolding after_forwards after_event lookup
after_forwards-Counted [] id = omega arith
after_forwards-Counted (started peer ∷ events) id =
    track_peer_forward-counts (after_forwards events).1 peer id (after_forwards events).0
      (after_forwards-Counted events id)
after_forwards-Counted (ended i ∷ events) id =
    release_at-counts (after_forwards events).1 (after_forwards events).0 i id 0
      (after_forwards-Counted events id ∙ omega arith)
    ∙ omega arith
