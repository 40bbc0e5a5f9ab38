-- ===== src/Noise/RoundTrip.antt =====
-- src/noise/known_peers.rs: a restart keeps every pin.
use mathlib.Core.Path.{subst}
use llamesh.Prelude.{
  ℕ, suc, get_elem?, ◌≡◌, refl, sym, ap, ◌⊎◌, inl, inr, Bool, true, Option, none, some, List, [],
  ◌∷◌, All, Bool-cases,
}
use llamesh.Prelude.Eq.{◌==◌}
use llamesh.Prelude.Dict.{Dict, lookup, insert, remove, Distinct, insert-Distinct}
use llamesh.Noise.Text.{Text, text_key}
use llamesh.Noise.KnownPeers.{
  Calendar, KnownPeer, KnownPeers, TrustDecision, trusted, tofu_accepted, rejected, key_mismatch,
  add_peer, check_peer, save, content, load_or_create,
}
use llamesh.Noise.Trust.{
  Handshake, Handshakes, Access, checks, adds, after_check, check_access, add_found, add_access,
  without_at, verify_all,
}
use llamesh.Noise.Parsing.{IsCalendar, IsEntry, IsWritable, parse_file-content}

-- The file holds the pins in memory, and can be read back; before the first save there is neither.
pub record IsStored (calendar : Calendar) (s : KnownPeers) : Type 0 where
  pub distinct : Distinct s.peers
  pub entries : All IsEntry s.peers
  pub stored : (s ≡ record { peers = []; file = none }) ⊎ (s.file ≡ some (content calendar s.peers))

-- A handshake under a name and a key that the file can hold, whose save succeeds if it makes one.
abbrev pub IsSafe : Handshake → Type 0
IsSafe h = IsWritable h.node_id h.public_key × ((text : Text) → h.write text ≡ (some text, true))

remove-IsEntry : (id : Text) (m : Dict Text KnownPeer) → All IsEntry m → All IsEntry (remove id m)
unfolding remove
remove-IsEntry id [] e = tt
remove-IsEntry id ((j, p) ∷ m) (e, es) = elim (Bool-cases (j == id)) [
  | inl t ↦ rw t (remove-IsEntry id m es)
  | inr t ↦ rw t (e, remove-IsEntry id m es)
]

-- What an interleaving of handshakes has: a file that holds the pins, and safe handshakes to add.
record AreStored (calendar : Calendar) (v : Handshakes) : Type 0 where
  pub known : IsStored calendar v.known
  pub safe : All IsSafe v.accepted

add_found-IsStored :
    (calendar : Calendar) (s : KnownPeers) (hs : List Handshake) (i : ℕ)
    → All IsSafe hs
    → IsStored calendar s
    → IsStored calendar (add_found calendar s (get_elem? hs i))
unfolding add_found add_peer save insert
add_found-IsStored calendar s [] i safe st = st
add_found-IsStored calendar s (h ∷ hs) (suc i) safe st =
    add_found-IsStored calendar s hs i safe.1 st
add_found-IsStored calendar s (h ∷ hs) ℕ.zero ((w, good), rest) st = record {
  distinct = insert-Distinct h.node_id added s.peers st.distinct;
  entries = ((refl, w), remove-IsEntry h.node_id s.peers st.entries);
  stored = inr (
      ap (λ (r : Option Text × Bool). r.0)
        (good (content calendar (insert h.node_id added s.peers))));
}
  where
    added : KnownPeer
    added = record { node_id = h.node_id; public_key = h.public_key; first_seen = h.now }

without_at-IsSafe : (i : ℕ) (hs : List Handshake) → All IsSafe hs → All IsSafe (without_at i hs)
without_at-IsSafe i [] a = tt
without_at-IsSafe ℕ.zero (h ∷ hs) a = a.1
without_at-IsSafe (suc i) (h ∷ hs) a = (a.0, without_at-IsSafe i hs a.1)

after_check-IsSafe :
    (d : TrustDecision) (v : Handshakes) (h : Handshake)
    → IsSafe h
    → All IsSafe v.accepted
    → All IsSafe (after_check d v h).accepted
after_check-IsSafe trusted v h s a = a
after_check-IsSafe rejected v h s a = a
after_check-IsSafe (key_mismatch k) v h s a = a
after_check-IsSafe tofu_accepted v h s a = (s, a)

after_check-known :
    (d : TrustDecision) (v : Handshakes) (h : Handshake) → (after_check d v h).known ≡ v.known
after_check-known trusted v h = refl
after_check-known rejected v h = refl
after_check-known (key_mismatch k) v h = refl
after_check-known tofu_accepted v h = refl

-- Accesses of safe handshakes only.
abbrev pub IsSafeAccess : Access → Type 0
IsSafeAccess (checks h) = IsSafe h
IsSafeAccess (adds i) = Unit

verify_all-AreStored :
    (calendar : Calendar) (accesses : List Access) (v : Handshakes)
    → All IsSafeAccess accesses
    → AreStored calendar v
    → AreStored calendar (verify_all calendar v accesses)
unfolding verify_all check_access add_access
verify_all-AreStored calendar [] v safe i = i
verify_all-AreStored calendar (checks h ∷ rest) v (safe, others) i =
    let d = check_peer v.known h.node_id h.public_key h.config.tofu h.config.allowed_keys in
    verify_all-AreStored calendar rest (check_access v h) others (record {
      known = subst (λ k. IsStored calendar k) (sym (after_check-known d v h)) i.known;
      safe = after_check-IsSafe d v h safe i.safe;
    })
verify_all-AreStored calendar (adds n ∷ rest) v (safe, others) i =
    verify_all-AreStored calendar rest (add_access calendar v n) others (record {
      known = add_found-IsStored calendar v.known v.accepted n i.safe i.known;
      safe = without_at-IsSafe n v.accepted i.safe;
    })

abbrev pub no_peers : Handshakes
no_peers = record { known = record { peers = []; file = none }; accepted = [] }

-- A restart keeps every pin: after any interleaving of handshakes under names and keys that the file
-- can hold, whose saves succeed, loading the file again gives the same entry for every name as was in
-- memory.
pub load_or_create-verify_all :
    (calendar : Calendar) (now : ℕ) (accesses : List Access)
    → IsCalendar calendar
    → All IsSafeAccess accesses
    → (s : KnownPeers) × (load_or_create calendar now true
          (verify_all calendar no_peers accesses).known.file
        ≡ some s)
      × ((node : Text)
          → lookup node s.peers ≡ lookup node (verify_all calendar no_peers accesses).known.peers)
unfolding load_or_create
load_or_create-verify_all calendar now accesses law safe = elim i.stored [
  | inl e ↦ rw e (_, refl, λ node. refl)
  | inr e ↦
      rw e
        (_, refl, λ node. parse_file-content calendar now final.peers node law i.distinct i.entries)
]
  where
    final : KnownPeers
    final = (verify_all calendar no_peers accesses).known

    i : IsStored calendar final
    i =
        (verify_all-AreStored calendar accesses no_peers safe (record {
          known = record { distinct = tt; entries = tt; stored = inl refl };
          safe = tt;
        })).known
