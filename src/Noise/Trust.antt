-- ===== src/Noise/Trust.antt =====
-- src/noise/known_peers.rs: what handshakes do to the pins. `verify` is one call of `verify_peer` with
-- no other between its two accesses; in `verify_all` the accesses of many calls interleave.
use mathlib.Core.Option.{some-ne-none}
use llamesh.Prelude.{
  ℕ, suc, ◌≡◌, inl, inr, refl, sym, ap, ◌∙◌, Bool, false, not, Option, none, some, List, [], ◌∷◌,
  any, get_elem?, arith, Bool-cases, if◌then◌else◌,
}
use llamesh.Prelude.Eq.{◌==◌}
use llamesh.Prelude.Dict.{lookup, lookup-insert}
use llamesh.Noise.Text.{Text, text_key}
use llamesh.Noise.KnownPeers.{
  Calendar, FileWrite, KnownPeer, KnownPeers, ClusterNoiseConfig, NoiseError, TrustDecision,
  trusted, tofu_accepted, rejected, key_mismatch, normalize_public_key, is_allowed, check_known,
  check_peer, add_peer, verify_peer, save,
}

-- A completed handshake with what the world was then: the configuration, the clock and the disk.
pub record Handshake : Type 0 where
  pub node_id : Text
  pub public_key : Text
  pub config : ClusterNoiseConfig
  pub now : ℕ
  pub write : FileWrite

abbrev pub verify : Calendar → KnownPeers → Handshake → KnownPeers × Option NoiseError
verify calendar s h = verify_peer calendar h.write h.now h.config s h.node_id h.public_key

-- What concurrent handshakes share: the known peers, and the handshakes that were accepted on first
-- use and have still to add their peer.
pub record Handshakes : Type 0 where
  pub known : KnownPeers
  pub accepted : List Handshake

-- `verify_peer` looks under the read lock, and adds a new peer under a write lock of its own.
pub data Access : Type 0 where
  checks : Handshake → Access
  adds : ℕ → Access

abbrev pub after_check : TrustDecision → Handshakes → Handshake → Handshakes
after_check tofu_accepted v h = record v { accepted = h ∷ v.accepted }
after_check trusted v h = v
after_check rejected v h = v
after_check (key_mismatch known) v h = v

unfoldable pub check_access : Handshakes → Handshake → Handshakes
unfolding check_peer
check_access v h =
    after_check (check_peer v.known h.node_id h.public_key h.config.tofu h.config.allowed_keys) v h

abbrev pub without_at : ℕ → List Handshake → List Handshake
without_at i [] = []
without_at ℕ.zero (h ∷ hs) = hs
without_at (suc i) (h ∷ hs) = h ∷ without_at i hs

-- The save that follows the insertion belongs to the same step: it writes all that is known then.
unfoldable pub add_found : Calendar → KnownPeers → Option Handshake → KnownPeers
unfolding add_peer
add_found calendar s none = s
add_found calendar s (some h) = (add_peer calendar h.write h.now s h.node_id h.public_key).0

unfoldable pub add_access : Calendar → Handshakes → ℕ → Handshakes
unfolding add_found
add_access calendar v i = record {
  known = add_found calendar v.known (get_elem? v.accepted i);
  accepted = without_at i v.accepted;
}

-- The accesses of any handshakes, interleaved in any way.
unfoldable pub verify_all : Calendar → Handshakes → List Access → Handshakes
unfolding check_access add_access
verify_all calendar v [] = v
verify_all calendar v (checks h ∷ rest) = verify_all calendar (check_access v h) rest
verify_all calendar v (adds i ∷ rest) = verify_all calendar (add_access calendar v i) rest

-- Only a node without a pin is accepted as new.
accepted_new :
    (passes : Bool) (o : Option KnownPeer) (presented : Text) (tofu : Bool) (allowed : List Text)
    → (if not passes then rejected else check_known o presented tofu allowed) ≡ tofu_accepted
    → o ≡ none
accepted_new passes none presented tofu allowed e = refl
accepted_new passes (some k) presented tofu allowed e = ground arith

-- Whether a handshake that was accepted on first use is for this node.
abbrev pub is_awaited : Text → List Handshake → Bool
is_awaited node hs = any (λ (h : Handshake). h.node_id == node) hs

-- A node has its pin, and no handshake is about to add it.
abbrev Pinned : Text → KnownPeer → Handshakes → Type 0
Pinned node p v = (lookup node v.known.peers ≡ some p) × (is_awaited node v.accepted ≡ false)

after_check-Pinned :
    (d : TrustDecision) (v : Handshakes) (h : Handshake) (node : Text) (p : KnownPeer)
    → ((d ≡ tofu_accepted) → lookup h.node_id v.known.peers ≡ none)
    → Pinned node p v
    → Pinned node p (after_check d v h)
after_check-Pinned trusted v h node p fresh f = f
after_check-Pinned rejected v h node p fresh f = f
after_check-Pinned (key_mismatch k) v h node p fresh f = f
after_check-Pinned tofu_accepted v h node p fresh f = elim (Bool-cases (h.node_id == node)) [
  | inl same ↦ absurd (
      some-ne-none p (
        sym f.0
        ∙ ap (λ (id : Text). lookup id v.known.peers)
            (sym ((text_key.same_iff h.node_id node).0 same))
        ∙ fresh refl))
  | inr other ↦ (f.0, rw other f.1)
]

check_access-Pinned :
    (v : Handshakes) (h : Handshake) (node : Text) (p : KnownPeer)
    → Pinned node p v
    → Pinned node p (check_access v h)
unfolding check_access check_peer
check_access-Pinned v h node p f =
    after_check-Pinned
      (check_peer v.known h.node_id h.public_key h.config.tofu h.config.allowed_keys) v h node p
      (accepted_new (is_allowed (normalize_public_key h.public_key) h.config.allowed_keys)
        (lookup h.node_id v.known.peers) (normalize_public_key h.public_key) h.config.tofu
        h.config.allowed_keys)
      f

is_awaited-without_at :
    (node : Text) (i : ℕ) (hs : List Handshake)
    → is_awaited node hs ≡ false
    → is_awaited node (without_at i hs) ≡ false
is_awaited-without_at node i [] a = refl
is_awaited-without_at node ℕ.zero (h ∷ hs) a = ground arith
is_awaited-without_at node (suc i) (h ∷ hs) a = ground (arith, is_awaited-without_at node i hs)

-- Whoever is added next is another node.
add_found-keeps :
    (calendar : Calendar) (s : KnownPeers) (hs : List Handshake) (i : ℕ) (node : Text)
    (p : KnownPeer)
    → is_awaited node hs ≡ false
    → lookup node s.peers ≡ some p
    → lookup node (add_found calendar s (get_elem? hs i)).peers ≡ some p
unfolding add_found add_peer save
add_found-keeps calendar s [] i node p a f = f
add_found-keeps calendar s (h ∷ hs) ℕ.zero node p a f = ground (
  arith,
  lookup-insert h.node_id node
      (record { node_id = h.node_id; public_key = h.public_key; first_seen = h.now }) s.peers,
)
add_found-keeps calendar s (h ∷ hs) (suc i) node p a f =
    add_found-keeps calendar s hs i node p (ground arith) f

-- The key that a node was first seen with stays its key through the accesses of any handshakes of any
-- nodes, however they interleave, unless a handshake for that node was accepted on first use before
-- and has still to add it: no later handshake replaces or removes the entry.
pub verify_all-keeps :
    (calendar : Calendar) (accesses : List Access) (v : Handshakes) (node : Text) (p : KnownPeer)
    → is_awaited node v.accepted ≡ false
    → lookup node v.known.peers ≡ some p
    → lookup node (verify_all calendar v accesses).known.peers ≡ some p
unfolding verify_all
verify_all-keeps calendar [] v node p a f = f
verify_all-keeps calendar (checks h ∷ rest) v node p a f =
    let kept = check_access-Pinned v h node p (f, a) in
    verify_all-keeps calendar rest (check_access v h) node p kept.1 kept.0
verify_all-keeps calendar (adds i ∷ rest) v node p a f =
    verify_all-keeps calendar rest (add_access calendar v i) node p
      (unfold add_access in is_awaited-without_at node i v.accepted a)
      (unfold add_access in add_found-keeps calendar v.known v.accepted i node p a f)
