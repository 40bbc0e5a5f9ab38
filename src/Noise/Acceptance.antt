-- ===== src/Noise/Acceptance.antt =====
-- src/noise/known_peers.rs, `verify_peer`: which handshakes are accepted, by one call with no other in
-- between.
use mathlib.Core.Option.{some-ne-none}
use mathlib.Core.List.{cons≢nil}
use llamesh.Prelude.{
  ◌≡◌, ◌↔◌, ◌⊎◌, inl, inr, refl, sym, true, false, not, Option, none, some, List, [], ◌∷◌, any,
  arith, Bool-cases, if◌then◌else◌,
}
use llamesh.Prelude.Eq.{◌==◌}
use llamesh.Prelude.Dict.{lookup, insert}
use llamesh.Noise.Text.{Text, text_key}
use llamesh.Noise.KnownPeers.{
  Calendar, KnownPeer, KnownPeers, TrustDecision, tofu_accepted, rejected, normalize_public_key,
  is_allowed, check_known, check_peer, handle_decision, add_peer, verify_peer, save, content,
}
use llamesh.Noise.Trust.{Handshake, verify}

-- The key is one of the list, up to the old prefix.
abbrev pub IsListed : Text → List Text → Type 0
IsListed key [] = ⊥
IsListed key (k ∷ keys) = (normalize_public_key k ≡ normalize_public_key key) ⊎ IsListed key keys

-- The conditions on a handshake: its key is listed, if keys are pinned; and its node is known by that
-- key, or it is new, its key is listed or trust on first use is on, and its entry is saved.
abbrev pub IsPinned : Handshake → Type 0
IsPinned h = (h.config.allowed_keys ≡ []) ⊎ IsListed h.public_key h.config.allowed_keys

abbrev pub entry_of : Handshake → KnownPeer
entry_of h = record { node_id = h.node_id; public_key = h.public_key; first_seen = h.now }

abbrev pub IsTrusted : Calendar → KnownPeers → Handshake → Option KnownPeer → Type 0
IsTrusted calendar s h (some known) =
    normalize_public_key known.public_key ≡ normalize_public_key h.public_key
IsTrusted calendar s h none =
    (IsListed h.public_key h.config.allowed_keys ⊎ (h.config.tofu ≡ true))
    × ((h.write (content calendar (insert h.node_id (entry_of h) s.peers))).1 ≡ true)

abbrev pub IsAccepted : Calendar → KnownPeers → Handshake → Type 0
unfolding lookup insert
IsAccepted calendar s h = IsPinned h × IsTrusted calendar s h (lookup h.node_id s.peers)

is_allowed_iff :
    (key : Text) (keys : List Text)
    → (any (λ (k : Text). normalize_public_key k == normalize_public_key key) keys ≡ true)
      ↔ IsListed key keys
is_allowed_iff key [] = (λ h. absurd (ground arith), λ h. absurd h)
is_allowed_iff key (k ∷ keys) = ground (
  arith,
  is_allowed_iff key keys,
  text_key.same_iff (normalize_public_key k) (normalize_public_key key),
)

-- What `check_peer` decides by the pin of a node.
abbrev decided : Handshake → Option KnownPeer → TrustDecision
decided h o =
    if not (is_allowed (normalize_public_key h.public_key) h.config.allowed_keys)
    then rejected
    else check_known o (normalize_public_key h.public_key) h.config.tofu h.config.allowed_keys

unlisted :
    (key k : Text) (keys : List Text)
    → is_allowed (normalize_public_key key) (k ∷ keys) ≡ false
    → ¬ (((k ∷ keys) ≡ []) ⊎ IsListed key (k ∷ keys))
unlisted key k keys t (inl e) = cons≢nil e
unlisted key k keys t (inr l) = absurd (ground (arith, (is_allowed_iff key (k ∷ keys)).1 l))

added_iff :
    (calendar : Calendar) (s : KnownPeers) (h : Handshake)
    → ((handle_decision calendar h.write h.now s h.node_id h.public_key tofu_accepted).1 ≡ none)
      ↔ ((h.write (content calendar (insert h.node_id (entry_of h) s.peers))).1 ≡ true)
unfolding add_peer save
added_iff calendar s h = ground arith

decided-IsAccepted :
    (calendar : Calendar) (s : KnownPeers) (h : Handshake) (keys : List Text) (o : Option KnownPeer)
    → keys ≡ h.config.allowed_keys
    → ((handle_decision calendar h.write h.now s h.node_id h.public_key (decided h o)).1 ≡ none)
      ↔ (IsPinned h × IsTrusted calendar s h o)
unfolding add_peer save
decided-IsAccepted calendar s h [] none e = rw (sym e) (elim (Bool-cases h.config.tofu) [
  | inl on ↦ rw on (ground (arith, added_iff calendar s h))
  | inr off ↦ rw off (ground arith)
])
decided-IsAccepted calendar s h [] (some known) e = rw (sym e) (
    ground (
      arith,
      text_key.same_iff (normalize_public_key known.public_key) (normalize_public_key h.public_key),
    ))
decided-IsAccepted calendar s h (k ∷ keys) none e =
    rw (sym e) (elim (Bool-cases (is_allowed (normalize_public_key h.public_key) (k ∷ keys))) [
      | inl t ↦ rw t (
        λ a. (
          inr ((is_allowed_iff h.public_key (k ∷ keys)).0 t),
          (inl ((is_allowed_iff h.public_key (k ∷ keys)).0 t), (added_iff calendar s h).0 a),
        ),
        λ x. (added_iff calendar s h).1 x.1.1,
      )
      | inr t ↦
          rw t (λ a. absurd (some-ne-none _ a), λ x. absurd (unlisted h.public_key k keys t x.0))
    ])
decided-IsAccepted calendar s h (k ∷ keys) (some known) e =
    rw (sym e) (elim (Bool-cases (is_allowed (normalize_public_key h.public_key) (k ∷ keys))) [
      | inl t ↦
          rw t
            (elim (Bool-cases
              (normalize_public_key known.public_key == normalize_public_key h.public_key)) [
                | inl same ↦ rw same (
                  λ a. (
                    inr ((is_allowed_iff h.public_key (k ∷ keys)).0 t),
                    (text_key.same_iff (normalize_public_key known.public_key)
                          (normalize_public_key h.public_key)).0
                        same,
                  ),
                  λ x. refl,
                )
                | inr other ↦ rw other (
                    ground (
                      arith,
                      text_key.same_iff (normalize_public_key known.public_key)
                          (normalize_public_key h.public_key),
                    ))
              ])
      | inr t ↦
          rw t (λ a. absurd (some-ne-none _ a), λ x. absurd (unlisted h.public_key k keys t x.0))
    ])

-- A handshake is accepted exactly where its key is listed, if keys are pinned, and either its node is
-- known by that key, or it is new, its key is listed or trust on first use is on, and its entry could
-- be saved. Keys count as equal up to the old prefix.
pub verify-Accepts :
    (calendar : Calendar) (s : KnownPeers) (h : Handshake)
    → ((verify calendar s h).1 ≡ none) ↔ IsAccepted calendar s h
unfolding verify_peer check_peer IsAccepted
verify-Accepts calendar s h =
    decided-IsAccepted calendar s h h.config.allowed_keys (lookup h.node_id s.peers) refl
