-- ===== src/Noise/Tests.antt =====
-- Witnesses of the theorems on trust and transport, and runs of the operations.
use mathlib.Core.Path.{subst}
use mathlib.Core.Option.{some-injective}
use llamesh.Prelude.{
  ℕ, suc, ◌+◌, ◌-◌, ◌≡◌, ◌↔◌, refl, ap, true, false, Option, none, some, [], ◌∷◌, ◌++◌, length,
  arith, eqb, eqb_iff, if◌then◌else◌,
}
use llamesh.Prelude.Dict.{lookup, insert, remove}
use llamesh.Noise.Text.{Text, codes, text_key, is_whitespace, is_empty, IsSolid}
use llamesh.Noise.KnownPeers.{
  Calendar, KnownPeer, KnownPeers, ClusterNoiseConfig, key_mismatched, load_or_create,
  normalize_public_key, verify_peer, check_peer, add_peer, save,
}
use llamesh.Noise.Trust.{
  Handshake, Handshakes, checks, adds, verify, check_access, add_found, add_access, verify_all,
  verify_all-keeps,
}
use llamesh.Noise.Acceptance.{IsAccepted, verify-Accepts}
use llamesh.Noise.Parsing.{IsCalendar}
use llamesh.Noise.RoundTrip.{IsSafe, no_peers, load_or_create-verify_all}
use llamesh.Noise.Transport.{Bytes, Cipher, received, send_data, recv_data}
use llamesh.Noise.Framing.{IsSession, recv_data-send_data}

-- A calendar that prints a time as that many strokes.
abbrev strokes : ℕ → Text
strokes ℕ.zero = 116 ∷ []
strokes (suc n) = 105 ∷ strokes n

abbrev tally : Calendar
tally = record { to_rfc3339 = strokes; parse = λ s. some (length s - 1) }

length-strokes : (n : ℕ) → length (strokes n) ≡ n + 1
length-strokes ℕ.zero = refl
length-strokes (suc n) = omega (arith, length-strokes n)

strokes-IsSolid : (n : ℕ) → IsSolid (strokes n)
unfolding is_whitespace
strokes-IsSolid ℕ.zero = (refl, tt)
strokes-IsSolid (suc n) = (refl, strokes-IsSolid n)

tally-IsCalendar : IsCalendar tally
tally-IsCalendar n = ((full n, strokes-IsSolid n), ap some (omega (arith, length-strokes n)))
  where
    full : (n : ℕ) → is_empty (strokes n) ≡ false
    full ℕ.zero = refl
    full (suc m) = refl

-- The keys have no whitespace.
key-IsSolid : IsSolid (codes "ed25519:k")
unfolding is_whitespace
key-IsSolid = (refl, (refl, (refl, (refl, (refl, (refl, (refl, (refl, (refl, tt)))))))))

abbrev by_tofu : ClusterNoiseConfig
by_tofu = record { tofu = true; allowed_keys = [] }

-- Two handshakes under one name with different keys; the first key has the old prefix.
abbrev first : Handshake
first = record {
  node_id = codes "b";
  public_key = codes "ed25519:k";
  config = by_tofu;
  now = 2;
  write = λ text. (some text, true);
}

abbrev other : Handshake
other = record first { public_key = codes "noise25519:x" }

abbrev unknown : KnownPeers
unknown = record { peers = []; file = none }

abbrev pinned : KnownPeer
pinned = record { node_id = codes "b"; public_key = codes "ed25519:k"; first_seen = 2 }

abbrev known : KnownPeers
known = record { peers = (codes "b", pinned) ∷ []; file = none }

other_key_is_refused :
    (verify tally known other).1
    ≡ some (key_mismatched (codes "b") (codes "noise25519:x") (codes "ed25519:k"))
unfolding verify_peer check_peer lookup normalize_public_key
other_key_is_refused = refl

-- A handshake of another node waits to add it, while one with another key for the pinned node comes.
abbrev newcomer : Handshake
newcomer = record first { node_id = codes "c" }

abbrev shared : Handshakes
shared = record { known = known; accepted = newcomer ∷ [] }

verify_all-keeps_example :
    lookup
      (codes "b")
      (verify_all tally shared (checks other ∷ adds 0 ∷ checks first ∷ [])).known.peers
    ≡ some pinned
unfolding lookup
verify_all-keeps_example =
    verify_all-keeps tally (checks other ∷ adds 0 ∷ checks first ∷ []) shared (codes "b") pinned
      refl refl

-- Two first handshakes under one name are both accepted, and the second replaces the pin of the
-- first.
both_accepted_test :
    lookup
      (codes "b")
      (verify_all tally no_peers (checks first ∷ checks other ∷ adds 1 ∷ adds 0 ∷ [])).known.peers
    ≡ some (record pinned { public_key = codes "noise25519:x" })
unfolding verify_all check_access add_access add_found check_peer add_peer save lookup insert remove
    normalize_public_key
both_accepted_test = refl

verify-Accepts_example : ((verify tally known first).1 ≡ none) ↔ IsAccepted tally known first
verify-Accepts_example = verify-Accepts tally known first

load_or_create-verify_all_example :
    (s : KnownPeers) × (load_or_create tally 9 true (
        (verify_all tally no_peers (checks first ∷ checks first ∷ adds 0 ∷ adds 0 ∷ [])).known.file)
      ≡ some s)
    × ((node : Text)
        → lookup node s.peers
          ≡ lookup node (
              (verify_all tally no_peers
                (checks first ∷ checks first ∷ adds 0 ∷ adds 0 ∷ [])).known.peers))
unfolding is_whitespace
load_or_create-verify_all_example =
    load_or_create-verify_all tally 9 (checks first ∷ checks first ∷ adds 0 ∷ adds 0 ∷ [])
      tally-IsCalendar (is_safe, (is_safe, (tt, (tt, tt))))
  where
    is_safe : IsSafe first
    is_safe = (((refl, (refl, tt)), refl, (refl, key-IsSolid)), λ text. refl)

-- A cipher whose tag is the number of the message.
abbrev tag : Bytes
tag = 0 ∷ 0 ∷ 0 ∷ 0 ∷ 0 ∷ 0 ∷ 0 ∷ 0 ∷ 0 ∷ 0 ∷ 0 ∷ 0 ∷ 0 ∷ 0 ∷ 0 ∷ []

abbrev drop : ℕ → Bytes → Bytes
drop ℕ.zero bytes = bytes
drop (suc n) [] = []
drop (suc n) (b ∷ bytes) = drop n bytes

abbrev untag : ℕ → Bytes → Option (ℕ × Bytes)
untag n [] = none
untag n (b ∷ bytes) = if eqb b n then some (n + 1, drop 15 bytes) else none

abbrev numbered : Cipher
numbered = record {
  Sender = ℕ;
  Receiver = ℕ;
  encrypt = λ n bytes. some (n + 1, n ∷ tag ++ bytes);
  decrypt = untag;
}

abbrev numbered_session : IsSession numbered
numbered_session = record {
  InStep = λ s r. s ≡ r;
  transports = λ s s' r chunk encrypted i e.
      subst
        (λ (x : ℕ × Bytes).
          (length x.1 ≡ length chunk + 16)
          × (r' : ℕ) × (untag r x.1 ≡ some (r', chunk))
          × (x.0 ≡ r'))
        (some-injective (s + 1, s ∷ tag ++ chunk) (s', encrypted) e)
        (omega arith, r + 1, ground (arith, eqb_iff s r), ap (λ n. n + 1) i);
}

recv_data-send_data_example :
    (r : ℕ) × (recv_data numbered 7
        ((0 ∷ 0 ∷ 0 ∷ 18 ∷ 7 ∷ tag ++ (1 ∷ 2 ∷ 0 ∷ 0 ∷ 0 ∷ 0 ∷ [])) ++ (9 ∷ []))
      ≡ received r (1 ∷ 2 ∷ []) (9 ∷ []))
    × (8 ≡ r)
unfolding send_data
recv_data-send_data_example =
    recv_data-send_data numbered numbered_session 7 8 7 (1 ∷ 2 ∷ [])
      (0 ∷ 0 ∷ 0 ∷ 18 ∷ 7 ∷ tag ++ (1 ∷ 2 ∷ 0 ∷ 0 ∷ 0 ∷ 0 ∷ [])) (9 ∷ []) refl refl (omega arith)
