-- ===== src/ProtocolDetect.antt =====
-- src/protocol_detect.rs: the protocol of a connection from its first bytes. `detect` polls
-- `TcpStream::peek` into a buffer of four bytes; the peeks of a connection are its sequence of
-- peeked prefixes. I/O errors and the caller's timeout are left out.
pub mod Fragments
pub mod Tests
use llamesh.Prelude.{
  ℕ, zero, suc, ◌≤◌, Bool, true, false, not, ◌||◌, Option, none, some, List, [], ◌∷◌, leb, eqb,
  length, if◌then◌else◌,
}

pub data DetectedProtocol : Type 0 where
  tls http http2 noise : DetectedProtocol

-- `matches!(b, b'G' | b'D' | b'H' | b'O' | b'C' | b'T')`
abbrev pub is_method_initial : ℕ → Bool
is_method_initial b =
    eqb b b'G' || eqb b b'D' || eqb b b'H' || eqb b b'O' || eqb b b'C' || eqb b b'T'

-- The arm for `0x16`, on the bytes after it.
abbrev tls_arm : List ℕ → Option DetectedProtocol
tls_arm [] = none
tls_arm (b ∷ rest) = if eqb b 0x03 then some tls else some noise

-- What follows `PR`: the buffer is decided once it holds four bytes.
abbrev preface_arm : List ℕ → Option DetectedProtocol
preface_arm [] = none
preface_arm (c ∷ []) = none
preface_arm (c ∷ d ∷ rest) =
    if eqb c b'I' then if eqb d b' ' then some http2 else some http else some http

-- The arm for `P`, on the bytes after it.
abbrev p_arm : List ℕ → Option DetectedProtocol
p_arm [] = none
p_arm (b ∷ rest) = let preface = preface_arm rest in if eqb b b'R' then preface else some http

-- `classify`; the source indexes the first byte, and `detect` never calls it on no bytes.
unfoldable pub classify : List ℕ → Option DetectedProtocol
classify [] = none
classify (b ∷ rest) =
    if eqb b 0x16
    then tls_arm rest
    else if eqb b b'P'
    then p_arm rest
    else if is_method_initial b
    then some http
    else some noise

abbrev settle : Option DetectedProtocol → Option DetectedProtocol → Option DetectedProtocol
settle none later = later
settle (some p) later = some p

-- The loop of `detect` over the peeks of a connection; `none` while it still waits.
unfoldable pub detect : List (List ℕ) → Option DetectedProtocol
unfolding classify
detect [] = none
detect ([] ∷ peeks) = some noise
detect ((b ∷ rest) ∷ peeks) = settle (classify (b ∷ rest)) (detect peeks)
