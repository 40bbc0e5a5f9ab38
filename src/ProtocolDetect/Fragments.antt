-- ===== src/ProtocolDetect/Fragments.antt =====
-- How a connection's bytes are cut into segments does not change what is detected.
use llamesh.Prelude.{
  ℕ, zero, suc, ◌-◌, ◌≤◌, ◌<◌, ◌≡◌, refl, inl, inr, Bool, true, none, some, List, [], ◌∷◌, ◌++◌,
  arith, length, leb, min, is_some, map, All, any, sym, ap, Option-cases,
}
use llamesh.ProtocolDetect.{DetectedProtocol, classify, detect, settle}

abbrev pub take : ℕ → List ℕ → List ℕ
take zero bytes = []
take (suc n) [] = []
take (suc n) (b ∷ bytes) = b ∷ take n bytes

-- A peek after `n` bytes have arrived.
abbrev pub peek : List ℕ → ℕ → List ℕ
peek stream n = take (min n 4) stream

-- What a prefix decides, every longer one decides too.
pub classify-append :
    (bytes more : List ℕ) (p : DetectedProtocol)
    → classify bytes ≡ some p
    → classify (bytes ++ more) ≡ some p
unfolding classify
classify-append [] more p h = cc
classify-append (a ∷ []) more p h = ground arith
classify-append (a ∷ b ∷ []) more p h = ground arith
classify-append (a ∷ b ∷ c ∷ []) more p h = ground arith
classify-append (a ∷ b ∷ c ∷ d ∷ rest) more p h = ground arith

-- Four bytes always decide.
pub classify-total : (bytes : List ℕ) → 4 ≤ length bytes → is_some (classify bytes) ≡ true
unfolding classify
classify-total [] h = absurd (omega arith)
classify-total (a ∷ []) h = absurd (omega arith)
classify-total (a ∷ b ∷ []) h = absurd (omega arith)
classify-total (a ∷ b ∷ c ∷ []) h = absurd (omega arith)
classify-total (a ∷ b ∷ c ∷ d ∷ rest) h = ground arith

take_split : (n : ℕ) (bytes : List ℕ) → (more : List ℕ) × (bytes ≡ take n bytes ++ more)
take_split zero bytes = (bytes, refl)
take_split (suc n) [] = ([], refl)
take_split (suc n) (b ∷ bytes) = let (more, e) = take_split n bytes in (more, cc)

take-take : (m n : ℕ) (bytes : List ℕ) → m ≤ n → take m (take n bytes) ≡ take m bytes
take-take zero n bytes h = refl
take-take (suc m) zero bytes h = absurd (omega arith)
take-take (suc m) (suc n) [] h = refl
take-take (suc m) (suc n) (b ∷ bytes) h = cc (take-take m n bytes (omega arith))

-- A peek that decides, decides as the first four bytes do.
peek_agrees :
    (stream : List ℕ) (n : ℕ) (p : DetectedProtocol)
    → classify (peek stream n) ≡ some p
    → classify (take 4 stream) ≡ some p
peek_agrees stream n p h =
    let (more, e) = take_split (min n 4) (take 4 stream) in
    let t : take (min n 4) (take 4 stream) ≡ peek stream n =
      take-take (min n 4) 4 stream (omega arith) in
    rw e (rw t (classify-append (peek stream n) more p h))

peek-cons : (b : ℕ) (s : List ℕ) (n : ℕ) → 0 < n → peek (b ∷ s) n ≡ b ∷ take (min n 4 - 1) s
peek-cons b s n h = let e : min n 4 ≡ suc (min n 4 - 1) = omega arith in ap (λ k. take k (b ∷ s)) e

length-take : (n : ℕ) (bytes : List ℕ) → length (take n bytes) ≡ min n (length bytes)
length-take zero bytes = omega arith
length-take (suc n) [] = omega arith
length-take (suc n) (b ∷ bytes) = omega (arith, length-take n bytes)

peek_decides :
    (stream : List ℕ) (n : ℕ)
    → 4 ≤ length stream
    → 4 ≤ n
    → is_some (classify (peek stream n)) ≡ true
peek_decides stream n l h =
    classify-total (peek stream n) (omega (arith, length-take (min n 4) stream))

-- Where a connection has sent a byte, each peek settles the matter or waits.
detect_step :
    (b : ℕ) (s : List ℕ) (n : ℕ) (peeks : List (List ℕ))
    → 0 < n
    → detect (peek (b ∷ s) n ∷ peeks) ≡ settle (classify (peek (b ∷ s) n)) (detect peeks)
unfolding detect
detect_step b s n peeks h = rw (peek-cons b s n h)

-- Some peek sees four bytes.
abbrev pub reaches_four : List ℕ → Bool
reaches_four arrived = any (λ n. leb 4 n) arrived

-- However the first bytes of a stream arrive, in peeks that each see at least one byte of which
-- one sees four, `detect` returns what the first four bytes say.
pub detect_fragments :
    (stream : List ℕ) (arrived : List ℕ)
    → 4 ≤ length stream
    → All (λ n. 0 < n) arrived
    → reaches_four arrived ≡ true
    → detect (map (peek stream) arrived) ≡ classify (take 4 stream)
detect_fragments [] arrived l all r = absurd (omega arith)
detect_fragments (b ∷ s) [] l all r = cc
detect_fragments (b ∷ s) (n ∷ arrived) l all r =
    rw (detect_step b s n (map (peek (b ∷ s)) arrived) all.0)
      (elim (Option-cases (classify (peek (b ∷ s) n))) [
        | inr (p, e) ↦ rw e (sym (peek_agrees (b ∷ s) n p e))
        | inl e ↦ rw e (detect_fragments (b ∷ s) arrived l all.1 (later e))
      ])
  where
    later : classify (peek (b ∷ s) n) ≡ none → reaches_four arrived ≡ true
    later e = ground (arith, peek_decides (b ∷ s) n l)
