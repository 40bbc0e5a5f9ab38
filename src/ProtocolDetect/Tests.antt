-- ===== src/ProtocolDetect/Tests.antt =====
-- The theorem on protocol detection at a concrete input.
use llamesh.Prelude.{ℕ, ◌≡◌, refl, some, List, [], ◌∷◌, map, arith}
use llamesh.ProtocolDetect.{classify, detect, http2}
use llamesh.ProtocolDetect.Fragments.{take, peek, detect_fragments}

-- The HTTP/2 preface, a byte at a time.
abbrev preface : List ℕ
preface = b'P' ∷ b'R' ∷ b'I' ∷ b' ' ∷ b'*' ∷ []

abbrev arrived : List ℕ
arrived = 1 ∷ 2 ∷ 3 ∷ 5 ∷ []

detect_fragments_example : detect (map (peek preface) arrived) ≡ classify (take 4 preface)
detect_fragments_example = detect_fragments preface arrived (omega arith) (omega arith) refl

preface_found : detect (map (peek preface) arrived) ≡ some http2
unfolding detect
preface_found = refl
