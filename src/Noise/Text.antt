-- ===== src/Noise/Text.antt =====
-- src/noise/known_peers.rs: the functions on texts that it uses. A text is the list of its code
-- points.
use Prim.Native.Char.{code}
use Prim.Native.String.{[] as empty, ◌∷◌ as push}
use llamesh.Prelude.{
  ℕ, ◌≡◌, refl, ◌↔◌, String, Bool, true, false, not, ◌&&◌, ◌||◌, Option, none, some, List, [], ◌∷◌,
  ◌++◌, ap, All, arith, leb, eqb, eqb_iff, if◌then◌else◌,
}
use llamesh.Prelude.Eq.{Key}

abbrev pub Text : Type 0
Text = List ℕ

abbrev pub codes : String → Text
codes empty = []
codes (push c s) = code c ∷ codes s

abbrev pub same_text : Text → Text → Bool
same_text [] [] = true
same_text [] (d ∷ t) = false
same_text (c ∷ s) [] = false
same_text (c ∷ s) (d ∷ t) = eqb c d && same_text s t

pub same_text_iff : (s t : Text) → (same_text s t ≡ true) ↔ (s ≡ t)
same_text_iff [] [] = ground arith
same_text_iff [] (d ∷ t) = ground arith
same_text_iff (c ∷ s) [] = ground arith
same_text_iff (c ∷ s) (d ∷ t) = ground (arith, same_text_iff s t, eqb_iff c d)

instance abbrev pub text_key : Key Text
text_key = record { same = same_text; same_iff = same_text_iff }

abbrev pub newline : ℕ
newline = 10

abbrev pub space : ℕ
space = 32

-- `char::is_whitespace`
unfoldable pub is_whitespace : ℕ → Bool
is_whitespace c =
    (leb 9 c && leb c 13)
    || eqb c 32
    || eqb c 133
    || eqb c 160
    || eqb c 5760
    || (leb 8192 c && leb c 8202)
    || eqb c 8232
    || eqb c 8233
    || eqb c 8239
    || eqb c 8287
    || eqb c 12288

abbrev pub push_first : ℕ → List Text → List Text
push_first c [] = (c ∷ []) ∷ []
push_first c (t ∷ ts) = (c ∷ t) ∷ ts

-- `str::lines`; it also takes a carriage return off a line, which is whitespace and which the
-- caller trims.
unfoldable pub lines : Text → List Text
lines [] = []
lines (c ∷ s) = let rest = lines s in if eqb c newline then [] ∷ rest else push_first c rest

abbrev pub starts_word : Text → Bool
starts_word [] = false
starts_word (c ∷ s) = not (is_whitespace c)

-- `str::split_whitespace`
unfoldable pub split_whitespace : Text → List Text
split_whitespace [] = []
split_whitespace (c ∷ s) =
    let rest = split_whitespace s in
    if is_whitespace c then rest else if starts_word s then push_first c rest else (c ∷ []) ∷ rest

abbrev pub is_empty : Text → Bool
is_empty [] = true
is_empty (c ∷ s) = false

-- `str::trim`
unfoldable pub trim_start : Text → Text
trim_start [] = []
trim_start (c ∷ s) = let rest = trim_start s in if is_whitespace c then rest else c ∷ s

unfoldable pub trim_end : Text → Text
trim_end [] = []
trim_end (c ∷ s) =
    let rest = trim_end s in if is_whitespace c && is_empty rest then [] else c ∷ rest

abbrev pub trim : Text → Text
trim s = trim_end (trim_start s)

unfoldable pub strip_prefix : Text → Text → Option Text
strip_prefix [] s = some s
strip_prefix (p ∷ ps) [] = none
strip_prefix (p ∷ ps) (c ∷ s) = let rest = strip_prefix ps s in if eqb p c then rest else none

-- No character of the text is whitespace.
abbrev pub IsSolid : Text → Type 0
IsSolid = All (λ c. is_whitespace c ≡ false)

pub lines_line :
    (s t : Text) → All (λ c. eqb c newline ≡ false) s → lines (s ++ (newline ∷ t)) ≡ s ∷ lines t
unfolding lines
lines_line [] t a = refl
lines_line (c ∷ s) t (n, a) = rw (n, lines_line s t a)

space_IsWhitespace : is_whitespace space ≡ true
unfolding is_whitespace
space_IsWhitespace = refl

pub words_word :
    (c : ℕ) (w s : Text)
    → IsSolid (c ∷ w)
    → split_whitespace (c ∷ w ++ (space ∷ s)) ≡ (c ∷ w) ∷ split_whitespace s
unfolding split_whitespace
words_word c [] s (n, a) = ground (arith, space_IsWhitespace)
words_word c (d ∷ w) s (n, (m, a)) =
    rw n (ground (arith, ap (push_first c) (words_word d w s (m, a))))

pub words_last : (c : ℕ) (w : Text) → IsSolid (c ∷ w) → split_whitespace (c ∷ w) ≡ (c ∷ w) ∷ []
unfolding split_whitespace
words_last c [] (n, a) = rw n
words_last c (d ∷ w) (n, (m, a)) = rw n (ground (arith, ap (push_first c) (words_last d w (m, a))))

pub is_empty-append : (s t : Text) → is_empty t ≡ false → is_empty (s ++ t) ≡ false
is_empty-append [] t e = e
is_empty-append (c ∷ s) t e = refl

pub trim_end_word : (c : ℕ) (w : Text) → IsSolid (c ∷ w) → trim_end (c ∷ w) ≡ c ∷ w
unfolding trim_end
trim_end_word c [] (n, a) = rw n
trim_end_word c (d ∷ w) (n, (m, a)) = rw (trim_end_word d w (m, a), n)

-- A text is not cut at its end where a last part of it is not.
pub trim_end_append :
    (s t : Text) → is_empty t ≡ false → trim_end t ≡ t → trim_end (s ++ t) ≡ s ++ t
unfolding trim_end
trim_end_append [] t e f = f
trim_end_append (d ∷ s) t e f = rw (trim_end_append s t e f) (ground (arith, is_empty-append s t e))

pub solid_lines : (s : Text) → IsSolid s → All (λ c. eqb c newline ≡ false) s
unfolding is_whitespace
solid_lines [] a = tt
solid_lines (c ∷ s) (n, a) = (ground arith, solid_lines s a)

pub All-append : (P : ℕ → Type 0) (s t : Text) → All P s → All P t → All P (s ++ t)
All-append P [] t a b = b
All-append P (c ∷ s) t (n, a) b = (n, All-append P s t a b)
