-- ===== src/Noise/Parsing.antt =====
-- src/noise/known_peers.rs: what is saved is loaded again.
use llamesh.Prelude.{
  ℕ, ◌≡◌, refl, sym, ap, ◌∙◌, inl, inr, false, ◌||◌, Option, none, some, [], ◌∷◌, ◌++◌, All, any,
  arith, Bool-cases, eqb,
}
use llamesh.Prelude.Eq.{◌==◌}
use llamesh.Prelude.Dict.{Dict, lookup, insert, lookup-insert, Distinct}
use llamesh.Noise.Text.{
  Text, text_key, codes, newline, space, lines, split_whitespace, is_empty, is_whitespace, trim,
  trim_start, trim_end, IsSolid, lines_line, words_word, words_last, trim_end_word, trim_end_append,
  solid_lines, All-append,
}
use llamesh.Noise.KnownPeers.{
  Calendar, KnownPeer, content, entry_line, entry_lines, parse_words, parse_line, parse_lines,
  parse_file, starts_with_hash,
}

-- A text that stands in the file as one word.
abbrev pub IsWord : Text → Type 0
IsWord w = (is_empty w ≡ false) × IsSolid w

-- The chrono crate prints a time as one word and reads it back.
abbrev pub IsCalendar : Calendar → Type 0
IsCalendar calendar =
    (t : ℕ) → IsWord (calendar.to_rfc3339 t) × (calendar.parse (calendar.to_rfc3339 t) ≡ some t)

-- A name and a key that the file can hold.
abbrev pub IsWritable : Text → Text → Type 0
IsWritable id key = IsWord id × (starts_with_hash id ≡ false) × IsWord key

abbrev pub IsEntry : Text × KnownPeer → Type 0
IsEntry (id, p) = (p.node_id ≡ id) × IsWritable id p.public_key

three_words :
    (a b c : Text)
    → IsWord a
    → IsWord b
    → IsWord c
    → split_whitespace (a ++ (space ∷ b ++ (space ∷ c))) ≡ a ∷ b ∷ c ∷ []
three_words [] b c (n, s) w v = ground arith
three_words (x ∷ a) [] c w (n, s) v = ground arith
three_words (x ∷ a) (y ∷ b) [] w v (n, s) = ground arith
three_words (x ∷ a) (y ∷ b) (z ∷ c) (_, s) (_, t) (_, u) =
    words_word x a (y ∷ b ++ (space ∷ z ∷ c)) s
    ∙ ap (λ ws. (x ∷ a) ∷ ws) (words_word y b (z ∷ c) t)
    ∙ ap (λ ws. (x ∷ a) ∷ (y ∷ b) ∷ ws) (words_last z c u)

trim_words :
    (a b c : Text)
    → IsWord a
    → IsWord c
    → trim (a ++ (space ∷ b ++ (space ∷ c))) ≡ a ++ (space ∷ b ++ (space ∷ c))
unfolding trim_start
trim_words [] b c (n, s) w = ground arith
trim_words (x ∷ a) b [] w (n, s) = ground arith
trim_words (x ∷ a) b (z ∷ c) (n, (m, s)) (_, t) = rw m (
    trim_end_append (x ∷ a) (space ∷ b ++ (space ∷ z ∷ c)) refl (
      trim_end_append (space ∷ b) (space ∷ z ∷ c) refl
        (trim_end_append (space ∷ []) (z ∷ c) refl (trim_end_word z c t))))

line_head :
    (a t : Text)
    → IsWord a
    → starts_with_hash a ≡ false
    → (is_empty (a ++ t) || starts_with_hash (a ++ t)) ≡ false
line_head [] t (n, s) h = ground arith
line_head (x ∷ a) t w h = h

parse_three :
    (calendar : Calendar) (now : ℕ) (a b c : Text) (m : Dict Text KnownPeer)
    → IsWritable a b
    → IsWord c
    → parse_line calendar now (a ++ (space ∷ b ++ (space ∷ c))) m
      ≡ parse_words calendar now (a ∷ b ∷ c ∷ []) m
unfolding parse_line
parse_three calendar now a b c m (w, h, v) u =
    rw (trim_words a b c w u, line_head a (space ∷ b ++ (space ∷ c)) w h, three_words a b c w v u)
      refl

parse_stamp :
    (calendar : Calendar) (now : ℕ) (p : KnownPeer) (m : Dict Text KnownPeer)
    → IsCalendar calendar
    → parse_words calendar now (p.node_id ∷ p.public_key ∷ calendar.to_rfc3339 p.first_seen ∷ []) m
      ≡ insert p.node_id p m
parse_stamp calendar now p m law = rw (law p.first_seen).1 refl

-- A saved line is read back.
parse_entry :
    (calendar : Calendar) (now : ℕ) (id : Text) (p : KnownPeer) (m : Dict Text KnownPeer)
    → IsCalendar calendar
    → IsEntry (id, p)
    → parse_line calendar now (entry_line calendar p) m ≡ insert id p m
parse_entry calendar now id p m law (same, w) =
    parse_three calendar now p.node_id p.public_key (calendar.to_rfc3339 p.first_seen) m (rw same w)
      (law p.first_seen).0
    ∙ parse_stamp calendar now p m law
    ∙ ap (λ i. insert i p m) same

entry_lines_word : (w : Text) → IsWord w → All (λ c. eqb c newline ≡ false) w
entry_lines_word w (n, s) = solid_lines w s

line_IsLine :
    (calendar : Calendar) (id : Text) (p : KnownPeer)
    → IsCalendar calendar
    → IsEntry (id, p)
    → All (λ c. eqb c newline ≡ false) (entry_line calendar p)
line_IsLine calendar id p law (same, (w, h, v)) =
    All-append _ p.node_id (space ∷ p.public_key ++ (space ∷ calendar.to_rfc3339 p.first_seen))
      (rw same (entry_lines_word id w))
      (
        refl,
        All-append _ p.public_key (space ∷ calendar.to_rfc3339 p.first_seen)
            (entry_lines_word p.public_key v)
            (refl, entry_lines_word (calendar.to_rfc3339 p.first_seen) (law p.first_seen).0),
      )

-- The first of two answers of a lookup.
abbrev or_else : Option KnownPeer → Option KnownPeer → Option KnownPeer
or_else none o = o
or_else (some p) o = some p

no_lines : lines [] ≡ []
unfolding lines
no_lines = refl

lookup-entries :
    (calendar : Calendar) (now : ℕ) (m acc : Dict Text KnownPeer) (node : Text)
    → IsCalendar calendar
    → Distinct m
    → All IsEntry m
    → lookup node (parse_lines calendar now (lines (entry_lines calendar m)) acc)
      ≡ or_else (lookup node m) (lookup node acc)
unfolding parse_lines lookup
lookup-entries calendar now [] acc node law d e = rw no_lines refl
lookup-entries calendar now ((id, p) ∷ m) acc node law (fresh, d) (e, es) =
    ap (λ ls. lookup node (parse_lines calendar now ls acc))
      (lines_line (entry_line calendar p) (entry_lines calendar m)
        (line_IsLine calendar id p law e))
    ∙ ap (λ x. lookup node (parse_lines calendar now (lines (entry_lines calendar m)) x))
        (parse_entry calendar now id p acc law e)
    ∙ lookup-entries calendar now m (insert id p acc) node law d es
    ∙ ap (or_else (lookup node m)) (lookup-insert id node p acc)
    ∙ elim (Bool-cases (id == node)) [
      | inl t ↦ rw (t, sym (ap (λ i. lookup i m) ((text_key.same_iff id node).0 t)) ∙ fresh) refl
      | inr t ↦ rw t refl
    ]

or_else-none : (o : Option KnownPeer) → or_else o none ≡ o
or_else-none none = refl
or_else-none (some p) = refl

one_line : (s : Text) → any (λ c. eqb c newline) s ≡ false → All (λ c. eqb c newline ≡ false) s
one_line [] e = tt
one_line (c ∷ s) e = (ground arith, one_line s (ground arith))

header_IsLine : All (λ c. eqb c newline ≡ false) (codes "# node_id pubkey first_seen")
header_IsLine = one_line (codes "# node_id pubkey first_seen") refl

parse_header :
    (calendar : Calendar) (now : ℕ) (m : Dict Text KnownPeer)
    → parse_line calendar now (codes "# node_id pubkey first_seen") m ≡ m
unfolding parse_line trim_start trim_end is_whitespace
parse_header calendar now m = refl

-- What is saved is loaded again: where each entry stands under its own name, its name and key are
-- words, the name does not begin with `#` and no name stands twice, parsing the saved text finds
-- for every name the entry that was saved, with its time.
pub parse_file-content :
    (calendar : Calendar) (now : ℕ) (m : Dict Text KnownPeer) (node : Text)
    → IsCalendar calendar
    → Distinct m
    → All IsEntry m
    → lookup node (parse_file calendar now (content calendar m)) ≡ lookup node m
unfolding parse_file parse_lines lookup
parse_file-content calendar now m node law d e =
    ap (λ ls. lookup node (parse_lines calendar now ls []))
      (lines_line (codes "# node_id pubkey first_seen") (entry_lines calendar m) header_IsLine)
    ∙ ap (λ x. lookup node (parse_lines calendar now (lines (entry_lines calendar m)) x))
        (parse_header calendar now [])
    ∙ lookup-entries calendar now m [] node law d e
    ∙ or_else-none (lookup node m)
