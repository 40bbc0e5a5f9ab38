-- ===== src/Secrets/Csv.antt =====
-- src/instance.rs, `parse_csv_row`: a row of quoted fields reads back as its fields.
use mathlib.Core.List.{append-nil, append_assoc}
use llamesh.Prelude.{
  ℕ, ◌≡◌, refl, sym, ap, ◌∙◌, inl, inr, true, false, List, [], ◌∷◌, ◌++◌, eqb, eqb_iff, Bool-cases,
  if◌then◌else◌,
}
use llamesh.Noise.Text.{Text}
use llamesh.Secrets.{quote, comma, csv_loop, parse_csv_row}

-- A field as it is written between quotes, its own quotes doubled.
abbrev pub escape : Text → Text
escape [] = []
escape (c ∷ s) = if eqb c quote then quote ∷ quote ∷ escape s else c ∷ escape s

abbrev pub quoted : Text → Text
quoted field = quote ∷ escape field ++ (quote ∷ [])

-- A row of fields, with commas between them.
abbrev pub quote_row : Text → List Text → Text
quote_row field [] = quoted field
quote_row field (next ∷ fields) = quoted field ++ (comma ∷ quote_row next fields)

-- What follows a quoted field: nothing, or the next one.
abbrev tail : List Text → Text
tail [] = []
tail (next ∷ fields) = comma ∷ quote_row next fields

-- What the rest of the row reads as, after a field.
abbrev rest_of : Text → List Text → List Text
rest_of field [] = field ∷ []
rest_of field (next ∷ fields) = field ∷ csv_loop (quote_row next fields) [] false

closes :
    (field : Text) (fields : List Text)
    → csv_loop (quote ∷ tail fields) field true ≡ rest_of field fields
unfolding csv_loop
closes field [] = refl
closes field (next ∷ fields) = refl

plain :
    (c : ℕ) (s field : Text)
    → eqb c quote ≡ false
    → csv_loop (c ∷ s) field true ≡ csv_loop s (field ++ (c ∷ [])) true
unfolding csv_loop
plain c [] field t = rw t refl
plain c (d ∷ s) field t = rw (csv_loop, t) refl

joined :
    (field s : Text) (c : ℕ) (fields : List Text)
    → rest_of ((field ++ (c ∷ [])) ++ s) fields ≡ rest_of (field ++ (c ∷ s)) fields
joined field s c fields = ap (λ f. rest_of f fields) (append_assoc field (c ∷ []) s)

reads :
    (s field : Text) (fields : List Text)
    → csv_loop (escape s ++ (quote ∷ tail fields)) field true ≡ rest_of (field ++ s) fields
unfolding csv_loop
reads [] field fields = closes field fields ∙ ap (λ f. rest_of f fields) (sym (append-nil field))
reads (c ∷ s) field fields = elim (Bool-cases (eqb c quote)) [
  | inl t ↦
      rw (t, (eqb_iff c quote).0 t)
        (reads s (field ++ (quote ∷ [])) fields ∙ joined field s quote fields)
  | inr t ↦ rw t (
      plain c (escape s ++ (quote ∷ tail fields)) field t
      ∙ reads s (field ++ (c ∷ [])) fields
      ∙ joined field s c fields)
]

row :
    (field : Text) (fields : List Text)
    → csv_loop (quote_row field fields) [] false ≡ rest_of field fields
unfolding csv_loop
row field [] = reads field [] []
row field (next ∷ fields) =
    ap (λ x. csv_loop x [] true)
      (append_assoc (escape field) (quote ∷ []) (comma ∷ quote_row next fields))
    ∙ reads field [] (next ∷ fields)

all_fields : (field : Text) (fields : List Text) → rest_of field fields ≡ field ∷ fields
all_fields field [] = refl
all_fields field (next ∷ fields) = ap (λ r. field ∷ r) (row next fields ∙ all_fields next fields)

-- A row whose fields are quoted, with their quotes doubled and commas between them, reads back as
-- those fields, whatever they contain.
pub parse_csv_row-quote_row :
    (field : Text) (fields : List Text) → parse_csv_row (quote_row field fields) ≡ field ∷ fields
unfolding parse_csv_row
parse_csv_row-quote_row field fields = row field fields ∙ all_fields field fields
