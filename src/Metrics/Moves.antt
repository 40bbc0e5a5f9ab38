-- ===== src/Metrics/Moves.antt =====
-- src/metrics.rs, `migrate_args_hashes`: what stands under each hash after the migration.
use llamesh.Prelude.{
  ◌≡◌, refl, sym, ap, ◌∙◌, Bool, true, false, not, ◌&&◌, ◌||◌, Option, none, some, is_some, List,
  [], ◌∷◌, any, Bool-cases, Option-cases, inl, inr, arith, if◌then◌else◌,
}
use llamesh.Prelude.Eq.{◌==◌}
use llamesh.Prelude.Dict.{Dict, lookup, contains_key, lookup-insert, lookup-remove}
use llamesh.Noise.Text.{Text, text_key, same_text_iff}
use llamesh.Metrics.{HashMetrics, Metrics}
use llamesh.Metrics.Migration.{
  Copies, or_insert, copy_profile, copy_all, remove_hashes, extend, migrate_args_hashes,
}

-- Whether the entry of a hash is an old one of some profile.
abbrev pub is_legacy : List (Text × Text) → Text → Bool
is_legacy pairs k = any (λ (pair : Text × Text). (pair.0 == k) && not (pair.0 == pair.1)) pairs

abbrev among : Text → List Text → Bool
among k gone = any (λ (g : Text). g == k) gone

or_false : (a : Bool) → a ≡ (a || false)
or_false a = ground arith

or_assoc : (a b c : Bool) → ((a || b) || c) ≡ (a || (b || c))
or_assoc a b c = ground arith

module _ {P : Type 0} where
  abbrev or_else : Option (HashMetrics P) → Option (HashMetrics P) → Option (HashMetrics P)
  or_else none o = o
  or_else (some m) o = some m

  -- The entry that moves to a hash: that of the first profile with this new hash which has an old one.
  abbrev pub first_source :
      Dict Text (HashMetrics P) → List (Text × Text) → Text → Option (HashMetrics P)
  unfolding lookup
  first_source hashes [] k = none
  first_source hashes ((legacy, new) ∷ pairs) k =
      let rest = first_source hashes pairs k in
      if (new == k) && not (legacy == new) then or_else (lookup legacy hashes) rest else rest

  or_else-or_else :
      (a b r : Option (HashMetrics P)) (known moves : Bool)
      → or_else
          (or_else a (if known then none else (if moves then b else none)))
          (if known then none else r)
        ≡ or_else a (if known then none else (if moves then or_else b r else r))
  or_else-or_else (some m) b r known moves = refl
  or_else-or_else none b r true moves = refl
  or_else-or_else none b r false false = refl
  or_else-or_else none b r false true = refl

  or_else_absent :
      (o r : Option (HashMetrics P)) (b : Bool)
      → is_some r ≡ false
      → or_else o (if b then none else r) ≡ o
  or_else_absent o none b h = ground arith
  or_else_absent o (some m) b h = ground arith

  -- One key has one entry.
  lookup_same :
      (k j : Text) (entries : Dict Text (HashMetrics P))
      → (k == j) ≡ true
      → lookup j entries ≡ lookup k entries
  lookup_same k j entries same =
      ap (λ (i : Text). lookup i entries) (sym ((same_text_iff k j).0 same))

  lookup-or_insert :
      (k j : Text) (m : HashMetrics P) (entries : Dict Text (HashMetrics P))
      → lookup j (or_insert k m entries)
        ≡ or_else (lookup j entries) (if k == j then some m else none)
  lookup-or_insert k j m entries = elim (Bool-cases (contains_key k entries)) [
    | inl there ↦ rw there (ground (arith, lookup_same k j entries))
    | inr new ↦ rw new (lookup-insert k j m entries ∙ ground (arith, lookup_same k j entries))
  ]

  lookup-extend :
      (k : Text) (copies hashes : Dict Text (HashMetrics P))
      → lookup k (extend copies hashes) ≡ or_else (lookup k copies) (lookup k hashes)
  unfolding lookup extend
  lookup-extend k [] hashes = refl
  lookup-extend k ((j, m) ∷ copies) hashes =
      lookup-insert j k m (extend copies hashes) ∙ elim (Bool-cases (j == k)) [
        | inl same ↦ rw same refl
        | inr other ↦ rw other (lookup-extend k copies hashes)
      ]

  lookup-remove_hashes :
      (k : Text) (gone : List Text) (hashes : Dict Text (HashMetrics P))
      → lookup k (remove_hashes gone hashes) ≡ (if among k gone then none else lookup k hashes)
  unfolding remove_hashes
  lookup-remove_hashes k [] hashes = refl
  lookup-remove_hashes k (g ∷ gone) hashes =
      lookup-remove g k (remove_hashes gone hashes)
      ∙ ground (arith, lookup-remove_hashes k gone hashes)

  legacy_hashes-copy_profile :
      (hashes : Dict Text (HashMetrics P)) (legacy new : Text) (c : Copies P) (k : Text)
      → contains_key k hashes ≡ true
      → among k (copy_profile hashes (legacy, new) c).legacy_hashes
        ≡ (among k c.legacy_hashes || ((legacy == k) && not (legacy == new)))
  unfolding copy_profile
  legacy_hashes-copy_profile hashes legacy new c k h = elim (Bool-cases (legacy == new)) [
    | inl same ↦ rw same (ground arith)
    | inr other ↦ elim (Option-cases (lookup legacy hashes)) [
      | inl absent ↦ rw (other, absent) (ground (arith, lookup_same legacy k hashes))
      | inr (m, found) ↦ rw (other, found) (ground arith)
    ]
  ]

  legacy_hashes-copy_all :
      (hashes : Dict Text (HashMetrics P)) (pairs : List (Text × Text)) (c : Copies P) (k : Text)
      → contains_key k hashes ≡ true
      → among k (copy_all hashes pairs c).legacy_hashes
        ≡ (among k c.legacy_hashes || is_legacy pairs k)
  unfolding copy_all
  legacy_hashes-copy_all hashes [] c k h = or_false (among k c.legacy_hashes)
  legacy_hashes-copy_all hashes ((legacy, new) ∷ pairs) c k h =
      legacy_hashes-copy_all hashes pairs (copy_profile hashes (legacy, new) c) k h
      ∙ rw (legacy_hashes-copy_profile hashes legacy new c k h) (
          or_assoc (among k c.legacy_hashes) ((legacy == k) && not (legacy == new))
            (is_legacy pairs k))

  migrated-copy_profile :
      (hashes : Dict Text (HashMetrics P)) (legacy new : Text) (c : Copies P) (k : Text)
      → lookup k (copy_profile hashes (legacy, new) c).migrated
        ≡ or_else (lookup k c.migrated) (
            if contains_key k hashes
            then none
            else (if (new == k) && not (legacy == new) then lookup legacy hashes else none))
  unfolding copy_profile
  migrated-copy_profile hashes legacy new c k = elim (Bool-cases (legacy == new)) [
    | inl same ↦ rw same (ground arith)
    | inr other ↦ elim (Option-cases (lookup legacy hashes)) [
      | inl absent ↦ rw (other, absent) (ground arith)
      | inr (m, found) ↦
          rw (other, found)
            (elim (Bool-cases (contains_key new hashes)) [
              | inl there ↦ rw there (ground (arith, lookup_same new k hashes))
              | inr free ↦
                  rw free
                    (lookup-or_insert new k m c.migrated ∙ ground (arith, lookup_same new k hashes))
            ])
    ]
  ]

  migrated-copy_all :
      (hashes : Dict Text (HashMetrics P)) (pairs : List (Text × Text)) (c : Copies P) (k : Text)
      → lookup k (copy_all hashes pairs c).migrated
        ≡ or_else
            (lookup k c.migrated)
            (if contains_key k hashes then none else first_source hashes pairs k)
  unfolding copy_all first_source
  migrated-copy_all hashes [] c k = ground arith
  migrated-copy_all hashes ((legacy, new) ∷ pairs) c k =
      migrated-copy_all hashes pairs (copy_profile hashes (legacy, new) c) k
      ∙ rw (migrated-copy_profile hashes legacy new c k) (
          or_else-or_else (lookup k c.migrated) (lookup legacy hashes) (first_source hashes pairs k)
            (contains_key k hashes) ((new == k) && not (legacy == new)))

  -- After the migration a hash that was known has its entry, unless that is the old one of a profile,
  -- and a hash that was not known has the entry of the first profile that moves to it, if any does.
  pub migrate_args_hashes-lookup :
      (m : Metrics P) (pairs : List (Text × Text)) (k : Text)
      → lookup k (migrate_args_hashes m pairs).1.hash_metrics ≡ (
          if contains_key k m.hash_metrics
          then (if is_legacy pairs k then none else lookup k m.hash_metrics)
          else first_source m.hash_metrics pairs k)
  unfolding migrate_args_hashes
  migrate_args_hashes-lookup m pairs k =
      lookup-extend k copies.migrated (remove_hashes copies.legacy_hashes m.hash_metrics)
      ∙ elim (Bool-cases (contains_key k m.hash_metrics)) [
        | inl known ↦
            rw
              (
                migrated-copy_all m.hash_metrics pairs start k,
                known,
                lookup-remove_hashes k copies.legacy_hashes m.hash_metrics,
                legacy_hashes-copy_all m.hash_metrics pairs start k known,
              )
              refl
        | inr unknown ↦
            rw
              (
                migrated-copy_all m.hash_metrics pairs start k,
                unknown,
                lookup-remove_hashes k copies.legacy_hashes m.hash_metrics,
              )
              (or_else_absent (first_source m.hash_metrics pairs k) (lookup k m.hash_metrics)
                (among k copies.legacy_hashes) unknown)
      ]
    where
      start : Copies P
      start = record { migrated = []; legacy_hashes = [] }

      copies : Copies P
      copies = copy_all m.hash_metrics pairs start
