-- ===== src/ModelIndex/Scan.antt =====
-- src/node_state/model_index.rs: the index finds what a scan of the cookbook finds.
use llamesh.Prelude.{
  ◌≡◌, refl, sym, ap, ◌∙◌, String, Bool, true, false, Option, none, some, List, [], ◌∷◌, inl, inr,
  Bool-cases, if◌then◌else◌,
}
use llamesh.Prelude.Eq.{string_key, ◌==◌}
use llamesh.Prelude.Dict.{lookup, insert, lookup-insert}
use llamesh.Routing.{base_model, profile_id}
use llamesh.ModelIndex.{
  Profile, Model, Index, index_key, index_profiles, index_models, build_model_index, resolve,
}

abbrev pub or_else :
    Option (String × Profile) → Option (String × Profile) → Option (String × Profile)
or_else none o = o
or_else (some x) o = some x

or_else_assoc :
    (a b c : Option (String × Profile)) → or_else (or_else a b) c ≡ or_else a (or_else b c)
or_else_assoc none b c = refl
or_else_assoc (some x) b c = refl

or_else-none : (o : Option (String × Profile)) → or_else o none ≡ o
or_else-none none = refl
or_else-none (some x) = refl

or_else-if :
    (b : Bool) (x : String × Profile) (a o : Option (String × Profile))
    → or_else a (if b then some x else o) ≡ or_else (or_else a (if b then some x else none)) o
or_else-if true x none o = refl
or_else-if false x none o = refl
or_else-if b x (some y) o = refl

module _ (to_lowercase : String → String) (key : String) where
  -- The last enabled profile of a model under a key, and the last of all enabled models.
  abbrev pub scan_profiles : String → List Profile → Option (String × Profile)
  scan_profiles name [] = none
  scan_profiles name (p ∷ rest) = or_else (scan_profiles name rest) (
      if p.enabled
      then (if index_key to_lowercase name p.id == key then some (name, p) else none)
      else none)

  abbrev pub scan_models : List Model → Option (String × Profile)
  scan_models [] = none
  scan_models (m ∷ rest) =
      or_else (scan_models rest) (if m.enabled then scan_profiles m.name m.profiles else none)

  lookup-index_profiles :
      (name : String) (ps : List Profile) (index : Index)
      → lookup key (index_profiles to_lowercase name ps index)
        ≡ or_else (scan_profiles name ps) (lookup key index)
  unfolding index_profiles
  lookup-index_profiles name [] index = refl
  lookup-index_profiles name (p ∷ ps) index = elim (Bool-cases p.enabled) [
    | inl t ↦ simp t (
        lookup-index_profiles name ps (insert (index_key to_lowercase name p.id) (name, p) index)
        ∙ ap (or_else (scan_profiles name ps))
            (lookup-insert (index_key to_lowercase name p.id) key (name, p) index)
        ∙ or_else-if (index_key to_lowercase name p.id == key) (name, p) (scan_profiles name ps)
            (lookup key index))
    | inr t ↦ simp t (
        lookup-index_profiles name ps index
        ∙ ap (λ o. or_else o (lookup key index)) (sym (or_else-none (scan_profiles name ps))))
  ]

  lookup-index_models :
      (models : List Model) (index : Index)
      → lookup key (index_models to_lowercase models index)
        ≡ or_else (scan_models models) (lookup key index)
  unfolding index_models
  lookup-index_models [] index = refl
  lookup-index_models (m ∷ models) index = elim (Bool-cases m.enabled) [
    | inl t ↦ simp t (
        lookup-index_models models (index_profiles to_lowercase m.name m.profiles index)
        ∙ ap (or_else (scan_models models)) (lookup-index_profiles m.name m.profiles index)
        ∙ sym (
            or_else_assoc (scan_models models) (scan_profiles m.name m.profiles)
              (lookup key index)))
    | inr t ↦ simp t (
        lookup-index_models models index
        ∙ ap (λ o. or_else o (lookup key index)) (sym (or_else-none (scan_models models))))
  ]

-- Resolving a name through the index finds what a scan of the cookbook finds: the last enabled
-- profile of an enabled model whose lowercase name and profile are those of the request, with the
-- model's own name; a request without a profile is one for `default`.
pub resolve-build_model_index :
    (to_lowercase : String → String) (models : List Model) (model_name : String)
    → resolve to_lowercase (build_model_index to_lowercase models) model_name
      ≡ scan_models to_lowercase
          (index_key to_lowercase (base_model model_name) (profile_id model_name))
          models
unfolding resolve build_model_index lookup
resolve-build_model_index to_lowercase models model_name =
    lookup-index_models to_lowercase _ models [] ∙ or_else-none _
