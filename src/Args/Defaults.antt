-- ===== src/Args/Defaults.antt =====
-- src/node_state/model_index.rs, `build_pre_args`: the options that every command line has.
use llamesh.Prelude.{
  ◌≡◌, ◌⊎◌, inl, inr, refl, ◌∙◌, Bool, true, not, ◌&&◌, ◌||◌, Option, none, some, List, [], ◌∷◌,
  ◌++◌, All, any, arith, Bool-cases, if◌then◌else◌,
}
use llamesh.Noise.Text.{Text, codes, strip_prefix}
use llamesh.Args.{
  ProfileArgs, is_flag, model_names, hf_repo_names, ctx_size_names, fit_names, expand_all,
  source_args, build_pre_args,
}
use llamesh.Args.Expansion.{is_name, any-append, IsOption, flags-expand}

-- The options that a command line has.
pub record HasDefaults (profile : ProfileArgs) (args : List Text) : Type 0 where
  pub ctx_size : any (is_name ctx_size_names) args ≡ true
  pub fit : any (is_name fit_names) args ≡ true
  pub source :
      ((any (is_name model_names) args || any (is_name hf_repo_names) args) ≡ true)
      ⊎ ((profile.hf_repo ≡ none) × (profile.model_path ≡ none))

source-named :
    (hf_repo hf_file model_path : Option Text)
    → ((any (is_name model_names) (source_args hf_repo hf_file model_path)
          || any (is_name hf_repo_names) (source_args hf_repo hf_file model_path))
        ≡ true)
      ⊎ ((hf_repo ≡ none) × (model_path ≡ none))
source-named (some repo) file path = inl (ground arith)
source-named none file (some path) = inl refl
source-named none file none = inr (refl, refl)

any-parts :
    (p : Text → Bool) (a b c d : List Text)
    → any p (a ++ (b ++ (c ++ d))) ≡ (any p a || (any p b || (any p c || any p d)))
any-parts p a b c d =
    rw (any-append p a (b ++ (c ++ d)), any-append p b (c ++ d), any-append p c d) refl

module _ (p : Text → Bool) (a b c d : List Text) where
  any_first : any p a ≡ true → any p (a ++ (b ++ (c ++ d))) ≡ true
  any_first e = any-parts p a b c d ∙ ground (arith, e)

  any_second : any p b ≡ true → any p (a ++ (b ++ (c ++ d))) ≡ true
  any_second e = any-parts p a b c d ∙ ground (arith, e)

  any_third : any p c ≡ true → any p (a ++ (b ++ (c ++ d))) ≡ true
  any_third e = any-parts p a b c d ∙ ground (arith, e)

  any_fourth : any p d ≡ true → any p (a ++ (b ++ (c ++ d))) ≡ true
  any_fourth e = any-parts p a b c d ∙ ground (arith, e)

options-IsOption :
    All IsOption model_names
    × All IsOption hf_repo_names
    × All IsOption ctx_size_names
    × All IsOption fit_names
unfolding strip_prefix
options-IsOption = (
  ((refl, refl), ((refl, refl), tt)),
  ((refl, refl), ((refl, refl), ((refl, refl), tt))),
  ((refl, refl), ((refl, refl), tt)),
  ((refl, refl), ((refl, refl), tt)),
)

either_left : (x y : Bool) → x ≡ true → (x || y) ≡ true
either_left x y h = rw h refl

either_right : (x y : Bool) → y ≡ true → (x || y) ≡ true
either_right x y h = ground (arith, h)

module _ (profile : ProfileArgs) where
  abbrev args : List Text
  args = profile.llama_server_args

  abbrev own_source : Bool
  own_source = not (any (is_flag model_names) args) && not (any (is_flag hf_repo_names) args)

  abbrev source_part : List Text
  source_part =
      if own_source then source_args profile.hf_repo profile.hf_file profile.model_path else []

  abbrev ctx_part : List Text
  ctx_part = if not (any (is_flag ctx_size_names) args) then codes "-c" ∷ codes "0" ∷ [] else []

  abbrev fit_part : List Text
  fit_part = if not (any (is_flag fit_names) args) then codes "--fit" ∷ codes "off" ∷ [] else []

  abbrev whole : List Text
  whole = expand_all args ++ (source_part ++ (ctx_part ++ fit_part))

  whole-ctx : any (is_name ctx_size_names) whole ≡ true
  whole-ctx = elim (Bool-cases (any (is_flag ctx_size_names) args)) [
    | inl t ↦
        any_first (is_name ctx_size_names) (expand_all args) source_part ctx_part fit_part
          (flags-expand ctx_size_names args options-IsOption.2 t)
    | inr t ↦
        any_third (is_name ctx_size_names) (expand_all args) source_part ctx_part fit_part
          (rw t refl)
  ]

  whole-fit : any (is_name fit_names) whole ≡ true
  whole-fit = elim (Bool-cases (any (is_flag fit_names) args)) [
    | inl t ↦
        any_first (is_name fit_names) (expand_all args) source_part ctx_part fit_part
          (flags-expand fit_names args options-IsOption.3 t)
    | inr t ↦
        any_fourth (is_name fit_names) (expand_all args) source_part ctx_part fit_part (rw t refl)
  ]

  abbrev HasSource : List Text → Type 0
  HasSource xs = (any (is_name model_names) xs || any (is_name hf_repo_names) xs) ≡ true

  in_args :
      (any (is_flag model_names) args || any (is_flag hf_repo_names) args) ≡ true → HasSource whole
  in_args h = elim (Bool-cases (any (is_flag model_names) args)) [
    | inl t ↦ either_left (any (is_name model_names) whole) (any (is_name hf_repo_names) whole) (
        any_first (is_name model_names) (expand_all args) source_part ctx_part fit_part
          (flags-expand model_names args options-IsOption.0 t))
    | inr t ↦ either_right (any (is_name model_names) whole) (any (is_name hf_repo_names) whole) (
        any_first (is_name hf_repo_names) (expand_all args) source_part ctx_part fit_part
          (flags-expand hf_repo_names args options-IsOption.1 (ground (arith, h, t))))
  ]

  in_source : HasSource source_part → HasSource whole
  in_source h = elim (Bool-cases (any (is_name model_names) source_part)) [
    | inl t ↦
        either_left (any (is_name model_names) whole) (any (is_name hf_repo_names) whole)
          (any_second (is_name model_names) (expand_all args) source_part ctx_part fit_part t)
    | inr t ↦ either_right (any (is_name model_names) whole) (any (is_name hf_repo_names) whole) (
        any_second (is_name hf_repo_names) (expand_all args) source_part ctx_part fit_part
          (ground (arith, h, t)))
  ]

  whole-source : HasSource whole ⊎ ((profile.hf_repo ≡ none) × (profile.model_path ≡ none))
  whole-source = elim (Bool-cases own_source) [
    | inr t ↦ inl (in_args (ground (arith, t)))
    | inl t ↦ elim (source-named profile.hf_repo profile.hf_file profile.model_path) [
      | inl named ↦ inl (in_source (rw t named))
      | inr nothing ↦ inr nothing
    ]
  ]

-- A command line has a context size, the switch of the automatic fit, and a model source, unless the
-- profile has none; whether the profile's arguments have them as separate arguments, with an equals
-- sign, or not at all.
pub build_pre_args-HasDefaults :
    (profile : ProfileArgs) → HasDefaults profile (build_pre_args profile).0
unfolding build_pre_args
build_pre_args-HasDefaults profile = record {
  ctx_size = whole-ctx profile;
  fit = whole-fit profile;
  source = whole-source profile;
}
