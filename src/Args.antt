-- ===== src/Args.antt =====
-- src/node_state/model_index.rs, `build_pre_args`, and src/instance.rs, `compute_args_hash`: the
-- command line of a profile, and the hash by which it is known. The digest, the bytes of a text, and
-- which texts read as a floating-point number are parameters.
pub mod Expansion
pub mod Defaults
pub mod Address
pub mod Tests
use llamesh.Prelude.{
  ℕ, ◌*◌, ◌+◌, ◌/◌, ◌%◌, ◌^◌, Bool, true, false, not, ◌&&◌, ◌||◌, Option, none, some, is_some, List,
  [], ◌∷◌, ◌++◌, any, length, ltb, eqb, if◌then◌else◌,
}
use llamesh.Noise.Text.{Text, codes, same_text, strip_prefix}
use llamesh.Secrets.{equals, split_equals}
use llamesh.Secrets.Redaction.{has_equals}
use llamesh.Routing.{sort_by}

-- Of a profile, what `build_pre_args` reads.
pub record ProfileArgs : Type 0 where
  pub llama_server_args : List Text
  pub hf_repo : Option Text
  pub hf_file : Option Text
  pub model_path : Option Text

abbrev pub starts_with : Text → Text → Bool
starts_with s prefix = is_some (strip_prefix prefix s)

-- An argument is one of the names, or gives one of them a value.
abbrev pub is_flag : List Text → Text → Bool
is_flag names arg =
    any (λ name. same_text arg name || starts_with arg (name ++ (equals ∷ []))) names

abbrev pub model_names : List Text
model_names = codes "-m" ∷ codes "--model" ∷ []

abbrev pub hf_repo_names : List Text
hf_repo_names = codes "-hf" ∷ codes "-hfr" ∷ codes "--hf-repo" ∷ []

abbrev pub ctx_size_names : List Text
ctx_size_names = codes "-c" ∷ codes "--ctx-size" ∷ []

abbrev pub fit_names : List Text
fit_names = codes "-fit" ∷ codes "--fit" ∷ []

abbrev pub both : Text → Option (Text × Text) → List Text
both arg none = arg ∷ []
both arg (some (flag, value)) = flag ∷ value ∷ []

-- The expansion of `key=value`.
unfoldable pub expand : Text → List Text
expand arg =
    if (starts_with arg (codes "--") || starts_with arg (codes "-")) && has_equals arg
    then both arg (split_equals arg)
    else arg ∷ []

abbrev pub expand_all : List Text → List Text
unfolding expand
expand_all [] = []
expand_all (arg ∷ args) = expand arg ++ expand_all args

abbrev pub file_args : Option Text → List Text
file_args none = []
file_args (some hf_file) = codes "-hff" ∷ hf_file ∷ []

-- The model source, where the arguments have none.
abbrev pub source_args : Option Text → Option Text → Option Text → List Text
source_args (some hf_repo) hf_file model_path = codes "-hfr" ∷ hf_repo ∷ file_args hf_file
source_args none hf_file (some model_path) = codes "-m" ∷ model_path ∷ []
source_args none hf_file none = []

unfoldable pub build_pre_args : ProfileArgs → List Text × Bool × Bool
unfolding expand_all
build_pre_args profile =
    let args = profile.llama_server_args in
    let model_arg_present = any (is_flag model_names) args in
    let hf_repo_arg_present = any (is_flag hf_repo_names) args in
    (
      expand_all args
          ++ ((if not model_arg_present && not hf_repo_arg_present
                then source_args profile.hf_repo profile.hf_file profile.model_path
                else [])
              ++ ((if not (any (is_flag ctx_size_names) args)
                    then codes "-c" ∷ codes "0" ∷ []
                    else [])
                  ++ (if not (any (is_flag fit_names) args)
                      then codes "--fit" ∷ codes "off" ∷ []
                      else []))),
      model_arg_present,
      hf_repo_arg_present,
    )

-- `--host` and `--port`, whose value is the next argument, or in the argument.
abbrev pub is_address : Text → Bool
is_address arg = same_text arg (codes "--host") || same_text arg (codes "--port")

abbrev pub is_inline_address : Text → Bool
is_inline_address arg = starts_with arg (codes "--host=") || starts_with arg (codes "--port=")

pub record Grouping : Type 0 where
  pub groups : List (List Text)
  pub skip_next : Bool
  pub has_option : Bool

abbrev pub push_last : List (List Text) → Text → List (List Text)
push_last [] arg = []
push_last (group ∷ []) arg = (group ++ (arg ∷ [])) ∷ []
push_last (group ∷ next ∷ groups) arg = group ∷ push_last (next ∷ groups) arg

-- The loop of `compute_args_hash`, on one argument.
unfoldable pub group_step : (Text → Bool) → Grouping → Text → Grouping
group_step is_number g arg =
    if g.skip_next
    then record g { skip_next = false }
    else if is_address arg
    then record g { skip_next = true }
    else if is_inline_address arg
    then g
    else if starts_with arg (codes "-") && not (is_number arg)
    then record g { groups = g.groups ++ ((arg ∷ []) ∷ []); has_option = true }
    else if g.has_option
    then record g { groups = push_last g.groups arg }
    else record g { groups = g.groups ++ ((arg ∷ []) ∷ []) }

unfoldable pub group_loop : (Text → Bool) → Grouping → List Text → Grouping
unfolding group_step
group_loop is_number g [] = g
group_loop is_number g (arg ∷ args) = group_loop is_number (group_step is_number g arg) args

-- `u64::to_be_bytes`
abbrev pub to_be_bytes : ℕ → List ℕ
to_be_bytes n =
    n / 2 ^ 56 % 256
    ∷ n / 2 ^ 48 % 256
    ∷ n / 2 ^ 40 % 256
    ∷ n / 2 ^ 32 % 256
    ∷ n / 2 ^ 24 % 256
    ∷ n / 2 ^ 16 % 256
    ∷ n / 2 ^ 8 % 256
    ∷ n % 256
    ∷ []

-- What is hashed of a group and of all of them.
abbrev pub arg_bytes : (Text → List ℕ) → List Text → List ℕ
arg_bytes bytes [] = []
arg_bytes bytes (arg ∷ args) =
    to_be_bytes (length (bytes arg)) ++ (bytes arg ++ arg_bytes bytes args)

abbrev pub group_bytes : (Text → List ℕ) → List (List Text) → List ℕ
group_bytes bytes [] = []
group_bytes bytes (group ∷ groups) =
    to_be_bytes (length group) ++ (arg_bytes bytes group ++ group_bytes bytes groups)

-- The order of lists by their first difference, with that of their elements.
abbrev pub less_by {ℓ} : {A : Type ℓ} → (A → A → Bool) → List A → List A → Bool
less_by less [] [] = false
less_by less [] (y ∷ ys) = true
less_by less (x ∷ xs) [] = false
less_by less (x ∷ xs) (y ∷ ys) =
    let rest = less_by less xs ys in if less x y then true else not (less y x) && rest

pub record Hasher : Type 0 where
  pub is_number : Text → Bool
  pub bytes : Text → List ℕ
  pub digest : List ℕ → Text

unfoldable pub compute_args_hash : Hasher → List Text → Text
unfolding group_loop sort_by
compute_args_hash h args = h.digest (
    group_bytes h.bytes (
      sort_by (less_by (less_by ltb))
        (group_loop h.is_number (record { groups = []; skip_next = false; has_option = false })
          args).groups))

unfoldable pub args_hash_for_profile : Hasher → ProfileArgs → Text
unfolding build_pre_args compute_args_hash
args_hash_for_profile h profile = compute_args_hash h (build_pre_args profile).0
