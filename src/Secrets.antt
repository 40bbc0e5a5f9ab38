-- ===== src/Secrets.antt =====
-- src/instance.rs: the API keys and tokens on the command line of `llama-server`. A text is the list
-- of its code points. The file system, the environment, and which texts are UTF-8 or fit an HTTP
-- header are parameters.
pub mod Csv
pub mod Redaction
pub mod Keys
pub mod Tests
use llamesh.Prelude.{
  ℕ, Bool, true, false, not, ◌&&◌, ◌||◌, Option, none, some, List, [], ◌∷◌, ◌++◌, any, map, eqb,
  if◌then◌else◌,
}
use llamesh.Noise.Text.{Text, codes, same_text, is_empty, strip_prefix}

abbrev pub quote : ℕ
quote = 34

abbrev pub comma : ℕ
comma = 44

abbrev pub equals : ℕ
equals = 61

-- The loop of `parse_csv_row`: the rest of the input, the field so far, and whether it is quoted.
unfoldable pub csv_loop : Text → Text → Bool → List Text
csv_loop [] field in_quotes = field ∷ []
csv_loop (c ∷ s) field false = elim (eqb c quote) [
  | true ↦ elim (is_empty field) [
    | true ↦ csv_loop s field true
    | false ↦ csv_loop s (field ++ (quote ∷ [])) false
  ]
  | false ↦ elim (eqb c comma) [
    | true ↦ field ∷ csv_loop s [] false
    | false ↦ csv_loop s (field ++ (c ∷ [])) false
  ]
]
csv_loop (c ∷ []) field true = if eqb c quote then field ∷ [] else (field ++ (c ∷ [])) ∷ []
csv_loop (c ∷ d ∷ s) field true = elim (eqb c quote) [
  | true ↦ elim (eqb d quote) [
    | true ↦ csv_loop s (field ++ (quote ∷ [])) true
    | false ↦ csv_loop (d ∷ s) field false
  ]
  | false ↦ csv_loop (d ∷ s) (field ++ (c ∷ [])) true
]

unfoldable pub parse_csv_row : Text → List Text
unfolding csv_loop
parse_csv_row input = csv_loop input [] false

abbrev pub first_filled : List Text → Option Text
first_filled [] = none
first_filled (key ∷ keys) = if is_empty key then first_filled keys else some key

unfoldable pub first_listed_key : Text → Option Text
unfolding parse_csv_row
first_listed_key keys = first_filled (parse_csv_row keys)

abbrev pub is_comment : Text → Bool
is_comment [] = true
is_comment (c ∷ s) = eqb c 35

-- What a key file reads as, where it opens: its lines, up to one that cannot be read.
abbrev pub KeyFile : Type 0
KeyFile = Option (List (Option Text))

-- `first_key_in_file`; none is a failure.
abbrev pub first_key_line : (Text → Bool) → List (Option Text) → Option (Option Text)
first_key_line is_utf8 [] = some none
first_key_line is_utf8 (none ∷ lines) = none
first_key_line is_utf8 (some line ∷ lines) =
    let rest = first_key_line is_utf8 lines in
    if is_comment line then rest else if is_utf8 line then some (some line) else none

unfoldable pub first_key_in_file : (Text → Bool) → KeyFile → Option (Option Text)
first_key_in_file is_utf8 none = none
first_key_in_file is_utf8 (some lines) = first_key_line is_utf8 lines

-- `replace('_', "-")`, where the name begins with two dashes.
abbrev pub dashes : Text → Text
dashes name = map (λ c. if eqb c 95 then 45 else c) name

abbrev pub is_long : Text → Bool
is_long (c ∷ d ∷ s) = eqb c 45 && eqb d 45
is_long s = false

pub data KeyOption : Type 0 where
  api_key api_key_file : KeyOption

-- Which key option an argument is.
unfoldable pub key_option : Text → Option KeyOption
key_option arg =
    if not (is_long arg)
    then none
    else if same_text (dashes arg) (codes "--api-key")
    then some api_key
    else if same_text (dashes arg) (codes "--api-key-file")
    then some api_key_file
    else none

abbrev pub or_key : Option Text → Option Text → Option Text
or_key none key = key
or_key (some found) key = some found

-- What the rest of the system gives the search for a key.
pub record KeyEnv : Type 0 where
  pub file : Text → KeyFile
  pub var : Text → Option Text
  pub is_utf8 : Text → Bool
  pub fits_header : Text → Bool

abbrev pub take_found :
    Option (Option Text) → (Option Text → Option (Option Text)) → Option (Option Text)
take_found none take = none
take_found (some found) take = take found

-- What an argument does to the loop of `backend_api_key_with_env`: the loop goes on after it, or
-- takes the argument that follows as its value.
unfoldable pub key_step :
    KeyEnv
    → Option KeyOption
    → Text
    → Option (Option Text)
    → (Option Text → Option (Option Text))
    → Option (Option Text)
unfolding first_listed_key first_key_in_file
key_step e none value skip take = skip
key_step e (some api_key) value skip take = take (first_listed_key value)
key_step e (some api_key_file) value skip take =
    take_found (first_key_in_file e.is_utf8 (e.file value)) take

-- That loop, with the key so far.
unfoldable pub key_loop : KeyEnv → List Text → Option Text → Option (Option Text)
unfolding key_option key_step
key_loop e [] key = some key
key_loop e (arg ∷ []) key = some key
key_loop e (arg ∷ value ∷ args) key =
    key_step e (key_option arg) value (key_loop e (value ∷ args) key)
      (λ found. key_loop e args (or_key found key))

-- The two looks at the environment, where the arguments have no key.
abbrev pub or_file : KeyEnv → Option Text → Option Text → Option (Option Text)
or_file e (some key) path = some (some key)
or_file e none none = some none
or_file e none (some path) = first_key_in_file e.is_utf8 (e.file path)

abbrev pub listed_key : Option Text → Option Text
listed_key none = none
listed_key (some keys) = first_listed_key keys

abbrev pub key_in_env : KeyEnv → Option Text → Option (Option Text)
key_in_env e (some key) = some (some key)
key_in_env e none =
    or_file e (listed_key (e.var (codes "LLAMA_API_KEY"))) (e.var (codes "LLAMA_ARG_API_KEY_FILE"))

abbrev pub checked_key : KeyEnv → Option (Option Text) → Option (Option Text)
checked_key e none = none
checked_key e (some none) = some none
checked_key e (some (some key)) = if e.fits_header key then some (some key) else none

abbrev pub then_env : KeyEnv → Option (Option Text) → Option (Option Text)
then_env e none = none
then_env e (some key) = key_in_env e key

-- `backend_api_key_with_env`; none is a failure.
unfoldable pub backend_api_key : KeyEnv → List Text → Option (Option Text)
unfolding key_loop
backend_api_key e args = checked_key e (then_env e (key_loop e args none))

abbrev pub redacted : Text
redacted = codes "<redacted>"

unfoldable pub is_secret_option : Text → Bool
is_secret_option name =
    any (same_text (if is_long name then dashes name else name))
      (codes "--api-key" ∷ codes "--hf-token" ∷ codes "-hft" ∷ [])

-- `split_once('=')`
abbrev pub with_first : ℕ → Option (Text × Text) → Option (Text × Text)
with_first c none = none
with_first c (some (before, after)) = some (c ∷ before, after)

abbrev pub split_equals : Text → Option (Text × Text)
split_equals [] = none
split_equals (c ∷ s) =
    let rest = split_equals s in if eqb c equals then some ([], s) else with_first c rest

abbrev pub redact_split : Text → Option (Text × Text) → Text
redact_split arg none = arg
redact_split arg (some (name, value)) =
    if is_secret_option name then name ++ (equals ∷ redacted) else arg

-- The loop of `redact_secret_args`; whether the next argument is a secret.
unfoldable pub redact_loop : Bool → List Text → List Text
unfolding is_secret_option
redact_loop redact_next [] = []
redact_loop true (arg ∷ args) = redacted ∷ redact_loop false args
redact_loop false (arg ∷ args) =
    (if is_secret_option arg then arg else redact_split arg (split_equals arg))
    ∷ redact_loop (is_secret_option arg) args

unfoldable pub redact_secret_args : List Text → List Text
unfolding redact_loop
redact_secret_args args = redact_loop false args
