-- ===== src/Secrets/Keys.antt =====
-- src/instance.rs, `backend_api_key`: a key that is found can be sent.
use llamesh.Prelude.{
  ◌≡◌, inl, inr, refl, Bool, true, false, Option, none, some, List, [], ◌∷◌, arith, Bool-cases,
}
use llamesh.Noise.Text.{Text, codes, is_empty}
use llamesh.Secrets.{
  first_filled, first_listed_key, parse_csv_row, is_comment, KeyFile, first_key_line,
  first_key_in_file, KeyOption, api_key, api_key_file, key_option, or_key, take_found, key_step,
  or_file, listed_key, KeyEnv, key_loop, checked_key, then_env, backend_api_key,
}

-- No key, or one with text in it.
abbrev IsFilled : Option Text → Type 0
IsFilled none = Unit
IsFilled (some key) = is_empty key ≡ false

abbrev AllFilled : Option (Option Text) → Type 0
AllFilled none = Unit
AllFilled (some key) = IsFilled key

-- A failure, no key, or one that has text in it and fits an HTTP header.
abbrev pub IsSendable : KeyEnv → Option (Option Text) → Type 0
IsSendable e none = Unit
IsSendable e (some none) = Unit
IsSendable e (some (some key)) = (e.fits_header key ≡ true) × (is_empty key ≡ false)

first_filled-IsFilled : (keys : List Text) → IsFilled (first_filled keys)
first_filled-IsFilled [] = tt
first_filled-IsFilled (key ∷ keys) = elim (Bool-cases (is_empty key)) [
  | inl t ↦ rw t (first_filled-IsFilled keys)
  | inr t ↦ rw t t
]

listed-IsFilled : (keys : Text) → IsFilled (first_listed_key keys)
unfolding first_listed_key
listed-IsFilled keys = first_filled-IsFilled (parse_csv_row keys)

no_comment_is_filled : (line : Text) → is_comment line ≡ false → is_empty line ≡ false
no_comment_is_filled [] h = ground arith
no_comment_is_filled (c ∷ line) h = refl

line-AllFilled :
    (is_utf8 : Text → Bool) (lines : List (Option Text)) → AllFilled (first_key_line is_utf8 lines)
line-AllFilled is_utf8 [] = tt
line-AllFilled is_utf8 (none ∷ lines) = tt
line-AllFilled is_utf8 (some line ∷ lines) = elim (Bool-cases (is_comment line)) [
  | inl t ↦ rw t (line-AllFilled is_utf8 lines)
  | inr t ↦ elim (Bool-cases (is_utf8 line)) [
    | inl u ↦ rw (t, u) (no_comment_is_filled line t)
    | inr u ↦ rw (t, u) tt
  ]
]

file-AllFilled :
    (is_utf8 : Text → Bool) (file : KeyFile) → AllFilled (first_key_in_file is_utf8 file)
unfolding first_key_in_file
file-AllFilled is_utf8 none = tt
file-AllFilled is_utf8 (some lines) = line-AllFilled is_utf8 lines

or_key-IsFilled :
    (found key : Option Text) → IsFilled found → IsFilled key → IsFilled (or_key found key)
or_key-IsFilled none key f k = k
or_key-IsFilled (some x) key f k = f

taken-AllFilled :
    (o : Option (Option Text)) (take : Option Text → Option (Option Text))
    → AllFilled o
    → ((found : Option Text) → IsFilled found → AllFilled (take found))
    → AllFilled (take_found o take)
taken-AllFilled none take a t = tt
taken-AllFilled (some found) take a t = t found a

key_step-AllFilled :
    (e : KeyEnv) (o : Option KeyOption) (value : Text) (skip : Option (Option Text))
    (take : Option Text → Option (Option Text))
    → AllFilled skip
    → ((found : Option Text) → IsFilled found → AllFilled (take found))
    → AllFilled (key_step e o value skip take)
unfolding key_step
key_step-AllFilled e none value skip take s t = s
key_step-AllFilled e (some api_key) value skip take s t =
    t (first_listed_key value) (listed-IsFilled value)
key_step-AllFilled e (some api_key_file) value skip take s t =
    taken-AllFilled (first_key_in_file e.is_utf8 (e.file value)) take
      (file-AllFilled e.is_utf8 (e.file value)) t

key_loop-AllFilled :
    (e : KeyEnv) (args : List Text) (key : Option Text)
    → IsFilled key
    → AllFilled (key_loop e args key)
unfolding key_loop
key_loop-AllFilled e [] key k = k
key_loop-AllFilled e (arg ∷ []) key k = k
key_loop-AllFilled e (arg ∷ value ∷ args) key k =
    key_step-AllFilled e (key_option arg) value (key_loop e (value ∷ args) key)
      (λ found. key_loop e args (or_key found key)) (key_loop-AllFilled e (value ∷ args) key k)
      (λ found f. key_loop-AllFilled e args (or_key found key) (or_key-IsFilled found key f k))

or_file-AllFilled :
    (e : KeyEnv) (key path : Option Text) → IsFilled key → AllFilled (or_file e key path)
or_file-AllFilled e (some key) path k = k
or_file-AllFilled e none none k = tt
or_file-AllFilled e none (some path) k = file-AllFilled e.is_utf8 (e.file path)

listed_key-IsFilled : (keys : Option Text) → IsFilled (listed_key keys)
listed_key-IsFilled none = tt
listed_key-IsFilled (some keys) = listed-IsFilled keys

then_env-AllFilled :
    (e : KeyEnv) (key : Option (Option Text)) → AllFilled key → AllFilled (then_env e key)
then_env-AllFilled e none k = tt
then_env-AllFilled e (some (some key)) k = k
then_env-AllFilled e (some none) k =
    or_file-AllFilled e (listed_key (e.var (codes "LLAMA_API_KEY")))
      (e.var (codes "LLAMA_ARG_API_KEY_FILE")) (listed_key-IsFilled (e.var (codes "LLAMA_API_KEY")))

checked_key-IsSendable :
    (e : KeyEnv) (key : Option (Option Text)) → AllFilled key → IsSendable e (checked_key e key)
checked_key-IsSendable e none k = tt
checked_key-IsSendable e (some none) k = tt
checked_key-IsSendable e (some (some key)) k = elim (Bool-cases (e.fits_header key)) [
  | inl t ↦ rw t (t, k)
  | inr t ↦ rw t tt
]

-- A key that is found for the server, on its command line, in a key file or in the environment, has
-- text in it and fits an HTTP header.
pub backend_api_key-IsSendable :
    (e : KeyEnv) (args : List Text) → IsSendable e (backend_api_key e args)
unfolding backend_api_key
backend_api_key-IsSendable e args =
    checked_key-IsSendable e (then_env e (key_loop e args none))
      (then_env-AllFilled e (key_loop e args none) (key_loop-AllFilled e args none tt))
