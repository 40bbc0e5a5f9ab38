-- ===== src/Secrets/Tests.antt =====
-- Witnesses of the theorems on keys and their redaction, and runs of the operations.
use llamesh.Prelude.{◌≡◌, refl, true, none, some, List, [], ◌∷◌, ◌++◌}
use llamesh.Noise.Text.{Text, codes}
use llamesh.Secrets.{
  equals, parse_csv_row, csv_loop, KeyEnv, backend_api_key, key_loop, key_step, key_option,
  first_listed_key, redact_secret_args, redact_loop, is_secret_option, redacted,
}
use llamesh.Secrets.Csv.{quote_row, parse_csv_row-quote_row}
use llamesh.Secrets.Redaction.{
  DiffersInSecrets, no_more, next_value, same_arg, inline_value, redact_secret_args-hides,
}

quotes_are_read : parse_csv_row (codes "\"a,b\",c") ≡ codes "a,b" ∷ codes "c" ∷ []
unfolding parse_csv_row csv_loop
quotes_are_read = refl

parse_csv_row-quote_row_example :
    parse_csv_row (quote_row (codes "a,\"b") (codes "" ∷ [])) ≡ codes "a,\"b" ∷ codes "" ∷ []
parse_csv_row-quote_row_example = parse_csv_row-quote_row (codes "a,\"b") (codes "" ∷ [])

abbrev env : KeyEnv
env = record {
  file = λ path. some (some (codes "# keys") ∷ some (codes "filed") ∷ []);
  var = λ name. none;
  is_utf8 = λ line. true;
  fits_header = λ key. true;
}

abbrev args : List Text
args = codes "--api_key" ∷ codes ",first" ∷ codes "-m" ∷ codes "x" ∷ []

first_key_is_found : backend_api_key env args ≡ some (some (codes "first"))
unfolding backend_api_key key_loop key_step key_option first_listed_key parse_csv_row csv_loop
first_key_is_found = refl

abbrev secret_args : Text → Text → List Text
secret_args key token =
    codes "--api_key" ∷ key ∷ (codes "--hf-token" ++ (equals ∷ token)) ∷ codes "-m" ∷ []

secrets_are_hidden :
    redact_secret_args (secret_args (codes "k") (codes "t"))
    ≡ codes "--api_key" ∷ redacted ∷ codes "--hf-token=<redacted>" ∷ codes "-m" ∷ []
unfolding redact_secret_args redact_loop is_secret_option
secrets_are_hidden = refl

differ :
    DiffersInSecrets true
      (codes "k" ∷ (codes "--hf-token" ++ (equals ∷ codes "t")) ∷ codes "-m" ∷ [])
      (codes "other" ∷ (codes "--hf-token" ++ (equals ∷ codes "=")) ∷ codes "-m" ∷ [])
unfolding is_secret_option
differ =
    next_value (inline_value (codes "--hf-token") (codes "t") (codes "=") refl (same_arg no_more))

redact_secret_args-hides_example :
    redact_secret_args (secret_args (codes "k") (codes "t"))
    ≡ redact_secret_args (secret_args (codes "other") (codes "="))
unfolding is_secret_option
redact_secret_args-hides_example =
    redact_secret_args-hides (secret_args (codes "k") (codes "t"))
      (secret_args (codes "other") (codes "=")) (same_arg differ)
