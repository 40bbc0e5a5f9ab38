-- ===== src/Args/Tests.antt =====
-- Witnesses of the theorems on command lines, and runs of the operations.
use llamesh.Prelude.{◌≡◌, refl, false, none, some, List, [], ◌∷◌}
use llamesh.Noise.Text.{Text, codes, strip_prefix}
use llamesh.Routing.{sort_by, insert_by}
use llamesh.Args.{
  ProfileArgs, expand_all, build_pre_args, Hasher, group_step, group_loop, compute_args_hash,
}
use llamesh.Args.Defaults.{HasDefaults, build_pre_args-HasDefaults}
use llamesh.Args.Address.{
  no_more, same_arg, at_address, at_inline_address, compute_args_hash-Listens,
}

abbrev profile : ProfileArgs
profile = record {
  llama_server_args = codes "--ctx-size=5" ∷ codes "-fa" ∷ [];
  hf_repo = none;
  hf_file = none;
  model_path = some (codes "a.gguf");
}

defaults_are_added : build_pre_args profile ≡ (
  codes "--ctx-size"
      ∷ codes "5"
      ∷ codes "-fa"
      ∷ codes "-m"
      ∷ codes "a.gguf"
      ∷ codes "--fit"
      ∷ codes "off"
      ∷ [],
  false,
  false,
)
unfolding build_pre_args expand_all strip_prefix
defaults_are_added = refl

build_pre_args-HasDefaults_example : HasDefaults profile (build_pre_args profile).0
build_pre_args-HasDefaults_example = build_pre_args-HasDefaults profile

-- No text is a number, and the digest is the bytes as they are.
abbrev hasher : Hasher
hasher = record { is_number = λ s. false; bytes = λ s. s; digest = λ s. s }

abbrev args : List Text
args = codes "-fa" ∷ codes "-c" ∷ codes "5" ∷ []

abbrev listening : List Text
listening =
    codes "-fa" ∷ codes "--port" ∷ codes "9" ∷ codes "-c" ∷ codes "5" ∷ codes "--host=h" ∷ []

options_are_sorted :
    compute_args_hash hasher args
    ≡ compute_args_hash hasher (codes "-c" ∷ codes "5" ∷ codes "-fa" ∷ [])
unfolding compute_args_hash group_loop group_step sort_by insert_by strip_prefix
options_are_sorted = refl

compute_args_hash-Listens_example :
    compute_args_hash hasher args ≡ compute_args_hash hasher listening
unfolding strip_prefix
compute_args_hash-Listens_example = compute_args_hash-Listens hasher args listening (
    same_arg refl (
      at_address (codes "9") refl
        (same_arg refl (same_arg refl (at_inline_address refl refl no_more)))))
