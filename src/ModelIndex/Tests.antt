-- ===== src/ModelIndex/Tests.antt =====
-- A run of the index, and the witness of the theorem on it.
use llamesh.Prelude.{◌≡◌, refl, String, true, false, some, List, [], ◌∷◌}
use llamesh.Prelude.Dict.{lookup, insert, remove}
use llamesh.Gossip.Address.{before}
use llamesh.Routing.{after}
use llamesh.ModelIndex.{Model, build_model_index, resolve, index_key}
use llamesh.ModelIndex.Scan.{scan_models, resolve-build_model_index}

abbrev as_is : String → String
as_is s = s

abbrev cookbook : List Model
cookbook =
    record {
      name = "m";
      enabled = true;
      profiles =
          record { id = "default"; enabled = true } ∷ record { id = "p"; enabled = false } ∷ [];
    }
    ∷ []

default_is_found :
    resolve as_is (build_model_index as_is cookbook) "m"
    ≡ some ("m", record { id = "default"; enabled = true })
unfolding resolve build_model_index before after lookup insert remove
default_is_found = refl

resolve-build_model_index_example :
    resolve as_is (build_model_index as_is cookbook) "m"
    ≡ scan_models as_is (index_key as_is "m" "default") cookbook
unfolding before after
resolve-build_model_index_example = resolve-build_model_index as_is cookbook "m"
