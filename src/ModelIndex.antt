-- ===== src/ModelIndex.antt =====
-- src/node_state/model_index.rs: the index of the enabled profiles of a cookbook. The Unicode case
-- table is a parameter, and of a profile's fields only its name and its switch are modelled.
pub mod Scan
pub mod Tests
use Prim.Native.String.{◌++◌}
use llamesh.Prelude.{String, Bool, Option, none, some, List, [], ◌∷◌, if◌then◌else◌}
use llamesh.Prelude.Eq.{string_key}
use llamesh.Prelude.Dict.{Dict, lookup, insert}
use llamesh.Gossip.Address.{before}
use llamesh.Routing.{after, base_model, profile_id}

pub record Profile : Type 0 where
  pub id : String
  pub enabled : Bool

pub record Model : Type 0 where
  pub name : String
  pub enabled : Bool
  pub profiles : List Profile

abbrev pub Index : Type 0
Index = Dict String (String × Profile)

abbrev pub index_key : (String → String) → String → String → String
index_key to_lowercase name id = to_lowercase name ++ ":" ++ to_lowercase id

-- The inner loop of `build_model_index`.
unfoldable pub index_profiles : (String → String) → String → List Profile → Index → Index
index_profiles to_lowercase name [] index = index
index_profiles to_lowercase name (p ∷ rest) index =
    let skipped = index_profiles to_lowercase name rest index in
    let added =
      index_profiles to_lowercase name rest
        (insert (index_key to_lowercase name p.id) (name, p) index) in
    if p.enabled then added else skipped

unfoldable pub index_models : (String → String) → List Model → Index → Index
unfolding index_profiles
index_models to_lowercase [] index = index
index_models to_lowercase (m ∷ rest) index =
    let skipped = index_models to_lowercase rest index in
    let added =
      index_models to_lowercase rest (index_profiles to_lowercase m.name m.profiles index) in
    if m.enabled then added else skipped

unfoldable pub build_model_index : (String → String) → List Model → Index
unfolding index_models
build_model_index to_lowercase models = index_models to_lowercase models []

-- `ModelIndex::resolve`; the name is taken apart as in `find_peer_for_model`.
unfoldable pub resolve : (String → String) → Index → String → Option (String × Profile)
unfolding before after
resolve to_lowercase index model_name =
    lookup (index_key to_lowercase (base_model model_name) (profile_id model_name)) index
