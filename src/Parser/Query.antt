-- ===== src/Parser/Query.antt =====
-- data/query_request_parser.cc, and data/query_request.h.
use Prim.Native.String.{String}
use red_giant.Prelude.{ℕ, Bool, true, false, Option, none, some, List, [], ◌∷◌, ◌++◌, if◌then◌else◌}
use red_giant.Json.{Dom, json_get_object}
use red_giant.Feature.{StringLibrary, Feature, FeatureVector, create_feature}
use red_giant.Feature.Spaces.{Status, FeatureSpaceManager, get_space}

pub record QueryRequest (D : Type 0) : Type 0 where
  pub request_id : String
  pub query_count : ℕ
  pub model_name : String
  pub feature_vectors : List (FeatureVector D)
  pub is_debug : Bool

unfoldable pub add_feature_vector : {D : Type 0} → FeatureVector D → QueryRequest D → QueryRequest D
add_feature_vector feature_vector r = record r {
  feature_vectors = r.feature_vectors ++ feature_vector ∷ [];
}

-- `if (feature) vec.add_feature(feature, weight)`
unfoldable pub add_created : {D : Type 0} → Option Feature → D → FeatureVector D → FeatureVector D
add_created none weight vec = vec
add_created (some feature) weight vec = record vec {
  features = vec.features ++ (feature, weight) ∷ [];
}

-- The JSON values, the strings library, `1.0`, and the spaces that the parser was given.
module _ {J : Type 0} {D : Type 0} (dom : Dom J D) (lib : StringLibrary) (one : D)
    (feature_spaces : FeatureSpaceManager) where
  unfoldable pub parse_feature_vector_single_weighted :
      J → FeatureVector D → Status × FeatureVector D
  parse_feature_vector_single_weighted json vec =
      if dom.is_number json
      then (
        Status.success,
        add_created (create_feature lib vec.space "0") (dom.get_double json) vec,
      )
      else (Status.failure, vec)

  unfoldable pub parse_feature_vector_single_unitary :
      J → FeatureVector D → Status × FeatureVector D
  parse_feature_vector_single_unitary json vec =
      if dom.is_string json
      then (
        Status.success,
        add_created (create_feature lib vec.space (dom.get_string json)) one vec,
      )
      else (Status.failure, vec)

  unfoldable pub add_members : List (String × J) → FeatureVector D → FeatureVector D
  add_members [] vec = vec
  add_members ((name, value) ∷ l) vec = add_members l (
      if dom.is_number value
      then add_created (create_feature lib vec.space name) (dom.get_double value) vec
      else vec)

  unfoldable pub parse_feature_vector_multiple_weighted :
      J → FeatureVector D → Status × FeatureVector D
  parse_feature_vector_multiple_weighted json vec =
      if dom.is_object json
      then (Status.success, add_members (dom.members json) vec)
      else (Status.failure, vec)

  unfoldable pub add_elements : List J → FeatureVector D → FeatureVector D
  add_elements [] vec = vec
  add_elements (it ∷ l) vec = add_elements l (
      if dom.is_string it
      then add_created (create_feature lib vec.space (dom.get_string it)) one vec
      else vec)

  unfoldable pub parse_feature_vector_multiple_unitary :
      J → FeatureVector D → Status × FeatureVector D
  parse_feature_vector_multiple_unitary json vec =
      if dom.is_array json
      then (Status.success, add_elements (dom.elements json) vec)
      else (Status.failure, vec)

  -- The choice of the four by the kind of the value; `ret` is -1 before it.
  unfoldable pub parse_feature_vector : J → FeatureVector D → Status × FeatureVector D
  parse_feature_vector value vec =
      if dom.is_number value
      then parse_feature_vector_single_weighted value vec
      else if dom.is_string value
      then parse_feature_vector_single_unitary value vec
      else if dom.is_object value
      then parse_feature_vector_multiple_weighted value vec
      else if dom.is_array value
      then parse_feature_vector_multiple_unitary value vec
      else (Status.failure, vec)

  -- `if (ret == 0)` after it.
  unfoldable pub add_parsed : Status × FeatureVector D → QueryRequest D → QueryRequest D
  add_parsed (Status.success, vec) request = add_feature_vector vec request
  add_parsed (Status.failure, vec) request = request
  add_parsed (Status.asserts, vec) request = request

  -- The loop of `parse_feature_spaces`, which returns 0 whatever it meets.
  unfoldable pub parse_members : List (String × J) → QueryRequest D → QueryRequest D
  parse_members [] request = request
  parse_members ((space_name, value) ∷ l) request =
      parse_members l (elim (get_space space_name feature_spaces) [
        | none ↦ request
        | some space ↦
            add_parsed (parse_feature_vector value (record { space = space; features = [] }))
              request
      ])

  unfoldable pub parse_feature_spaces : J → QueryRequest D → Status × QueryRequest D
  parse_feature_spaces json request = (Status.success, parse_members (dom.members json) request)

  unfoldable pub parse_json : J → QueryRequest D → Status × QueryRequest D
  parse_json root output = elim (dom.is_object root) [
    | false ↦ (Status.failure, output)
    | true ↦ elim (json_get_object dom root "features") [
      | none ↦ (Status.failure, output)
      | some features ↦ parse_feature_spaces features output
    ]
  ]
