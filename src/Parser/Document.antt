-- ===== src/Parser/Document.antt =====
-- data/document_parser.cc, and data/document.h.
use Prim.Native.String.{String}
use text.Mathlib.Text.{◌==◌}
use red_giant.Prelude.{true, false, Option, none, some, List, [], ◌∷◌, ◌++◌, if◌then◌else◌}
use red_giant.Json.{Dom, json_get_object, json_get_str}
use red_giant.Feature.{StringLibrary, Feature, FeatureVector, create_feature}
use red_giant.Feature.Spaces.{Status, FeatureSpaceManager, get_space}
use red_giant.DocumentId.{DocumentId, invalid_id, is_valid}

pub record Document (D : Type 0) : Type 0 where
  pub id : DocumentId
  pub id_str : String
  pub feature_vectors : List (FeatureVector D)

-- `Document()`
abbrev pub empty_document : {D : Type 0} → Document D
empty_document = record { id = invalid_id; id_str = ""; feature_vectors = [] }

unfoldable pub add_feature_vector : {D : Type 0} → FeatureVector D → Document D → Document D
add_feature_vector feature_vector doc = record doc {
  feature_vectors = doc.feature_vectors ++ feature_vector ∷ [];
}

-- `DocumentId(uuid)`, where `scan` is `sscanf` with the format of the code: it gives the two words
-- where it has matched all 11 numbers.
unfoldable pub document_id : (String → Option DocumentId) → String → DocumentId
document_id scan uuid = elim (scan uuid) [ none ↦ invalid_id | some id ↦ id ]

unfoldable pub set_doc_id :
    {D : Type 0} → (String → Option DocumentId) → String → Document D → Document D
set_doc_id scan id doc = record doc { id = document_id scan id; id_str = id }

unfoldable pub add_created : {D : Type 0} → Option Feature → D → FeatureVector D → FeatureVector D
add_created none weight vec = vec
add_created (some feature) weight vec = record vec {
  features = vec.features ++ (feature, weight) ∷ [];
}

-- The JSON values, the strings library, `1.0`, and the spaces that the parser was given.
module _ {J : Type 0} {D : Type 0} (dom : Dom J D) (lib : StringLibrary) (one : D)
    (feature_spaces : FeatureSpaceManager) where
  unfoldable pub parse_feature_vector_single_weighted :
      J → FeatureVector D → Status × FeatureVector D
  parse_feature_vector_single_weighted json vec =
      if dom.is_number json
      then (
        Status.success,
        add_created (create_feature lib vec.space "0") (dom.get_double json) vec,
      )
      else (Status.failure, vec)

  unfoldable pub parse_feature_vector_single_unitary :
      J → FeatureVector D → Status × FeatureVector D
  parse_feature_vector_single_unitary json vec =
      if dom.is_string json
      then (
        Status.success,
        add_created (create_feature lib vec.space (dom.get_string json)) one vec,
      )
      else (Status.failure, vec)

  unfoldable pub add_members : List (String × J) → FeatureVector D → FeatureVector D
  add_members [] vec = vec
  add_members ((name, value) ∷ l) vec = add_members l (
      if dom.is_number value
      then add_created (create_feature lib vec.space name) (dom.get_double value) vec
      else vec)

  unfoldable pub parse_feature_vector_multiple_weighted :
      J → FeatureVector D → Status × FeatureVector D
  parse_feature_vector_multiple_weighted json vec =
      if dom.is_object json
      then (Status.success, add_members (dom.members json) vec)
      else (Status.failure, vec)

  unfoldable pub add_elements : List J → FeatureVector D → FeatureVector D
  add_elements [] vec = vec
  add_elements (it ∷ l) vec = add_elements l (
      if dom.is_string it
      then add_created (create_feature lib vec.space (dom.get_string it)) one vec
      else vec)

  unfoldable pub parse_feature_vector_multiple_unitary :
      J → FeatureVector D → Status × FeatureVector D
  parse_feature_vector_multiple_unitary json vec =
      if dom.is_array json
      then (Status.success, add_elements (dom.elements json) vec)
      else (Status.failure, vec)

  -- The choice of the four by the kind of the value; `ret` is -1 before it.
  unfoldable pub parse_feature_vector : J → FeatureVector D → Status × FeatureVector D
  parse_feature_vector value vec =
      if dom.is_number value
      then parse_feature_vector_single_weighted value vec
      else if dom.is_string value
      then parse_feature_vector_single_unitary value vec
      else if dom.is_object value
      then parse_feature_vector_multiple_weighted value vec
      else if dom.is_array value
      then parse_feature_vector_multiple_unitary value vec
      else (Status.failure, vec)

  -- `if (ret == 0)` after it.
  unfoldable pub add_parsed : Status × FeatureVector D → Document D → Document D
  add_parsed (Status.success, vec) doc = add_feature_vector vec doc
  add_parsed (Status.failure, vec) doc = doc
  add_parsed (Status.asserts, vec) doc = doc

  -- The loop of `parse_feature_spaces`, which returns 0 whatever it meets.
  unfoldable pub parse_members : List (String × J) → Document D → Document D
  parse_members [] doc = doc
  parse_members ((space_name, value) ∷ l) doc =
      parse_members l (elim (get_space space_name feature_spaces) [
        | none ↦ doc
        | some space ↦
            add_parsed (parse_feature_vector value (record { space = space; features = [] })) doc
      ])

  unfoldable pub parse_feature_spaces : J → Document D → Status × Document D
  parse_feature_spaces json doc = (Status.success, parse_members (dom.members json) doc)

  -- "if uuid is not already set"; `none` where the "uuid" is missing or empty.
  unfoldable pub read_doc_id : (String → Option DocumentId) → J → Document D → Option (Document D)
  read_doc_id scan root output = elim (is_valid output.id) [
    | true ↦ some output
    | false ↦ elim (json_get_str dom root "uuid") [
      | none ↦ none
      | some uuid ↦ if uuid == "" then none else some (set_doc_id scan uuid output)
    ]
  ]

  unfoldable pub parse_json : (String → Option DocumentId) → J → Document D → Status × Document D
  parse_json scan root output = elim (dom.is_object root) [
    | false ↦ (Status.failure, output)
    | true ↦ elim (read_doc_id scan root output) [
      | none ↦ (Status.failure, output)
      | some doc ↦ elim (json_get_object dom root "features") [
        | none ↦ (Status.failure, doc)
        | some features ↦ parse_feature_spaces features doc
      ]
    ]
  ]
