-- ===== src/Parser/Vectors.antt =====
-- The feature vectors that a JSON object of features stands for.
use Prim.Native.String.{String}
use red_giant.Prelude.{Option, none, some, List, [], ◌∷◌, ◌++◌, if◌then◌else◌}
use red_giant.Json.{Dom}
use red_giant.Feature.{StringLibrary, Feature, FeatureSpace, FeatureVector, create_feature}
use red_giant.Feature.Spaces.{Status, FeatureSpaceManager, get_space}

-- A key that makes no feature gives nothing.
abbrev pub weighted : {D : Type 0} → Option Feature → D → List (Feature × D)
weighted none weight = []
weighted (some f) weight = (f, weight) ∷ []

abbrev pub filled : {D : Type 0} → FeatureSpace → List (Feature × D) → FeatureVector D
filled space features = record { space = space; features = features }

abbrev pub parsed :
    {D : Type 0} → FeatureSpace → Option (List (Feature × D)) → Status × FeatureVector D
parsed space none = (Status.failure, filled space [])
parsed space (some features) = (Status.success, filled space features)

module _ {J : Type 0} {D : Type 0} (dom : Dom J D) (lib : StringLibrary) (one : D) where
  -- `{ "football" : 1.0, "tennis" : 2.0 }`
  abbrev pub member_features : FeatureSpace → List (String × J) → List (Feature × D)
  member_features space [] = []
  member_features space ((name, value) ∷ l) =
      (if dom.is_number value
        then weighted (create_feature lib space name) (dom.get_double value)
        else [])
      ++ member_features space l

  -- `[ "football", "tennis" ]`
  abbrev pub element_features : FeatureSpace → List J → List (Feature × D)
  element_features space [] = []
  element_features space (it ∷ l) =
      (if dom.is_string it then weighted (create_feature lib space (dom.get_string it)) one else [])
      ++ element_features space l

  -- The features that a value stands for in a space; `none` for a value of another kind.
  unfoldable pub features_of : FeatureSpace → J → Option (List (Feature × D))
  features_of space value =
      if dom.is_number value
      then some (weighted (create_feature lib space "0") (dom.get_double value))
      else if dom.is_string value
      then some (weighted (create_feature lib space (dom.get_string value)) one)
      else if dom.is_object value
      then some (member_features space (dom.members value))
      else if dom.is_array value
      then some (element_features space (dom.elements value))
      else none

  -- The vectors of a JSON object: of each member whose name is a space that is known and whose
  -- value is of a kind that stands for features.
  unfoldable pub vectors_of : FeatureSpaceManager → List (String × J) → List (FeatureVector D)
  vectors_of spaces [] = []
  vectors_of spaces ((space_name, value) ∷ l) =
      elim (get_space space_name spaces) [
        | none ↦ []
        | some space ↦ elim (features_of space value) [
          | none ↦ []
          | some features ↦ filled space features ∷ []
        ]
      ]
      ++ vectors_of spaces l
