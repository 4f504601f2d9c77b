-- ===== src/Ranking.antt =====
-- ranking/direct_model.cc and feature_mapping_model.cc: the models that make the features to query
-- for of a request.
pub mod Mapping
pub mod Manager
pub mod Created
use red_giant.Prelude.{
  ℕ, Bool, true, false, Option, none, some, List, [], ◌∷◌, ◌++◌, if◌then◌else◌, ◌==◌, ltb,
}
use red_giant.Feature.{Feature, FeatureSpace, FeatureVector, project_to_space}
use red_giant.Parser.Query.{QueryRequest}

-- `double`: `+`, `*`, and `weight <= 0`.
pub record Arithmetic (D : Type 0) : Type 0 where
  pub plus : D → D → D
  pub times : D → D → D
  pub is_not_positive : D → Bool

-- data/interm_query.h
pub record IntermQuery (D : Type 0) : Type 0 where
  pub features : List (ℕ × D)

-- `RankingModel`, which is its `process`; `none` is `nullptr`.
abbrev pub RankingModel : Type 0 → Type 0
RankingModel D = QueryRequest D → Option (IntermQuery D)

module _ {D : Type 0} where
  -- The loops of `DirectModel::process`.
  unfoldable pub direct_features : List (Feature × D) → List (ℕ × D)
  direct_features [] = []
  direct_features ((f, weight) ∷ l) = (f.id, weight) ∷ direct_features l

  unfoldable pub direct_vectors : List (FeatureVector D) → List (ℕ × D)
  direct_vectors [] = []
  direct_vectors (fv ∷ l) = direct_features fv.features ++ direct_vectors l

  unfoldable pub direct_process : QueryRequest D → IntermQuery D
  direct_process request = record { features = direct_vectors request.feature_vectors }

-- `SingleMapping`
pub record SingleMapping (D : Type 0) : Type 0 where
  pub from : FeatureSpace
  pub to : FeatureSpace
  pub weight : D

-- `std::unordered_multimap` by the id of the space that is mapped.
pub record FeatureMappingModel (D : Type 0) : Type 0 where
  pub mappings : List (ℕ × SingleMapping D)

unfoldable pub set_mapping :
    {D : Type 0} → FeatureSpace → FeatureSpace → D → FeatureMappingModel D → FeatureMappingModel D
set_mapping from to weight model = record {
  mappings =
      model.mappings ++ (from.space_id, record { from = from; to = to; weight = weight }) ∷ [];
}

-- The values of the elements with the key, `equal_range`.
unfoldable pub equal_range : {V : Type 0} → ℕ → List (ℕ × V) → List V
equal_range k [] = []
equal_range k ((j, v) ∷ l) = let rest = equal_range k l in if j == k then v ∷ rest else rest

module _ {D : Type 0} (num : Arithmetic D) where
  -- `emplace` into the `std::map` of terms, and `+=` where the id is there already.
  unfoldable pub add_term : ℕ → D → List (ℕ × D) → List (ℕ × D)
  add_term id s [] = (id, s) ∷ []
  add_term id s ((j, t) ∷ l) =
      let rest = add_term id s l in
      if id == j
      then (j, num.plus t s) ∷ l
      else if ltb id j
      then (id, s) ∷ (j, t) ∷ l
      else (j, t) ∷ rest

  -- The loops of `FeatureMappingModel::process`, from the inmost on.
  unfoldable pub map_features : FeatureSpace → D → List (Feature × D) → List (ℕ × D) → List (ℕ × D)
  map_features space weight [] terms = terms
  map_features space weight ((f, w) ∷ l) terms =
      map_features space weight l
        (add_term (project_to_space space f.id) (num.times w weight) terms)

  unfoldable pub map_range : FeatureVector D → List (SingleMapping D) → List (ℕ × D) → List (ℕ × D)
  map_range fv [] terms = terms
  map_range fv (m ∷ l) terms =
      map_range fv l (
        if num.is_not_positive m.weight
        then terms
        else map_features m.to m.weight fv.features terms)

  unfoldable pub map_vectors :
      FeatureMappingModel D → List (FeatureVector D) → List (ℕ × D) → List (ℕ × D)
  map_vectors model [] terms = terms
  map_vectors model (fv ∷ l) terms =
      map_vectors model l (map_range fv (equal_range fv.space.space_id model.mappings) terms)

  unfoldable pub mapping_process : FeatureMappingModel D → QueryRequest D → IntermQuery D
  mapping_process model request = record { features = map_vectors model request.feature_vectors [] }
