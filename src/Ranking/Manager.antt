-- ===== src/Ranking/Manager.antt =====
-- ranking/model_manager.h and .cc, and the factories of direct_model.cc and
-- feature_mapping_model.cc: the models by name, and how a configuration makes them.
use Prim.Native.String.{String}
use text.Mathlib.Text.{◌==◌}
use red_giant.Prelude.{true, false, Option, none, some, List, [], ◌∷◌, if◌then◌else◌}
use red_giant.Json.{Dom, json_get_array, json_get_str, json_try_get_string, json_try_get_double}
use red_giant.Key.Names.{find, emplace}
use red_giant.Feature.Spaces.{Status, FeatureSpaceManager, get_space}
use red_giant.Parser.Query.{QueryRequest}
use red_giant.Ranking.{
  Arithmetic, IntermQuery, RankingModel, FeatureMappingModel, set_mapping, direct_process,
  mapping_process,
}

-- What a factory returns: `nullptr`, an object, or nothing, since an assertion of rapidjson fails.
pub data Creation (A : Type 0) : Type 0 where
  asserts null : Creation A
  created : A → Creation A

abbrev pub made : {A : Type 0} {B : Type 0} → (A → B) → Creation A → Creation B
made f asserts = asserts
made f null = null
made f (created a) = created (f a)

pub record ModelManager (D : Type 0) : Type 0 where
  pub models : List (String × Option (RankingModel D))
  pub default_model_name : String

-- `ModelManager()`
abbrev pub no_models : {D : Type 0} → ModelManager D
no_models = record { models = []; default_model_name = "" }

module _ {D : Type 0} where
  unfoldable pub set_model : String → Option (RankingModel D) → ModelManager D → ModelManager D
  set_model name model m = record m { models = (emplace name model m.models).0 }

  -- `none`: no model of this name, or a null pointer.
  unfoldable pub get_model : String → ModelManager D → Option (RankingModel D)
  get_model name m = elim (find name m.models) [ none ↦ none | some model ↦ model ]

  unfoldable pub set_default_model_name : String → ModelManager D → ModelManager D
  set_default_model_name name m = record m { default_model_name = name }

  unfoldable pub manager_process : ModelManager D → QueryRequest D → Option (IntermQuery D)
  manager_process m request =
      let name = if request.model_name == "" then m.default_model_name else request.model_name in
      elim (find name m.models) [
        | none ↦ none
        | some iter ↦ elim iter [ none ↦ none | some model ↦ model request ]
      ]

module _ {J : Type 0} {D : Type 0} (dom : Dom J D) (num : Arithmetic D) where
  -- `RankingModelFactory`, less its type, which is the key under which it is registered.
  abbrev pub RankingModelFactory : Type 0
  RankingModelFactory = J → Creation (RankingModel D)

  -- The name and the type are read for the log only.
  unfoldable pub direct_create_model : RankingModelFactory
  direct_create_model config =
      if dom.is_object config then created (λ request. some (direct_process request)) else asserts

  -- The mapping that an element stands for, where it is complete, its spaces are known, and its
  -- weight is positive.
  unfoldable pub add_mapping :
      FeatureSpaceManager → J → FeatureMappingModel D → FeatureMappingModel D
  add_mapping spaces mapping model = elim (json_try_get_string dom mapping "from") [
    | none ↦ model
    | some from ↦ elim (json_try_get_string dom mapping "to") [
      | none ↦ model
      | some to ↦ elim (json_try_get_double dom mapping "weight") [
        | none ↦ model
        | some weight ↦ elim (get_space from spaces) [
          | none ↦ model
          | some from_space ↦ elim (get_space to spaces) [
            | none ↦ model
            | some to_space ↦
                if num.is_not_positive weight
                then model
                else set_mapping from_space to_space weight model
          ]
        ]
      ]
    ]
  ]

  unfoldable pub add_mappings :
      FeatureSpaceManager → List J → FeatureMappingModel D → Creation (FeatureMappingModel D)
  add_mappings spaces [] model = created model
  add_mappings spaces (mapping ∷ l) model = elim (dom.is_object mapping) [
    | false ↦ asserts
    | true ↦ add_mappings spaces l (add_mapping spaces mapping model)
  ]

  unfoldable pub mapping_create_model : FeatureSpaceManager → J → Creation (FeatureMappingModel D)
  mapping_create_model spaces config = elim (dom.is_object config) [
    | false ↦ null
    | true ↦ elim (json_get_array dom config "mappings") [
      | none ↦ null
      | some mappings ↦ add_mappings spaces (dom.elements mappings) (record { mappings = [] })
    ]
  ]

  -- The same as a `RankingModelFactory`.
  abbrev pub mapping_factory : FeatureSpaceManager → RankingModelFactory
  mapping_factory spaces config =
      made (λ model. λ request. some (mapping_process num model request))
        (mapping_create_model spaces config)

  pub record ModelManagerFactory : Type 0 where
    pub model_factories : List (String × RankingModelFactory)

  unfoldable pub register_model_factory :
      String → RankingModelFactory → ModelManagerFactory → Status × ModelManagerFactory
  register_model_factory type factory f =
      let (factories, inserted) = emplace type factory f.model_factories in
      (
        if inserted then Status.success else Status.failure,
        record f { model_factories = factories },
      )

  unfoldable pub get_model_factory : String → ModelManagerFactory → Option RankingModelFactory
  get_model_factory type f = find type f.model_factories

  -- One element of "models", an object: the name and the factory that it stands for.
  unfoldable pub model_entry : ModelManagerFactory → J → Option (String × RankingModelFactory)
  model_entry f model = elim (json_try_get_string dom model "type") [
    | none ↦ none
    | some type ↦ elim (find type f.model_factories) [
      | none ↦ none
      | some factory ↦ elim (json_try_get_string dom model "name") [
        | none ↦ none
        | some name ↦ some (name, factory)
      ]
    ]
  ]

  unfoldable pub create_models :
      ModelManagerFactory → List J → ModelManager D → Creation (ModelManager D)
  create_models f [] m = created m
  create_models f (model ∷ l) m = elim (dom.is_object model) [
    | false ↦ asserts
    | true ↦ elim (model_entry f model) [
      | none ↦ create_models f l m
      | some entry ↦ elim (entry.1 model) [
        | asserts ↦ asserts
        | null ↦ create_models f l (set_model entry.0 none m)
        | created r ↦ create_models f l (set_model entry.0 (some r) m)
      ]
    ]
  ]

  unfoldable pub manager_create_model : ModelManagerFactory → J → Creation (ModelManager D)
  manager_create_model f config = elim (dom.is_object config) [
    | false ↦ null
    | true ↦ elim (json_get_array dom config "models") [
      | none ↦ null
      | some models ↦
          create_models f (dom.elements models) (elim (json_get_str dom config "default_model") [
            | none ↦ no_models
            | some name ↦ if name == "" then no_models else set_default_model_name name no_models
          ])
    ]
  ]
