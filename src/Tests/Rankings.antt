-- ===== src/Tests/Rankings.antt =====
-- The theorems on the ranking models at concrete inputs.
use red_giant.Prelude.{ℕ, ◌+◌, ◌*◌, ◌≡◌, refl, false, none, [], ◌∷◌, ◌==◌}
use red_giant.Key.{nat_key}
use red_giant.Key.Assoc.{lookup}
use red_giant.Key.Names.{find, emplace}
use red_giant.Json.{get_if, json_get_array, json_try_get_string, json_try_get_double}
use red_giant.Feature.Spaces.{get_space, get_space_internal}
use red_giant.Parser.Query.{QueryRequest}
use red_giant.Ranking.{Arithmetic, FeatureMappingModel, mapping_process, set_mapping}
use red_giant.Ranking.Mapping.{mapping_process-sum_of, sum_of, scores, AscendsFrom}
use red_giant.Ranking.Manager.{
  created, no_models, ModelManager, ModelManagerFactory, mapping_create_model, add_mappings,
  add_mapping, direct_create_model, create_models, model_entry, set_model,
}
use red_giant.Ranking.Created.{or_first, first_model, create_models-first_model}
use red_giant.Tests.Values.{
  JsonValue, JsonElements, JsonMembers, dom, tags, topics, clicks, two_spaces,
}

abbrev num : Arithmetic ℕ
num = record { plus = ◌+◌; times = ◌*◌; is_not_positive = λ w. w == 0 }

abbrev two_mappings : FeatureMappingModel ℕ
two_mappings = record {
  mappings =
      (3, record { from = tags; to = topics; weight = 2 })
      ∷ (3, record { from = tags; to = clicks; weight = 5 })
      ∷ [];
}

abbrev request : QueryRequest ℕ
request = record {
  request_id = "q";
  query_count = 10;
  model_name = "";
  feature_vectors =
      record { space = tags; features = (record { key = "news"; id = 216172782113783817 }, 3) ∷ [] }
      ∷ [];
  is_debug = false;
}

mapping_process-sum_of_example :
    (lookup 9 (mapping_process num two_mappings request).features
      ≡ sum_of num 9 none (scores num two_mappings request.feature_vectors))
    × AscendsFrom num 0 (mapping_process num two_mappings request).features
mapping_process-sum_of_example = mapping_process-sum_of num two_mappings request 9

-- { "mappings" : [ { "from" : "tags", "to" : "clicks", "weight" : 4 } ] }
abbrev mapping_config : JsonValue
mapping_config = JsonValue.object (
    JsonMembers.member "mappings"
      (JsonValue.array (
        JsonElements.element
          (JsonValue.object (
            JsonMembers.member "from" (JsonValue.quoted "tags") (
              JsonMembers.member "to" (JsonValue.quoted "clicks")
                (JsonMembers.member "weight" (JsonValue.number 4) JsonMembers.no_members))))
          JsonElements.no_elements))
      JsonMembers.no_members)

abbrev made_model : FeatureMappingModel ℕ
made_model = record { mappings = (3, record { from = tags; to = clicks; weight = 4 }) ∷ [] }

made_model_lem : mapping_create_model dom num two_spaces mapping_config ≡ created made_model
unfolding mapping_create_model add_mappings add_mapping set_mapping json_get_array
    json_try_get_string json_try_get_double get_if get_space get_space_internal find
made_model_lem = refl

-- { "type" : "direct", "name" : "plain" }
abbrev plain_config : JsonValue
plain_config = JsonValue.object (
    JsonMembers.member "type" (JsonValue.quoted "direct")
      (JsonMembers.member "name" (JsonValue.quoted "plain") JsonMembers.no_members))

abbrev factories : ModelManagerFactory dom num
factories = record { model_factories = ("direct", direct_create_model dom num) ∷ [] }

plain_created :
    (m : ModelManager ℕ) × (create_models dom num factories (plain_config ∷ []) no_models
      ≡ created m)
unfolding create_models model_entry set_model direct_create_model json_try_get_string get_if find
    emplace
plain_created = (_, refl)

create_models-first_model_example :
    find "plain" plain_created.0.models
    ≡ or_first dom num
        (find "plain" (no_models {D = ℕ}).models)
        (first_model dom num factories "plain" (plain_config ∷ []))
create_models-first_model_example =
    create_models-first_model dom num factories "plain" (plain_config ∷ []) no_models
      plain_created.0 plain_created.1
