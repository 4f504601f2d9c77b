-- ===== src/Tests/Parsers.antt =====
-- The theorems on features and on the parsers of requests at concrete inputs.
use Prim.Native.String.{String}
use red_giant.Prelude.{
  ℕ, ◌%◌, ◌<◌, ◌↔◌, ◌≡◌, refl, false, Option, none, ◌++◌, some, List, [], ◌∷◌, arith, inr,
}
use red_giant.Feature.{
  Feature, FeatureVector, create_feature, calculate_feature_id, get_part_space_id,
  get_part_feature_id, invalid_id, feature_range, mask_feature, mask_space, shift_space,
  integer_feature_id,
}
use red_giant.Feature.Ids.{key_number, create_feature-parts, create_feature-refused}
use red_giant.Feature.Spaces.{
  Status, no_spaces, get_space, get_space_internal, initialize, space_of, or_else, last_named,
  initialize-Declares, initialize-failure,
}
use red_giant.Key.Names.{find}
use red_giant.Json.{get_if, json_try_get_int, json_try_get_string, json_get_object}
use red_giant.DocumentId.{DocumentId, is_valid}
use red_giant.Parser.Query
use red_giant.Parser.Query.{QueryRequest}
use red_giant.Parser.Document
use red_giant.Parser.Document.{Document}
use red_giant.Parser.Vectors.{vectors_of, features_of}
use red_giant.Parser.Outcome.{identified, parse_json_document, parse_json-same}
use red_giant.Tests.Values.{
  JsonValue, JsonElements, JsonMembers, dom, lib, tags, clicks, two_spaces,
}

abbrev pub news : Feature
news = record { key = "news"; id = 216172782113783817 }

news_created : create_feature lib tags "news" ≡ some news
unfolding create_feature calculate_feature_id mask_space mask_feature shift_space
news_created = refl

create_feature-parts_example :
    (n : ℕ) × (some 9 ≡ some n)
    × (news.key ≡ "news")
    × (get_part_space_id news.id ≡ 3)
    × (get_part_feature_id news.id ≡ n % feature_range)
    × (news.id < invalid_id)
create_feature-parts_example = create_feature-parts lib tags "news" news news_created

create_feature-refused_example :
    (create_feature lib clicks "many" ≡ none) ↔ (key_number lib clicks.space_type "many" ≡ none)
create_feature-refused_example = create_feature-refused lib clicks "many" (omega arith)

-- { "id" : 3, "name" : "tags", "type" : "string" }
abbrev tags_config : JsonValue
tags_config = JsonValue.object (
    JsonMembers.member "id" (JsonValue.number 3) (
      JsonMembers.member "name" (JsonValue.quoted "tags")
        (JsonMembers.member "type" (JsonValue.quoted "string") JsonMembers.no_members)))

abbrev space_config : JsonValue
space_config = JsonValue.array (JsonElements.element tags_config JsonElements.no_elements)

-- The second element has no "id".
abbrev bad_config : JsonValue
bad_config = JsonValue.array (
    JsonElements.element tags_config
      (JsonElements.element (JsonValue.object JsonMembers.no_members) JsonElements.no_elements))

tags_declared : space_of dom tags_config ≡ some tags
unfolding space_of json_try_get_int json_try_get_string get_if
tags_declared = refl

nothing_declared : space_of dom (JsonValue.object JsonMembers.no_members) ≡ none
unfolding space_of json_try_get_int json_try_get_string get_if
nothing_declared = refl

initialize-Declares_example :
    ((initialize dom space_config no_spaces).0 ≡ Status.success)
    × ((name : String)
        → get_space name (initialize dom space_config no_spaces).1
          ≡ or_else (last_named name (tags ∷ [])) (get_space name no_spaces))
initialize-Declares_example =
    initialize-Declares dom space_config (tags ∷ []) no_spaces refl (refl, tags_declared, tt)

initialize-failure_example :
    ((initialize dom bad_config no_spaces).0 ≡ Status.failure)
    × ((name : String)
        → get_space name (initialize dom bad_config no_spaces).1
          ≡ or_else (last_named name (tags ∷ [])) (get_space name no_spaces))
initialize-failure_example =
    initialize-failure dom bad_config (JsonValue.object JsonMembers.no_members) (tags_config ∷ [])
      [] (tags ∷ []) no_spaces (inr (refl, (refl, tags_declared, tt), refl, nothing_declared))

-- { "features" : { "tags" : "news", "clicks" : { "7" : 2 }, "colours" : 1 }, "uuid" : "ab" }
abbrev request_json : JsonValue
request_json = JsonValue.object (
    JsonMembers.member "features"
      (JsonValue.object (
        JsonMembers.member "tags" (JsonValue.quoted "news") (
          JsonMembers.member "clicks"
            (JsonValue.object (JsonMembers.member "7" (JsonValue.number 2) JsonMembers.no_members))
            (JsonMembers.member "colours" (JsonValue.number 1) JsonMembers.no_members))))
      (JsonMembers.member "uuid" (JsonValue.quoted "ab") JsonMembers.no_members))

abbrev pub empty_request : QueryRequest ℕ
empty_request = record {
  request_id = "q";
  query_count = 10;
  model_name = "";
  feature_vectors = [];
  is_debug = false;
}

abbrev known_document : Document ℕ
known_document = record { id = record { low = 8; high = 0 }; id_str = "8"; feature_vectors = [] }

abbrev pub read_vectors : List (FeatureVector ℕ)
read_vectors =
    record { space = tags; features = (news, 1) ∷ [] }
    ∷ record { space = clicks; features = (record { key = "7"; id = 288230376151711751 }, 2) ∷ [] }
    ∷ []

-- The vectors that this request stands for.
read_vectors_lem :
    vectors_of dom lib 1 two_spaces (
      ("tags", JsonValue.quoted "news")
      ∷ (
        "clicks",
        JsonValue.object (JsonMembers.member "7" (JsonValue.number 2) JsonMembers.no_members),
      )
      ∷ ("colours", JsonValue.number 1)
      ∷ [])
    ≡ read_vectors
unfolding vectors_of get_space get_space_internal find features_of create_feature
    calculate_feature_id mask_space mask_feature shift_space integer_feature_id
read_vectors_lem = refl

no_scan : String → Option DocumentId
no_scan s = none

parse_json_document_example :
    Document.parse_json dom lib 1 two_spaces no_scan request_json known_document
    ≡ elim (identified dom no_scan request_json known_document) [
      | none ↦ (Status.failure, known_document)
      | some d ↦ elim (json_get_object dom request_json "features") [
        | none ↦ (Status.failure, d)
        | some fs ↦ (
          Status.success,
          record d {
            feature_vectors = d.feature_vectors ++ vectors_of dom lib 1 two_spaces (dom.members fs);
          },
        )
      ]
    ]
parse_json_document_example =
    parse_json_document dom lib 1 two_spaces no_scan request_json known_document

parse_json-same_example :
    ((Document.parse_json dom lib 1 two_spaces no_scan request_json known_document).0
      ≡ (Query.parse_json dom lib 1 two_spaces request_json empty_request).0)
    × ((Document.parse_json dom lib 1 two_spaces no_scan request_json
          known_document).1.feature_vectors
        ≡ (Query.parse_json dom lib 1 two_spaces request_json empty_request).1.feature_vectors)
unfolding is_valid
parse_json-same_example =
    parse_json-same dom lib 1 two_spaces no_scan request_json known_document empty_request refl refl
