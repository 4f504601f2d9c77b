-- ===== src/Service.antt =====
-- query/simple_query_executor.cc, and handler/query_handler.cc, document_handler.cc and
-- snapshot_handler.cc: what becomes of a request.
pub mod Answers
pub mod Closing
pub mod Descriptors
pub mod Instance
pub mod Lifecycle
pub mod Rounds
pub mod Server
use Prim.Native.String.{String}
use text.Mathlib.Text.{◌==◌}
use red_giant.Prelude.{
  ℕ, suc, ◌+◌, ◌%◌, Bool, true, false, not, Option, none, some, List, [], ◌∷◌, if◌then◌else◌, ltb,
  ◌&&◌, is_some,
}
use red_giant.Feature.Spaces.{Status}
use red_giant.DocumentId.{DocumentId}
use red_giant.Parser.Query.{QueryRequest}
use red_giant.Parser.Document.{Document, empty_document, set_doc_id}
use red_giant.Ranking.{IntermQuery, RankingModel}

-- data/query_result.h, less the latencies.
pub record QueryResult (D : Type 0) : Type 0 where
  pub request_id : String
  pub results : List (String × D)
  pub error_status : Bool

-- The loop that converts the results.
unfoldable pub convert_results : {D : Type 0} → (ℕ → String) → List (ℕ × D) → List (String × D)
convert_results to_string [] = []
convert_results to_string ((id, score) ∷ l) = (to_string id, score) ∷ convert_results to_string l

-- `SimpleQueryExecutor::execute`: `query` is the query of the index for the features, which may
-- return no reader, and `read_topn` reads a number of results, after `results.reserve`, which throws
-- for a number above `max_size`; `none` is that exception.
unfoldable pub execute :
    {D : Type 0} {R : Type 0}
    → RankingModel D
    → (List (ℕ × D) → Option R)
    → (R → ℕ → List (ℕ × D))
    → ℕ
    → (ℕ → String)
    → QueryRequest D
    → Option (QueryResult D)
execute model query read_topn max_size to_string request = elim (model request) [
  | none ↦ some (record { request_id = request.request_id; results = []; error_status = true })
  | some interm_query ↦ elim (query interm_query.features) [
    | none ↦ some (record { request_id = request.request_id; results = []; error_status = false })
    | some reader ↦ elim (ltb max_size request.query_count) [
      | true ↦ none
      | false ↦ some (record {
        request_id = request.request_id;
        results = convert_results to_string (read_topn reader request.query_count);
        error_status = false;
      })
    ]
  ]
]

-- `RequestContext::METHOD_...`, those that the handlers name, and the others.
pub data Method : Type 0 where
  get post put other : Method

-- A request: `content` is what `get_content` copies, and `content_length` is 0 where the code's is
-- negative. A parameter that is not given is empty.
pub record RequestContext : Type 0 where
  pub method : Method
  pub content_length : ℕ
  pub content : String
  pub query_param : String → String

-- What is sent: the status, and the results in the body of a query that succeeds.
pub record Response (D : Type 0) : Type 0 where
  pub status : ℕ
  pub results : List (String × D)

abbrev pub refused : {D : Type 0} → ℕ → Response D
refused status = record { status = status; results = [] }

abbrev pub is_post : Method → Bool
is_post Method.post = true
is_post _ = false

abbrev pub is_put : Method → Bool
is_put Method.put = true
is_put _ = false

abbrev pub is_get : Method → Bool
is_get Method.get = true
is_get _ = false

-- `atoi` gives the `size_t` that the `int` is converted to, a huge one for a negative count; 10 where there is no count.
unfoldable pub query_count_of : (String → ℕ) → String → ℕ
query_count_of atoi query_count_str = if query_count_str == "" then 10 else atoi query_count_str

-- "read ttl": `stoul` is `none` where it throws; `ulong_max` is `ULONG_MAX`.
unfoldable pub ttl_of : (String → Option ℕ) → ℕ → ℕ → String → Option ℕ
ttl_of stoul ulong_max default_ttl ttl_str = elim (ttl_str == "") [
  | true ↦ some default_ttl
  | false ↦ elim (stoul ttl_str) [
    | none ↦ none
    | some ttl ↦ some (if ltb 0 ttl && ltb ttl ulong_max then ttl else default_ttl)
  ]
]

module _ {D : Type 0} where
  -- `QueryHandler::handle_request`: `parse` is that of the parser, which does not assert, and `run`
  -- the executor, which may throw, or return no result. No response where it throws, which nothing
  -- catches.
  unfoldable pub query_request_of : (String → ℕ) → RequestContext → QueryRequest D
  query_request_of atoi request = record {
    request_id = request.query_param "id";
    query_count = query_count_of atoi (request.query_param "count");
    model_name = request.query_param "model";
    feature_vectors = [];
    is_debug = request.query_param "debug" == "true";
  }

  unfoldable pub handle_query :
      (String → ℕ)
      → (String → QueryRequest D → Status × QueryRequest D)
      → (QueryRequest D → Option (Option (QueryResult D)))
      → RequestContext
      → Option (Response D)
  handle_query atoi parse run request = elim (is_post request.method) [
    | false ↦ some (refused 400)
    | true ↦ elim (ltb 0 request.content_length) [
      | false ↦ some (refused 400)
      | true ↦ elim (ltb 0 (query_count_of atoi (request.query_param "count"))) [
        | false ↦ some (refused 400)
        | true ↦
            let (ret, query_request) = parse request.content (query_request_of atoi request) in
            elim ret [
              | Status.failure ↦ some (refused 400)
              | Status.asserts ↦ some (refused 400)
              | Status.success ↦ elim (run query_request) [
                | none ↦ none
                | some none ↦ some (refused 500)
                | some (some result) ↦
                    if result.error_status
                    then some (refused 500)
                    else some (record { status = 200; results = result.results })
              ]
            ]
      ]
    ]
  ]

  -- The document before it is parsed.
  unfoldable pub document_of : (String → Option DocumentId) → RequestContext → Document D
  document_of scan request =
      if request.query_param "uuid" == ""
      then empty_document
      else set_doc_id scan (request.query_param "uuid") empty_document

  -- `DocumentHandler::handle_request` at the time `now`: the response, and the document that is
  -- handed on with its expire time, the sum as an `unsigned long`, from which a `time_t` keeps the
  -- bits; no response where `std::stoul` throws, which nothing catches.
  unfoldable pub handle_document :
      (String → Option DocumentId)
      → (String → Option ℕ)
      → ℕ
      → ℕ
      → ℕ
      → (String → Document D → Status × Document D)
      → RequestContext
      → Option (Response D × Option (ℕ × Document D))
  handle_document scan stoul ulong_max default_ttl now parse request =
      elim (is_put request.method) [
        | false ↦ some (refused 400, none)
        | true ↦ elim (ltb 0 request.content_length) [
          | false ↦ some (refused 400, none)
          | true ↦
              let (ret, doc) = parse request.content (document_of scan request) in
              elim ret [
                | Status.failure ↦ some (refused 400, none)
                | Status.asserts ↦ some (refused 400, none)
                | Status.success ↦
                    elim (ttl_of stoul ulong_max default_ttl (request.query_param "ttl")) [
                      | none ↦ none
                      | some ttl ↦ some (refused 200, some ((now + ttl) % suc ulong_max, doc))
                    ]
              ]
        ]
      ]

  -- `SnapshotHandler::handle_request`: the response, and whether a dump was asked for.
  unfoldable pub handle_snapshot : RequestContext → Response D × Bool
  handle_snapshot request =
      if is_get request.method then (refused 200, true) else (refused 400, false)
