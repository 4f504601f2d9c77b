-- ===== src/Service/Answers.antt =====
-- The status of every answer, and what is handed on.
use Prim.Native.String.{String}
use red_giant.Prelude.{
  ℕ, Bool, false, is_some, ◌<◌, ◌≡◌, ◌≢◌, ◌↔◌, ◌⊎◌, inl, inr, refl, true, Option, none, some, List,
  [], arith, ltb, ◌&&◌, Bool-cases, Option-cases,
}
use red_giant.Feature.Spaces.{Status}
use red_giant.DocumentId.{DocumentId}
use red_giant.Parser.Query.{QueryRequest}
use red_giant.Parser.Document.{Document}
use red_giant.Ranking.{RankingModel}
use red_giant.Service.{
  execute, QueryResult, Method, is_post, RequestContext, Response, query_count_of, query_request_of,
  handle_query,
}

is_post_iff : (m : Method) → (is_post m ≡ true) ↔ (m ≡ Method.post)
is_post_iff Method.get = ground arith
is_post_iff Method.post = ground arith
is_post_iff Method.put = ground arith
is_post_iff Method.other = ground arith

Status-cases : (s : Status) → (s ≡ Status.success) ⊎ ((s ≡ Status.failure) ⊎ (s ≡ Status.asserts))
Status-cases Status.success = inl refl
Status-cases Status.failure = inr (inl refl)
Status-cases Status.asserts = inr (inr refl)

-- The status that is sent, or 0 where an exception ends the server.
abbrev pub status_of : {D : Type 0} → Option (Response D) → ℕ
status_of none = 0
status_of (some response) = response.status

abbrev pub results_of : {D : Type 0} → Option (Response D) → List (String × D)
results_of none = []
results_of (some response) = response.results

module _ {D : Type 0} {R : Type 0} (model : RankingModel D) (query : List (ℕ × D) → Option R)
    (read_topn : R → ℕ → List (ℕ × D)) (max_size : ℕ) (to_string : ℕ → String) (atoi : String → ℕ)
    (parse : String → QueryRequest D → Status × QueryRequest D) where
  -- The executor never returns a null pointer.
  abbrev pub run : QueryRequest D → Option (Option (QueryResult D))
  run r = elim (execute model query read_topn max_size to_string r) [
    | none ↦ none
    | some result ↦ some (some result)
  ]

  abbrev pub answer : RequestContext → Option (Response D)
  answer request = handle_query atoi parse run request

  -- The request is well formed: POST, with content, a count that is not 0, and features that parse.
  abbrev pub IsWellFormed : RequestContext → Type 0
  IsWellFormed request =
      (request.method ≡ Method.post)
      × (0 < request.content_length)
      × (0 < query_count_of atoi (request.query_param "count"))
      × ((parse request.content (query_request_of atoi request)).0 ≡ Status.success)

  -- The index has a reader for what the model makes of the query, and the count is above the numbers
  -- of results that can be reserved.
  abbrev pub exceeds : QueryRequest D → Bool
  exceeds r = elim (model r) [
    | none ↦ false
    | some q ↦ is_some (query q.features) && ltb max_size r.query_count
  ]

  -- A query that is well formed ends the server exactly when it finds a reader and asks for more
  -- results than can be reserved, as with a negative count; otherwise it is answered with 200 if a
  -- model processes it, and with 500 if none does; all other requests are answered with 400. Only an
  -- answer of 200 has results.
  pub answer-status :
      (request : RequestContext)
      → let query_request = (parse request.content (query_request_of atoi request)).1 in
        let processed = model query_request in
        let response = answer request in
        ((status_of response ≡ 0) ↔ (IsWellFormed request × (exceeds query_request ≡ true)))
        × ((status_of response ≡ 200)
            ↔ (IsWellFormed request × (processed ≢ none) × (exceeds query_request ≡ false)))
        × ((status_of response ≡ 500) ↔ (IsWellFormed request × (processed ≡ none)))
        × ((status_of response ≡ 0)
            ⊎ (status_of response ≡ 200)
            ⊎ (status_of response ≡ 500)
            ⊎ (status_of response ≡ 400))
        × (status_of response ≢ 200 → results_of response ≡ [])
  unfolding handle_query execute
  answer-status request =
      let p = parse request.content (query_request_of atoi request) in
      let m = is_post_iff request.method in
      elim (Option-cases (model p.1)) [
        | inl e ↦ ground (arith, e, m, Status-cases p.0)
        | inr (q, e) ↦ elim (Option-cases (query q.features)) [
          | inl f ↦ ground (arith, e, f, m, Status-cases p.0)
          | inr (r, f) ↦ elim (Bool-cases (ltb max_size p.1.query_count)) [
            | inl g ↦ ground (arith, e, f, g, m, Status-cases p.0)
            | inr g ↦ ground (arith, e, f, g, m, Status-cases p.0)
          ]
        ]
      ]
