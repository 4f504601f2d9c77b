-- ===== src/Parser/Outcome.antt =====
-- What `parse_json` of each parser gives for every request: its status, and what it has read.
use Prim.Native.String.{String}
use text.Mathlib.Text.{◌==◌}
use red_giant.Prelude.{
  ◌≡◌, true, Option, none, some, ◌++◌, if◌then◌else◌, arith, Option-cases, inl, inr,
}
use red_giant.Json.{Dom, json_get_object, json_get_str}
use red_giant.Feature.{StringLibrary}
use red_giant.Feature.Spaces.{Status, FeatureSpaceManager}
use red_giant.DocumentId.{DocumentId, is_valid}
use red_giant.Parser.Vectors.{vectors_of}
use red_giant.Parser.Reads.{parse_members-vectors_of, parse_members_document}
use red_giant.Parser.Query
use red_giant.Parser.Query.{QueryRequest}
use red_giant.Parser.Document
use red_giant.Parser.Document.{Document, document_id, set_doc_id}

-- The "features" of a request, where it is an object that has an object there.
abbrev pub features_member : {J : Type 0} {D : Type 0} → Dom J D → J → Option J
features_member dom root = if dom.is_object root then json_get_object dom root "features" else none

-- The document with its id: its own, or else that of the "uuid", which must not be empty.
abbrev pub identified :
    {J : Type 0} {D : Type 0}
    → Dom J D
    → (String → Option DocumentId)
    → J
    → Document D
    → Option (Document D)
identified dom scan root d = if is_valid d.id then some d else elim (json_get_str dom root "uuid") [
  | none ↦ none
  | some uuid ↦
      if uuid == "" then none else some (record d { id = document_id scan uuid; id_str = uuid })
]

module _ {J : Type 0} {D : Type 0} (dom : Dom J D) (lib : StringLibrary) (one : D)
    (spaces : FeatureSpaceManager) where
  -- A query is refused, and left as it was, if it is no object or has no object "features";
  -- otherwise it is accepted, and the vectors that the features stand for are added to it.
  pub parse_json_query :
      (root : J) (r : QueryRequest D)
      → Query.parse_json dom lib one spaces root r ≡ elim (features_member dom root) [
        | none ↦ (Status.failure, r)
        | some fs ↦ (
          Status.success,
          record r {
            feature_vectors = r.feature_vectors ++ vectors_of dom lib one spaces (dom.members fs);
          },
        )
      ]
  unfolding Query.parse_json Query.parse_feature_spaces
  parse_json_query root r = elim (Option-cases (json_get_object dom root "features")) [
    | inl e ↦ ground arith
    | inr (fs, e) ↦ ground (arith, parse_members-vectors_of dom lib one spaces (dom.members fs) r)
  ]

  -- A document is refused, and left as it was, if it is no object, or has neither an id nor a "uuid"
  -- that is not empty; it is refused with its id set if it has no object "features"; otherwise it
  -- is accepted, with its id, and the vectors that the features stand for are added to it.
  pub parse_json_document :
      (scan : String → Option DocumentId) (root : J) (d : Document D)
      → Document.parse_json dom lib one spaces scan root d ≡ (
          if dom.is_object root
          then elim (identified dom scan root d) [
            | none ↦ (Status.failure, d)
            | some d' ↦ elim (json_get_object dom root "features") [
              | none ↦ (Status.failure, d')
              | some fs ↦ (
                Status.success,
                record d' {
                  feature_vectors =
                      d'.feature_vectors ++ vectors_of dom lib one spaces (dom.members fs);
                },
              )
            ]
          ]
          else (Status.failure, d))
  unfolding Document.parse_json Document.parse_feature_spaces Document.read_doc_id set_doc_id
  parse_json_document scan root d = elim (Option-cases (json_get_object dom root "features")) [
    | inl e ↦ ground arith
    | inr (fs, e) ↦ elim (Option-cases (json_get_str dom root "uuid")) [
      | inl u ↦ ground (arith, parse_members_document dom lib one spaces (dom.members fs) d)
      | inr (uuid, u) ↦ ground (
        arith,
        parse_members_document dom lib one spaces (dom.members fs) d,
        parse_members_document dom lib one spaces (dom.members fs) (set_doc_id scan uuid d),
      )
    ]
  ]

  -- A document that has its id and a query are accepted or refused alike, and read the same
  -- vectors, so that what is indexed and what is asked for have the same feature ids.
  pub parse_json-same :
      (scan : String → Option DocumentId) (root : J) (d : Document D) (r : QueryRequest D)
      → is_valid d.id ≡ true
      → d.feature_vectors ≡ r.feature_vectors
      → ((Document.parse_json dom lib one spaces scan root d).0
          ≡ (Query.parse_json dom lib one spaces root r).0)
        × ((Document.parse_json dom lib one spaces scan root d).1.feature_vectors
            ≡ (Query.parse_json dom lib one spaces root r).1.feature_vectors)
  parse_json-same scan root d r v e =
      let q = parse_json_query root r in
      let p = parse_json_document scan root d in ground (arith, q, p)
