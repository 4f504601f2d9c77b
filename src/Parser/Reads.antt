-- ===== src/Parser/Reads.antt =====
-- Both parsers read the feature vectors that the features of a request stand for.
use mathlib.Core.List.{append-nil, append_assoc}
use Prim.Native.String.{String}
use red_giant.Prelude.{
  ◌≡◌, refl, ap, ◌∙◌, Option, none, some, List, [], ◌∷◌, ◌++◌, arith, Bool-cases, Option-cases, inl,
  inr,
}
use red_giant.Json.{Dom}
use red_giant.Feature.{StringLibrary, Feature, FeatureSpace, FeatureVector, create_feature}
use red_giant.Feature.Spaces.{FeatureSpaceManager, get_space}
use red_giant.Parser.Vectors.{
  weighted, member_features, element_features, features_of, filled, parsed, vectors_of,
}
use red_giant.Parser.Query
use red_giant.Parser.Query.{QueryRequest}
use red_giant.Parser.Document
use red_giant.Parser.Document.{Document}

module _ {J : Type 0} {D : Type 0} (dom : Dom J D) (lib : StringLibrary) (one : D)
    (spaces : FeatureSpaceManager) where
  add_created-weighted :
      (o : Option Feature) (w : D) (s : FeatureSpace) (fs : List (Feature × D))
      → Query.add_created o w (filled s fs) ≡ filled s (fs ++ weighted o w)
  unfolding Query.add_created
  add_created-weighted none w s fs = cc (append-nil fs)
  add_created-weighted (some f) w s fs = refl

  add_members-filled :
      (s : FeatureSpace) (l : List (String × J)) (fs : List (Feature × D))
      → Query.add_members dom lib one spaces l (filled s fs)
        ≡ filled s (fs ++ member_features dom lib one s l)
  unfolding Query.add_members
  add_members-filled s [] fs = cc (append-nil fs)
  add_members-filled s ((k, v) ∷ l) fs =
      let w = weighted (create_feature lib s k) (dom.get_double v) in
      elim (Bool-cases (dom.is_number v)) [
        | inl e ↦
            rw
              (
                e,
                add_created-weighted (create_feature lib s k) (dom.get_double v) s fs,
                add_members-filled s l (fs ++ w),
              )
              (cc (append_assoc fs w (member_features dom lib one s l)))
        | inr e ↦ rw (e, add_members-filled s l fs) refl
      ]

  add_elements-filled :
      (s : FeatureSpace) (l : List J) (fs : List (Feature × D))
      → Query.add_elements dom lib one spaces l (filled s fs)
        ≡ filled s (fs ++ element_features dom lib one s l)
  unfolding Query.add_elements
  add_elements-filled s [] fs = cc (append-nil fs)
  add_elements-filled s (v ∷ l) fs =
      let w = weighted (create_feature lib s (dom.get_string v)) one in
      elim (Bool-cases (dom.is_string v)) [
        | inl e ↦
            rw
              (
                e,
                add_created-weighted (create_feature lib s (dom.get_string v)) one s fs,
                add_elements-filled s l (fs ++ w),
              )
              (cc (append_assoc fs w (element_features dom lib one s l)))
        | inr e ↦ rw (e, add_elements-filled s l fs) refl
      ]

  -- The value of a member is parsed to the features that it stands for, or refused where its kind
  -- stands for none.
  parse_feature_vector-parsed :
      (s : FeatureSpace) (v : J)
      → Query.parse_feature_vector dom lib one spaces v (filled s [])
        ≡ parsed s (features_of dom lib one s v)
  unfolding Query.parse_feature_vector Query.parse_feature_vector_single_weighted
      Query.parse_feature_vector_single_unitary Query.parse_feature_vector_multiple_weighted
      Query.parse_feature_vector_multiple_unitary features_of
  parse_feature_vector-parsed s v = ground (
    arith,
    add_created-weighted (create_feature lib s "0") (dom.get_double v) s [],
    add_created-weighted (create_feature lib s (dom.get_string v)) one s [],
    add_members-filled s (dom.members v) [],
    add_elements-filled s (dom.elements v) [],
  )

  pub parse_members-vectors_of :
      (l : List (String × J)) (r : QueryRequest D)
      → Query.parse_members dom lib one spaces l r
        ≡ record r { feature_vectors = r.feature_vectors ++ vectors_of dom lib one spaces l }
  unfolding Query.parse_members Query.add_parsed Query.add_feature_vector vectors_of
  parse_members-vectors_of [] r = cc (append-nil r.feature_vectors)
  parse_members-vectors_of ((name, v) ∷ l) r = elim (Option-cases (get_space name spaces)) [
    | inl e ↦ rw (e, parse_members-vectors_of l r) refl
    | inr (s, e) ↦ elim (Option-cases (features_of dom lib one s v)) [
      | inl o ↦ rw (e, parse_feature_vector-parsed s v, o, parse_members-vectors_of l r) refl
      | inr (fs, o) ↦
          rw (e, parse_feature_vector-parsed s v, o)
            (parse_members-vectors_of l (Query.add_feature_vector (filled s fs) r)
              ∙ ap (λ vs. record r { feature_vectors = vs })
                  (append_assoc r.feature_vectors (filled s fs ∷ [])
                    (vectors_of dom lib one spaces l)))
    ]
  ]

  add_created-same :
      (o : Option Feature) (w : D) (vec : FeatureVector D)
      → Document.add_created o w vec ≡ Query.add_created o w vec
  unfolding Document.add_created Query.add_created
  add_created-same none w vec = refl
  add_created-same (some f) w vec = refl

  add_members-same :
      (l : List (String × J)) (vec : FeatureVector D)
      → Document.add_members dom lib one spaces l vec ≡ Query.add_members dom lib one spaces l vec
  unfolding Document.add_members Query.add_members
  add_members-same [] vec = refl
  add_members-same ((k, v) ∷ l) vec =
      simp (add_created-same (create_feature lib vec.space k) (dom.get_double v) vec)
        (add_members-same l _)

  add_elements-same :
      (l : List J) (vec : FeatureVector D)
      → Document.add_elements dom lib one spaces l vec ≡ Query.add_elements dom lib one spaces l vec
  unfolding Document.add_elements Query.add_elements
  add_elements-same [] vec = refl
  add_elements-same (v ∷ l) vec =
      simp (add_created-same (create_feature lib vec.space (dom.get_string v)) one vec)
        (add_elements-same l _)

  -- The two parsers make the same of a value.
  pub parse_feature_vector-same :
      (v : J) (vec : FeatureVector D)
      → Document.parse_feature_vector dom lib one spaces v vec
        ≡ Query.parse_feature_vector dom lib one spaces v vec
  unfolding Document.parse_feature_vector Document.parse_feature_vector_single_weighted
      Document.parse_feature_vector_single_unitary Document.parse_feature_vector_multiple_weighted
      Document.parse_feature_vector_multiple_unitary Query.parse_feature_vector
      Query.parse_feature_vector_single_weighted Query.parse_feature_vector_single_unitary
      Query.parse_feature_vector_multiple_weighted Query.parse_feature_vector_multiple_unitary
  parse_feature_vector-same v vec = simp (
    add_created-same (create_feature lib vec.space "0") (dom.get_double v) vec,
    add_created-same (create_feature lib vec.space (dom.get_string v)) one vec,
    add_members-same (dom.members v) vec,
    add_elements-same (dom.elements v) vec,
  )

  pub parse_members_document :
      (l : List (String × J)) (d : Document D)
      → Document.parse_members dom lib one spaces l d
        ≡ record d { feature_vectors = d.feature_vectors ++ vectors_of dom lib one spaces l }
  unfolding Document.parse_members Document.add_parsed Document.add_feature_vector vectors_of
  parse_members_document [] d = cc (append-nil d.feature_vectors)
  parse_members_document ((name, v) ∷ l) d = elim (Option-cases (get_space name spaces)) [
    | inl e ↦ rw (e, parse_members_document l d) refl
    | inr (s, e) ↦
        let p = parse_feature_vector-same v (filled s []) ∙ parse_feature_vector-parsed s v in
        elim (Option-cases (features_of dom lib one s v)) [
          | inl o ↦ rw (e, p, o, parse_members_document l d) refl
          | inr (fs, o) ↦
              rw (e, p, o)
                (parse_members_document l (Document.add_feature_vector (filled s fs) d)
                  ∙ ap (λ vs. record d { feature_vectors = vs })
                      (append_assoc d.feature_vectors (filled s fs ∷ [])
                        (vectors_of dom lib one spaces l)))
        ]
  ]
