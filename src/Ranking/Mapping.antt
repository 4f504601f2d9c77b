-- ===== src/Ranking/Mapping.antt =====
-- What the feature mapping model asks for: the sums of the scores that the mappings give each
-- feature.
use red_giant.Prelude.{
  ℕ, suc, ◌≤◌, ◌<◌, ◌≡◌, refl, sym, ap, ◌∙◌, Option, none, some, List, [], ◌∷◌, ◌++◌, arith,
  if◌then◌else◌, ◌==◌, ltb, Bool-cases, inl, inr,
}
use red_giant.Key.{nat_key}
use red_giant.Key.Assoc.{lookup}
use red_giant.Feature.{Feature, FeatureSpace, FeatureVector, project_to_space}
use red_giant.Parser.Query.{QueryRequest}
use red_giant.Ranking.{
  Arithmetic, SingleMapping, FeatureMappingModel, equal_range, add_term, map_features, map_range,
  map_vectors, mapping_process,
}

module _ {D : Type 0} (num : Arithmetic D) where
  -- The scores that the features of a vector get in a space.
  abbrev pub feature_scores : FeatureSpace → D → List (Feature × D) → List (ℕ × D)
  feature_scores space weight [] = []
  feature_scores space weight ((f, w) ∷ l) =
      (project_to_space space f.id, num.times w weight) ∷ feature_scores space weight l

  -- Those of a vector by the mappings of its space, where their weights are positive.
  abbrev pub range_scores : FeatureVector D → List (SingleMapping D) → List (ℕ × D)
  range_scores fv [] = []
  range_scores fv (m ∷ l) =
      (if num.is_not_positive m.weight then [] else feature_scores m.to m.weight fv.features)
      ++ range_scores fv l

  -- All scores of a request, in the order of its vectors.
  abbrev pub scores : FeatureMappingModel D → List (FeatureVector D) → List (ℕ × D)
  scores model [] = []
  scores model (fv ∷ l) =
      range_scores fv (equal_range fv.space.space_id model.mappings) ++ scores model l

  -- The sum of the scores of a feature, added to what is there; `none` if there are none.
  abbrev pub added : Option D → D → D
  added none s = s
  added (some t) s = num.plus t s

  unfoldable pub sum_of : ℕ → Option D → List (ℕ × D) → Option D
  sum_of x so_far [] = so_far
  sum_of x so_far ((id, s) ∷ l) = sum_of x (if id == x then some (added so_far s) else so_far) l

  -- The features with ids from `b` on, ascending.
  abbrev pub AscendsFrom : ℕ → List (ℕ × D) → Type 0
  AscendsFrom b [] = Unit
  AscendsFrom b ((j, t) ∷ l) = (b ≤ j) × AscendsFrom (suc j) l

  lookup-below : (x b : ℕ) (l : List (ℕ × D)) → AscendsFrom b l → x < b → lookup x l ≡ none
  lookup-below x b [] a h = refl
  lookup-below x b ((j, t) ∷ l) a h = ground (arith, lookup-below x (suc j) l a.1)

  lookup-add_term :
      (x id b : ℕ) (s : D) (l : List (ℕ × D))
      → AscendsFrom b l
      → lookup x (add_term num id s l)
        ≡ (if id == x then some (added (lookup id l) s) else lookup x l)
  unfolding add_term
  lookup-add_term x id b s [] a = refl
  lookup-add_term x id b s ((j, t) ∷ l) a = ground (
    arith,
    lookup-add_term x id (suc j) s l a.1,
    lookup-below id (suc j) l a.1,
    lookup-below x (suc j) l a.1,
  )

  add_term-AscendsFrom :
      (id b : ℕ) (s : D) (l : List (ℕ × D))
      → b ≤ id
      → AscendsFrom b l
      → AscendsFrom b (add_term num id s l)
  unfolding add_term
  add_term-AscendsFrom id b s [] h a = (h, tt)
  add_term-AscendsFrom id b s ((j, t) ∷ l) h a = elim (Bool-cases (id == j)) [
    | inl e ↦ rw e a
    | inr e ↦ elim (Bool-cases (ltb id j)) [
      | inl f ↦ rw (e, f) (h, (ground arith, a.1))
      | inr f ↦ rw (e, f) (a.0, add_term-AscendsFrom id (suc j) s l (ground arith) a.1)
    ]
  ]

  abbrev add_all : List (ℕ × D) → List (ℕ × D) → List (ℕ × D)
  add_all [] terms = terms
  add_all ((id, s) ∷ l) terms = add_all l (add_term num id s terms)

  add_all-append : (a l terms : List (ℕ × D)) → add_all (a ++ l) terms ≡ add_all l (add_all a terms)
  add_all-append [] l terms = refl
  add_all-append ((id, s) ∷ a) l terms = add_all-append a l (add_term num id s terms)

  map_features-add_all :
      (space : FeatureSpace) (weight : D) (fs : List (Feature × D)) (terms : List (ℕ × D))
      → map_features num space weight fs terms ≡ add_all (feature_scores space weight fs) terms
  unfolding map_features
  map_features-add_all space weight [] terms = refl
  map_features-add_all space weight ((f, w) ∷ l) terms = map_features-add_all space weight l _

  map_range-add_all :
      (fv : FeatureVector D) (l : List (SingleMapping D)) (terms : List (ℕ × D))
      → map_range num fv l terms ≡ add_all (range_scores fv l) terms
  unfolding map_range
  map_range-add_all fv [] terms = refl
  map_range-add_all fv (m ∷ l) terms = elim (Bool-cases (num.is_not_positive m.weight)) [
    | inl e ↦ rw e (map_range-add_all fv l terms)
    | inr e ↦
        rw (e, map_features-add_all m.to m.weight fv.features terms)
          (map_range-add_all fv l (add_all (feature_scores m.to m.weight fv.features) terms)
            ∙ sym (
                add_all-append (feature_scores m.to m.weight fv.features) (range_scores fv l)
                  terms))
  ]

  map_vectors-add_all :
      (model : FeatureMappingModel D) (l : List (FeatureVector D)) (terms : List (ℕ × D))
      → map_vectors num model l terms ≡ add_all (scores model l) terms
  unfolding map_vectors
  map_vectors-add_all model [] terms = refl
  map_vectors-add_all model (fv ∷ l) terms =
      let r = range_scores fv (equal_range fv.space.space_id model.mappings) in
      rw (map_range-add_all fv (equal_range fv.space.space_id model.mappings) terms) (
        map_vectors-add_all model l (add_all r terms)
        ∙ sym (add_all-append r (scores model l) terms))

  add_all-sum_of :
      (x : ℕ) (l terms : List (ℕ × D))
      → AscendsFrom 0 terms
      → (lookup x (add_all l terms) ≡ sum_of x (lookup x terms) l) × AscendsFrom 0 (add_all l terms)
  unfolding sum_of
  add_all-sum_of x [] terms a = (refl, a)
  add_all-sum_of x ((id, s) ∷ l) terms a =
      let rest =
        add_all-sum_of x l (add_term num id s terms)
          (add_term-AscendsFrom id 0 s terms (omega arith) a) in
      (rest.0 ∙ ap (λ (o : Option D). sum_of x o l) (one x id s terms a), rest.1)
    where
      one :
          (x id : ℕ) (s : D) (terms : List (ℕ × D))
          → AscendsFrom 0 terms
          → lookup x (add_term num id s terms)
            ≡ (if id == x then some (added (lookup x terms) s) else lookup x terms)
      one x id s terms a = ground (arith, lookup-add_term x id 0 s terms a)

  -- The query of a request asks for its features in ascending order, each once; the weight of a
  -- feature is the sum of the scores that the mappings with positive weights give it, and a feature
  -- that they give none is not asked for.
  pub mapping_process-sum_of :
      (model : FeatureMappingModel D) (request : QueryRequest D) (x : ℕ)
      → (lookup x (mapping_process num model request).features
          ≡ sum_of x none (scores model request.feature_vectors))
        × AscendsFrom 0 (mapping_process num model request).features
  unfolding mapping_process
  mapping_process-sum_of model request x =
      rw (map_vectors-add_all model request.feature_vectors [])
        (add_all-sum_of x (scores model request.feature_vectors) [] tt)
