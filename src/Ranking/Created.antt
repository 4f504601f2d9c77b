-- ===== src/Ranking/Created.antt =====
-- What a configuration makes: the mappings of a mapping model, and the models of a manager.
use Prim.Native.String.{String}
use text.Mathlib.Text.{◌==◌}
use text.Mathlib.TextEquality.{eq_iff}
use mathlib.Core.Path.{subst}
use red_giant.Prelude.{
  ℕ, ◌≡◌, refl, false, Option, none, some, List, [], ◌∷◌, ◌++◌, arith, if◌then◌else◌, All, ◌⊎◌,
  Bool-cases, Option-cases, inl, inr,
}
use red_giant.Json.{Dom, json_get_array, json_try_get_string, json_try_get_double}
use red_giant.Key.Names.{find, emplace, find-emplace}
use red_giant.Feature.Spaces.{Status, FeatureSpaceManager, get_space}
use red_giant.Ranking.{Arithmetic, RankingModel, SingleMapping, FeatureMappingModel, set_mapping}
use red_giant.Ranking.Manager.{
  Creation, asserts, null, created, ModelManager, set_model, RankingModelFactory, add_mapping,
  add_mappings, mapping_create_model, ModelManagerFactory, register_model_factory,
  get_model_factory, model_entry, create_models,
}

Creation-cases :
    {A : Type 0} (c : Creation A) → (c ≡ asserts) ⊎ ((c ≡ null) ⊎ ((a : A) × (c ≡ created a)))
Creation-cases asserts = inl refl
Creation-cases null = inr (inl refl)
Creation-cases (created a) = inr (inr (a, refl))

module _ {J : Type 0} {D : Type 0} (dom : Dom J D) (num : Arithmetic D) where
  -- A mapping between spaces that are known, under the id of the one it starts from, and with a
  -- weight that is positive.
  abbrev pub IsSound : FeatureSpaceManager → ℕ × SingleMapping D → Type 0
  IsSound spaces e =
      (e.0 ≡ e.1.from.space_id)
      × (num.is_not_positive e.1.weight ≡ false)
      × ((name : String) × (get_space name spaces ≡ some e.1.from))
      × ((name : String) × (get_space name spaces ≡ some e.1.to))

  All-append : {A : Type 0} (P : A → Type 0) (a l : List A) → All P a → All P l → All P (a ++ l)
  All-append P [] l h g = g
  All-append P (x ∷ a) l h g = (h.0, All-append P a l h.1 g)

  add_mapping-IsSound :
      (spaces : FeatureSpaceManager) (e : J) (model : FeatureMappingModel D)
      → All (IsSound spaces) model.mappings
      → All (IsSound spaces) (add_mapping dom num spaces e model).mappings
  unfolding add_mapping set_mapping
  add_mapping-IsSound spaces e model h = elim (Option-cases (json_try_get_string dom e "from")) [
    | inl f ↦ rw (f, add_mapping) h
    | inr (from, f) ↦ elim (Option-cases (json_try_get_string dom e "to")) [
      | inl t ↦ rw (f, t, add_mapping) h
      | inr (to, t) ↦ elim (Option-cases (json_try_get_double dom e "weight")) [
        | inl w ↦ rw (f, t, w, add_mapping) h
        | inr (weight, w) ↦ elim (Option-cases (get_space from spaces)) [
          | inl a ↦ rw (f, t, w, a, add_mapping) h
          | inr (from_space, a) ↦ elim (Option-cases (get_space to spaces)) [
            | inl b ↦ rw (f, t, w, a, b, add_mapping) h
            | inr (to_space, b) ↦ elim (Bool-cases (num.is_not_positive weight)) [
              | inl p ↦ rw (f, t, w, a, b, p, add_mapping) h
              | inr p ↦
                  rw (f, t, w, a, b, p, add_mapping)
                    (All-append (IsSound spaces) model.mappings _ h
                      ((refl, p, (from, a), (to, b)), tt))
            ]
          ]
        ]
      ]
    ]
  ]

  add_mappings-IsSound :
      (spaces : FeatureSpaceManager) (l : List J) (model model' : FeatureMappingModel D)
      → add_mappings dom num spaces l model ≡ created model'
      → All (IsSound spaces) model.mappings
      → All (IsSound spaces) model'.mappings
  unfolding add_mappings
  add_mappings-IsSound spaces [] model model' e h =
      subst (λ m. All (IsSound spaces) m.mappings) (created_inj e) h
    where
      created_inj : {A : Type 0} {x y : A} → created x ≡ created y → x ≡ y
      created_inj e = cc
  add_mappings-IsSound spaces (j ∷ l) model model' e h = elim (Bool-cases (dom.is_object j)) [
    | inl o ↦
        add_mappings-IsSound spaces l (add_mapping dom num spaces j model) model'
          (ground (arith, o, e)) (add_mapping-IsSound spaces j model h)
    | inr o ↦ absurd (ground (arith, o, e))
  ]

  -- The mapping model that a configuration makes maps between known spaces only, and with positive
  -- weights only.
  pub mapping_create_model-IsSound :
      (spaces : FeatureSpaceManager) (config : J) (model : FeatureMappingModel D)
      → mapping_create_model dom num spaces config ≡ created model
      → All (IsSound spaces) model.mappings
  unfolding mapping_create_model
  mapping_create_model-IsSound spaces config model e = elim (Bool-cases (dom.is_object config)) [
    | inr o ↦ absurd (ground (arith, o, e))
    | inl o ↦ elim (Option-cases (json_get_array dom config "mappings")) [
      | inl a ↦ absurd (ground (arith, o, a, e))
      | inr (l, a) ↦
          add_mappings-IsSound spaces (dom.elements l) (record { mappings = [] }) model
            (ground (arith, o, a, e)) tt
    ]
  ]

  abbrev pub pointer : Creation (RankingModel D) → Option (RankingModel D)
  pointer (created model) = some model
  pointer null = none
  pointer asserts = none

  abbrev pub or_first : {A : Type 0} → Option A → Option A → Option A
  or_first (some a) o = some a
  or_first none o = o

  -- The model of the first element that is complete, of a known type, and has the name.
  unfoldable pub first_model :
      ModelManagerFactory dom num → String → List J → Option (Option (RankingModel D))
  first_model f name [] = none
  first_model f name (model ∷ l) = elim (model_entry dom num f model) [
    | none ↦ first_model f name l
    | some entry ↦ if entry.0 == name then some (pointer (entry.1 model)) else first_model f name l
  ]

  -- The manager that a configuration makes has, under each name, the model that it had before, or
  -- else that of the first element that is complete, of a known type, and has the name.
  pub create_models-first_model :
      (f : ModelManagerFactory dom num) (name : String) (l : List J) (m m' : ModelManager D)
      → create_models dom num f l m ≡ created m'
      → find name m'.models ≡ or_first (find name m.models) (first_model f name l)
  unfolding create_models first_model set_model
  create_models-first_model f name [] m m' e = elim (Option-cases (find name m.models)) [
    | inl n ↦ ground (arith, e, n)
    | inr (r, n) ↦ ground (arith, e, n)
  ]
  create_models-first_model f name (j ∷ l) m m' e =
      let rest = λ (m1 : ModelManager D). create_models-first_model f name l m1 m' in
      elim (Bool-cases (dom.is_object j)) [
        | inr o ↦ absurd (ground (arith, o, e))
        | inl o ↦ elim (Option-cases (model_entry dom num f j)) [
          | inl n ↦ ground (arith, rest m (ground (arith, o, n, e)), n)
          | inr (entry, n) ↦ elim (Creation-cases (entry.1 j)) [
            | inl c ↦ absurd (ground (arith, o, n, c, e))
            | inr (inl c) ↦ ground (
              arith,
              n,
              c,
              rest (set_model entry.0 none m) (ground (arith, o, n, c, e)),
              find-emplace entry.0 name none m.models,
              eq_iff entry.0 name,
            )
            | inr (inr (r, c)) ↦ ground (
              arith,
              n,
              c,
              rest (set_model entry.0 (some r) m) (ground (arith, o, n, c, e)),
              find-emplace entry.0 name (some r) m.models,
              eq_iff entry.0 name,
            )
          ]
        ]
      ]

  -- A factory is registered under its type, unless there is one already, which is reported and
  -- changes nothing; the factories of other types stay.
  pub register_model_factory-find :
      (type other : String) (factory : RankingModelFactory dom num)
      (f : ModelManagerFactory dom num)
      → ((register_model_factory dom num type factory f).0
          ≡ elim (get_model_factory dom num type f) [
            | none ↦ Status.success
            | some old ↦ Status.failure
          ])
        × (get_model_factory dom num other (register_model_factory dom num type factory f).1 ≡ (
            if type == other
            then or_first (get_model_factory dom num type f) (some factory)
            else get_model_factory dom num other f))
  unfolding register_model_factory get_model_factory emplace find
  register_model_factory-find type other factory f = ground (arith, eq_iff type other)
