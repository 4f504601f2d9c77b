-- ===== src/Feature/Ids.antt =====
-- What the ids of features tell: the space and the key.
use Prim.Native.String.{String}
use red_giant.Prelude.{
  ℕ, ◌+◌, ◌%◌, ◌<◌, ◌≡◌, ◌≢◌, sym, Option, none, some, arith, Option-cases, inl, inr, ◌↔◌,
}
use red_giant.Feature.{
  StringLibrary, Feature, FeatureSpace, SpaceType, id_range, feature_range, invalid_id, shift_space,
  mask_space, mask_feature, project_to_space, get_part_space_id, get_part_feature_id,
  integer_feature_id, calculate_feature_id, create_feature,
}

-- The number that a key stands for in a space of a type.
abbrev pub key_number : StringLibrary → SpaceType → String → Option ℕ
key_number lib SpaceType.string key = some (lib.string_hash key)
key_number lib SpaceType.integer key = lib.stoull key

pub joined-parts :
    (i n : ℕ)
    → (get_part_space_id (mask_space (shift_space i) + mask_feature n) ≡ i % 256)
      × (get_part_feature_id (mask_space (shift_space i) + mask_feature n) ≡ n % feature_range)
      × (mask_space (shift_space i) + mask_feature n < id_range)
unfolding get_part_space_id get_part_feature_id mask_space shift_space mask_feature
joined-parts i n = (omega arith, omega arith, omega arith)

module _ (lib : StringLibrary) where
  calculate_feature_id-key_number :
      (s : FeatureSpace) (key : String)
      → calculate_feature_id lib s key ≡ integer_feature_id lib s (key_number lib s.space_type key)
  unfolding calculate_feature_id integer_feature_id
  calculate_feature_id-key_number s key = ground arith

  calculate-some :
      (s : FeatureSpace) (key : String) (n : ℕ)
      → key_number lib s.space_type key ≡ some n
      → calculate_feature_id lib s key ≡ mask_space (shift_space s.space_id) + mask_feature n
  unfolding integer_feature_id
  calculate-some s key n e = rw (calculate_feature_id-key_number s key, e, integer_feature_id)

  calculate-none :
      (s : FeatureSpace) (key : String)
      → key_number lib s.space_type key ≡ none
      → calculate_feature_id lib s key ≡ invalid_id
  unfolding integer_feature_id
  calculate-none s key e = rw (calculate_feature_id-key_number s key, e, integer_feature_id)

  joined-valid :
      (i n : ℕ) → i % 256 ≢ 255 → mask_space (shift_space i) + mask_feature n ≢ invalid_id
  unfolding mask_space shift_space mask_feature
  joined-valid i n h = λ e. h (omega arith)

  -- A feature that a space creates has the key that was given, and an id that holds the space in
  -- its high 8 bits and the number of the key in the others, and is not the invalid id.
  pub create_feature-parts :
      (s : FeatureSpace) (key : String) (f : Feature)
      → create_feature lib s key ≡ some f
      → (n : ℕ) × (key_number lib s.space_type key ≡ some n)
        × (f.key ≡ key)
        × (get_part_space_id f.id ≡ s.space_id % 256)
        × (get_part_feature_id f.id ≡ n % feature_range)
        × (f.id < invalid_id)
  unfolding create_feature
  create_feature-parts s key f e = elim (Option-cases (key_number lib s.space_type key)) [
    | inl o ↦ absurd (ground (arith, calculate-none s key o))
    | inr (n, o) ↦
        let c = calculate-some s key n o in
        let j = joined-parts s.space_id n in
        (n, o, ground arith, ground (arith, c, j.0), ground (arith, c, j.1), ground (arith, c, j.2))
  ]

  -- In a space whose id does not end in 255, exactly the keys that stand for no number are
  -- refused: in a space of integers those that `std::stoull` throws at, in one of strings none.
  pub create_feature-refused :
      (s : FeatureSpace) (key : String)
      → s.space_id % 256 ≢ 255
      → (create_feature lib s key ≡ none) ↔ (key_number lib s.space_type key ≡ none)
  unfolding create_feature
  create_feature-refused s key h = elim (Option-cases (key_number lib s.space_type key)) [
    | inl o ↦ ground (arith, calculate-none s key o)
    | inr (n, o) ↦ ground (arith, calculate-some s key n o, joined-valid s.space_id n h)
  ]

  -- A feature that is projected to another space of the same type gets the id that the other
  -- space gives to the key.
  pub project_to_space-calculate :
      (a b : FeatureSpace) (key : String) (f : Feature)
      → a.space_type ≡ b.space_type
      → create_feature lib a key ≡ some f
      → project_to_space b f.id ≡ calculate_feature_id lib b key
  unfolding create_feature project_to_space mask_space shift_space mask_feature
  project_to_space-calculate a b key f t e = elim (Option-cases (key_number lib a.space_type key)) [
    | inl o ↦ absurd (ground (arith, calculate-none a key o))
    | inr (n, o) ↦ ground (arith, calculate-some a key n o, calculate-some b key n (rw (sym t) o))
  ]
