-- ===== src/Feature.antt =====
-- data/feature.h, feature_space.h and feature_space.cc, feature_vector.h: features, their 64-bit
-- ids, and the spaces that they belong to.
pub mod Ids
pub mod Spaces
use Prim.Native.String.{String}
use red_giant.Prelude.{
  ℕ, ◌+◌, ◌*◌, ◌/◌, ◌%◌, Bool, Option, none, some, List, [], ◌∷◌, ◌++◌, if◌then◌else◌, ◌==◌,
}

-- `std::hash<std::string>`, and `std::stoull`, which throws where this gives `none`.
pub record StringLibrary : Type 0 where
  pub string_hash : String → ℕ
  pub stoull : String → Option ℕ

-- 2 ^ 64 and 2 ^ 56: the ids, and what is left of them below the 8 bits of the space.
abbrev pub id_range : ℕ
id_range = 18446744073709551616

abbrev pub feature_range : ℕ
feature_range = 72057594037927936

-- `~(FeatureId)0`
abbrev pub invalid_id : ℕ
invalid_id = 18446744073709551615

pub record Feature : Type 0 where
  pub key : String
  pub id : ℕ

pub data SpaceType : Type 0 where
  string integer : SpaceType

pub record FeatureSpace : Type 0 where
  pub space_name : String
  pub space_id : ℕ
  pub space_type : SpaceType

-- The pointers to the features are not null: the parsers test them before they add them.
pub record FeatureVector (D : Type 0) : Type 0 where
  pub space : FeatureSpace
  pub features : List (Feature × D)

-- `(FeatureId)space_id << kSpaceOffset`, in 64 bits.
unfoldable pub shift_space : ℕ → ℕ
shift_space space_id = space_id * feature_range % id_range

-- `& kSpaceMask` and `& kFeatureMask` of 64 bits.
unfoldable pub mask_space : ℕ → ℕ
mask_space id = id / feature_range * feature_range

unfoldable pub mask_feature : ℕ → ℕ
mask_feature id = id % feature_range

-- `|` is `+`, since no bit is set on both sides.
unfoldable pub project_to_space : FeatureSpace → ℕ → ℕ
unfolding mask_feature shift_space
project_to_space space id = mask_feature id + shift_space space.space_id

unfoldable pub get_part_space_id : ℕ → ℕ
unfolding mask_space
get_part_space_id id = mask_space id / feature_range

unfoldable pub get_part_feature_id : ℕ → ℕ
unfolding mask_feature
get_part_feature_id id = mask_feature id

module _ (lib : StringLibrary) where
  unfoldable pub integer_feature_id : FeatureSpace → Option ℕ → ℕ
  integer_feature_id space none = invalid_id
  integer_feature_id space (some number) =
      mask_space (shift_space space.space_id) + mask_feature number

  unfoldable pub calculate_feature_id : FeatureSpace → String → ℕ
  calculate_feature_id space feature_key = elim space.space_type [
    | string ↦ mask_space (shift_space space.space_id) + mask_feature (lib.string_hash feature_key)
    | integer ↦ integer_feature_id space (lib.stoull feature_key)
  ]

  unfoldable pub create_feature : FeatureSpace → String → Option Feature
  create_feature space feature_key =
      let id = calculate_feature_id space feature_key in
      if id == invalid_id then none else some (record { key = feature_key; id = id })
