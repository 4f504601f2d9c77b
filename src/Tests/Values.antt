-- ===== src/Tests/Values.antt =====
-- JSON values with whole numbers for doubles, a library of strings, and spaces, for the tests.
use Prim.Native.String.{String}
use text.Mathlib.Text.{◌==◌}
use red_giant.Prelude.{ℕ, suc, Bool, true, false, Option, none, some, List, [], ◌∷◌, if◌then◌else◌}
use red_giant.Json.{Dom}
use red_giant.Feature.{StringLibrary, FeatureSpace, SpaceType}
use red_giant.Feature.Spaces.{FeatureSpaceManager}

mutual
  pub data JsonElements : Type 0 where
    no_elements : JsonElements
    element : JsonValue → JsonElements → JsonElements

  pub data JsonMembers : Type 0 where
    no_members : JsonMembers
    member : String → JsonValue → JsonMembers → JsonMembers

  pub data JsonValue : Type 0 where
    number : ℕ → JsonValue
    quoted : String → JsonValue
    array : JsonElements → JsonValue
    object : JsonMembers → JsonValue

abbrev is_num : JsonValue → Bool
is_num (number n) = true
is_num _ = false

abbrev is_text : JsonValue → Bool
is_text (quoted s) = true
is_text _ = false

abbrev is_arr : JsonValue → Bool
is_arr (array l) = true
is_arr _ = false

abbrev is_obj : JsonValue → Bool
is_obj (object l) = true
is_obj _ = false

abbrev never : JsonValue → Bool
never v = false

abbrev number_of : JsonValue → ℕ
number_of (number n) = n
number_of _ = 0

abbrev text_of : JsonValue → String
text_of (quoted s) = s
text_of _ = ""

abbrev list_of : JsonElements → List JsonValue
list_of no_elements = []
list_of (element v l) = v ∷ list_of l

abbrev items_of : JsonValue → List JsonValue
items_of (array l) = list_of l
items_of _ = []

abbrev pairs_of : JsonMembers → List (String × JsonValue)
pairs_of no_members = []
pairs_of (member k v l) = (k, v) ∷ pairs_of l

abbrev members_of : JsonValue → List (String × JsonValue)
members_of (object l) = pairs_of l
members_of _ = []

abbrev first_with : String → List (String × JsonValue) → Option JsonValue
first_with k [] = none
first_with k ((j, v) ∷ l) = if j == k then some v else first_with k l

abbrev pub dom : Dom JsonValue ℕ
dom = record {
  is_object = is_obj;
  is_array = is_arr;
  is_string = is_text;
  is_number = is_num;
  is_int = is_num;
  is_uint = is_num;
  is_int64 = is_num;
  is_uint64 = is_num;
  is_double = is_num;
  is_float = is_num;
  is_bool = never;
  get_string = text_of;
  get_int = number_of;
  get_uint = number_of;
  get_int64 = number_of;
  get_uint64 = number_of;
  get_double = number_of;
  get_float = number_of;
  get_bool = never;
  elements = items_of;
  members = members_of;
  find_member = λ k v. first_with k (members_of v);
}

abbrev hash : String → ℕ
hash String.[] = 5
hash (String.◌∷◌ c s) = suc (hash s)

abbrev stoull : String → Option ℕ
stoull s = if s == "0" then some 0 else if s == "7" then some 7 else none

abbrev pub lib : StringLibrary
lib = record { string_hash = hash; stoull = stoull }

abbrev pub tags : FeatureSpace
tags = record { space_name = "tags"; space_id = 3; space_type = SpaceType.string }

abbrev pub clicks : FeatureSpace
clicks = record { space_name = "clicks"; space_id = 4; space_type = SpaceType.integer }

abbrev pub topics : FeatureSpace
topics = record { space_name = "topics"; space_id = 9; space_type = SpaceType.string }

abbrev pub two_spaces : FeatureSpaceManager
two_spaces = record { spaces = ("tags", tags) ∷ ("clicks", clicks) ∷ [] }
