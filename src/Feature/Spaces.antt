-- ===== src/Feature/Spaces.antt =====
-- data/feature_space_manager.h and .cc: the feature spaces by name.
use Prim.Native.String.{String}
use text.Mathlib.Text.{◌==◌}
use mathlib.Core.List.{append-nil}
use red_giant.Prelude.{
  ℕ, ◌≡◌, true, false, Option, none, some, List, [], ◌∷◌, if◌then◌else◌, arith, refl, ◌++◌, ◌⊎◌,
  inl, inr,
}
use red_giant.Key.Names.{find, set, find-set}
use red_giant.Json.{Dom, json_try_get_int, json_try_get_string}
use red_giant.Feature.{FeatureSpace, SpaceType}

-- What an `int` function returns, or that an assertion of rapidjson fails on the way. `failure`
-- is a negative number.
pub data Status : Type 0 where
  success failure asserts : Status

pub record FeatureSpaceManager : Type 0 where
  pub spaces : List (String × FeatureSpace)

-- `FeatureSpaceManager()`
abbrev pub no_spaces : FeatureSpaceManager
no_spaces = record { spaces = [] }

unfoldable pub get_space_internal : String → FeatureSpaceManager → Option FeatureSpace
get_space_internal space_name m = find space_name m.spaces

unfoldable pub get_space : String → FeatureSpaceManager → Option FeatureSpace
get_space space_name m = get_space_internal space_name m

unfoldable pub set_space_internal : FeatureSpace → FeatureSpaceManager → FeatureSpaceManager
set_space_internal space m = record { spaces = set space.space_name space m.spaces }

unfoldable pub set_space : Option FeatureSpace → FeatureSpaceManager → FeatureSpaceManager
set_space none m = m
set_space (some space) m = set_space_internal space m

unfoldable pub create_space :
    String → ℕ → SpaceType → FeatureSpaceManager → FeatureSpace × FeatureSpaceManager
create_space space_name space_id space_type m =
    let space : FeatureSpace = record {
      space_name = space_name;
      space_id = space_id;
      space_type = space_type;
    } in
    (space, set_space_internal space m)

module _ {J : Type 0} {D : Type 0} (dom : Dom J D) where
  -- The space that an element of the configuration declares.
  unfoldable pub space_of : J → Option FeatureSpace
  space_of it = elim (json_try_get_int dom it "id") [
    | none ↦ none
    | some id ↦ elim (json_try_get_string dom it "name") [
      | none ↦ none
      | some name ↦ elim (json_try_get_string dom it "type") [
        | none ↦ none
        | some type ↦ some (record {
          space_name = name;
          space_id = id;
          space_type = if type == "string" then SpaceType.string else SpaceType.integer;
        })
      ]
    ]
  ]

  -- The loop of `initialize`. A configuration that is refused leaves the spaces set so far.
  unfoldable pub initialize_loop : List J → FeatureSpaceManager → Status × FeatureSpaceManager
  initialize_loop [] m = (Status.success, m)
  initialize_loop (it ∷ l) m = elim (dom.is_object it) [
    | false ↦ (Status.asserts, m)
    | true ↦ elim (space_of it) [
      | none ↦ (Status.failure, m)
      | some space ↦ initialize_loop l (set_space_internal space m)
    ]
  ]

  unfoldable pub initialize : J → FeatureSpaceManager → Status × FeatureSpaceManager
  initialize root m =
      if dom.is_array root then initialize_loop (dom.elements root) m else (Status.failure, m)

-- The last of the spaces that has the name.
unfoldable pub last_named : String → List FeatureSpace → Option FeatureSpace
last_named name [] = none
last_named name (s ∷ l) = elim (last_named name l) [
  | some s' ↦ some s'
  | none ↦ if s.space_name == name then some s else none
]

abbrev pub or_else : Option FeatureSpace → Option FeatureSpace → Option FeatureSpace
or_else (some s) o = some s
or_else none o = o

set_all : List FeatureSpace → FeatureSpaceManager → FeatureSpaceManager
set_all [] m = m
set_all (s ∷ l) m = set_all l (set_space_internal s m)

get_space-set_all :
    (name : String) (l : List FeatureSpace) (m : FeatureSpaceManager)
    → get_space name (set_all l m) ≡ or_else (last_named name l) (get_space name m)
unfolding get_space get_space_internal set_all set_space_internal last_named
get_space-set_all name [] m = refl
get_space-set_all name (s ∷ l) m = ground (
  arith,
  get_space-set_all name l (set_space_internal s m),
  find-set s.space_name name s m.spaces,
)

module _ {J : Type 0} {D : Type 0} (dom : Dom J D) where
  -- The elements are objects that declare the spaces, each its own.
  abbrev pub Declares : List J → List FeatureSpace → Type 0
  Declares [] [] = Unit
  Declares (e ∷ l) (s ∷ spaces) =
      (dom.is_object e ≡ true) × (space_of dom e ≡ some s) × Declares l spaces
  Declares _ _ = ⊥

  initialize_loop-Declares :
      (l rest : List J) (spaces : List FeatureSpace) (m : FeatureSpaceManager)
      → Declares l spaces
      → initialize_loop dom (l ++ rest) m ≡ initialize_loop dom rest (set_all spaces m)
  unfolding initialize_loop set_all
  initialize_loop-Declares [] rest [] m h = refl
  initialize_loop-Declares [] rest (s ∷ spaces) m h = elim h [ ]
  initialize_loop-Declares (e ∷ l) rest [] m h = elim h [ ]
  initialize_loop-Declares (e ∷ l) rest (s ∷ spaces) m h =
      ground (arith, initialize_loop-Declares l rest spaces (set_space_internal s m) h.2)

  -- A configuration whose elements all declare spaces is accepted; afterwards a name stands for
  -- the last space that was declared with it, and a name that was not declared for what it did.
  pub initialize-Declares :
      (root : J) (spaces : List FeatureSpace) (m : FeatureSpaceManager)
      → dom.is_array root ≡ true
      → Declares (dom.elements root) spaces
      → ((initialize dom root m).0 ≡ Status.success)
        × ((name : String)
            → get_space name (initialize dom root m).1
              ≡ or_else (last_named name spaces) (get_space name m))
  unfolding initialize initialize_loop
  initialize-Declares root spaces m a h =
      let e = initialize_loop-Declares (dom.elements root) [] spaces m h in
      let n = append-nil (dom.elements root) in
      (ground (arith, e, n), λ name. ground (arith, e, n, get_space-set_all name spaces m))

  -- `initialize` fails at a value that is no array, and changes nothing; and at the first element
  -- that lacks an `int` "id", a "name" or a "type", with the spaces before it set.
  pub initialize-failure :
      (root e : J) (l rest : List J) (spaces : List FeatureSpace) (m : FeatureSpaceManager)
      → (dom.is_array root ≡ false)
        ⊎ ((dom.elements root ≡ l ++ (e ∷ rest))
            × Declares l spaces
            × (dom.is_object e ≡ true)
            × (space_of dom e ≡ none))
      → ((initialize dom root m).0 ≡ Status.failure)
        × ((name : String)
            → get_space name (initialize dom root m).1 ≡ (
                if dom.is_array root
                then or_else (last_named name spaces) (get_space name m)
                else get_space name m))
  unfolding initialize initialize_loop
  initialize-failure root e l rest spaces m (inl h) = (ground arith, λ name. ground arith)
  initialize-failure root e l rest spaces m (inr (s, d, o, n)) =
      let step = initialize_loop-Declares l (e ∷ rest) spaces m d in
      (ground (arith, step), λ name. ground (arith, step, get_space-set_all name spaces m))
