-- ===== src/Json.antt =====
-- utils/json_utils.h: the accessors of the JSON configuration and requests. The document object
-- model of third_party/rapidjson that they call is the interface `Dom`.
use Prim.Native.String.{String}
use red_giant.Prelude.{ℕ, Bool, Option, none, some, List, if◌then◌else◌}

-- `rapidjson::Value`, as far as it is read here. `D` is `double`; the integers that the getters
-- return are given as the unsigned numbers of the same bits. Only an object may be asked for a
-- member: otherwise `FindMember` fails an assertion, so its callers must see to that.
pub record Dom (J : Type 0) (D : Type 0) : Type 0 where
  pub is_object : J → Bool
  pub is_array : J → Bool
  pub is_string : J → Bool
  pub is_number : J → Bool
  pub is_int : J → Bool
  pub is_uint : J → Bool
  pub is_int64 : J → Bool
  pub is_uint64 : J → Bool
  pub is_double : J → Bool
  pub is_float : J → Bool
  pub is_bool : J → Bool
  pub get_string : J → String
  pub get_int : J → ℕ
  pub get_uint : J → ℕ
  pub get_int64 : J → ℕ
  pub get_uint64 : J → ℕ
  pub get_double : J → D
  pub get_float : J → D
  pub get_bool : J → Bool
  -- `Begin()` to `End()`
  pub elements : J → List J
  -- `MemberBegin()` to `MemberEnd()`
  pub members : J → List (String × J)
  pub find_member : String → J → Option J

-- `if (value.Is...()) { ret = value.Get...(); return true; }`; `none` is `false`, or `nullptr`.
unfoldable pub get_if {ℓ} : {J : Type 0} {A : Type ℓ} → (J → Bool) → (J → A) → Option J → Option A
get_if is get none = none
get_if is get (some v) = if is v then some (get v) else none

module _ {J : Type 0} {D : Type 0} (dom : Dom J D) where
  unfoldable pub json_get_node : J → String → Option J
  json_get_node json key = dom.find_member key json

  unfoldable pub json_get_array : J → String → Option J
  json_get_array json key = get_if dom.is_array (λ v. v) (dom.find_member key json)

  unfoldable pub json_get_object : J → String → Option J
  json_get_object json key = get_if dom.is_object (λ v. v) (dom.find_member key json)

  unfoldable pub json_get_str : J → String → Option String
  json_get_str json key = get_if dom.is_string dom.get_string (dom.find_member key json)

  -- `json_try_get_value` for each type of its result.
  unfoldable pub json_try_get_string : J → String → Option String
  json_try_get_string json key = get_if dom.is_string dom.get_string (dom.find_member key json)

  unfoldable pub json_try_get_int : J → String → Option ℕ
  json_try_get_int json key = get_if dom.is_int dom.get_int (dom.find_member key json)

  unfoldable pub json_try_get_uint : J → String → Option ℕ
  json_try_get_uint json key = get_if dom.is_uint dom.get_uint (dom.find_member key json)

  unfoldable pub json_try_get_int64 : J → String → Option ℕ
  json_try_get_int64 json key = get_if dom.is_int64 dom.get_int64 (dom.find_member key json)

  unfoldable pub json_try_get_uint64 : J → String → Option ℕ
  json_try_get_uint64 json key = get_if dom.is_uint64 dom.get_uint64 (dom.find_member key json)

  unfoldable pub json_try_get_double : J → String → Option D
  json_try_get_double json key = get_if dom.is_double dom.get_double (dom.find_member key json)

  unfoldable pub json_try_get_float : J → String → Option D
  json_try_get_float json key = get_if dom.is_float dom.get_float (dom.find_member key json)

  unfoldable pub json_try_get_bool : J → String → Option Bool
  json_try_get_bool json key = get_if dom.is_bool dom.get_bool (dom.find_member key json)
