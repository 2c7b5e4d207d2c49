-- ===== src/Compare/Control.antt =====
-- fillComparisonContext: the control object beside an expected value.
use apitest.Base.{
  Bool, true, false, String, Option, none, some, [], ◌∷◌, Outcome, ok, err, ◌>>=◌, str_eq,
  if◌then◌else◌,
}
use apitest.Base.Dict.{Dict}
use apitest.Base.Int.{ℤ}
use apitest.Json.{Value, nil, object, array, str, number, bool, int, int64, float64}
use apitest.Json.Number.{parse_int}
use apitest.Host.{Host}
use apitest.Compare.Types.{
  Context, no_control, JsonType, object_type, array_type, string_type, number_type,
  json_number_type, bool_type, no_type, Error, no_int64, no_bool, no_string, empty_text,
  bad_not_equal, unknown_control,
}

-- The keys whose value is a bool.
pub data Flag : Type 0 where
  order_matters no_extra element_no_extra must_exist is_string is_number is_array : Flag
  must_not_exist is_object is_bool : Flag

pub data Range : Type 0 where
  gt ge lt le : Range

-- The cases of the switch.
pub data ControlKey : Type 0 where
  depth element_count match not_match starts_with ends_with not_equal : ControlKey
  flag : Flag → ControlKey
  range : Range → ControlKey

unfoldable pub control_key : String → Option ControlKey
control_key k =
    if str_eq k "depth"
    then some depth
    else if str_eq k "order_matters"
    then some (flag order_matters)
    else if str_eq k "no_extra"
    then some (flag no_extra)
    else if str_eq k "element_no_extra"
    then some (flag element_no_extra)
    else if str_eq k "must_exist"
    then some (flag must_exist)
    else if str_eq k "element_count"
    then some element_count
    else if str_eq k "is_string"
    then some (flag is_string)
    else if str_eq k "match"
    then some match
    else if str_eq k "not_match"
    then some not_match
    else if str_eq k "starts_with"
    then some starts_with
    else if str_eq k "ends_with"
    then some ends_with
    else if str_eq k "is_number"
    then some (flag is_number)
    else if str_eq k "is_array"
    then some (flag is_array)
    else if str_eq k "must_not_exist"
    then some (flag must_not_exist)
    else if str_eq k "is_object"
    then some (flag is_object)
    else if str_eq k "is_bool"
    then some (flag is_bool)
    else if str_eq k "number_gt"
    then some (range gt)
    else if str_eq k "number_ge"
    then some (range ge)
    else if str_eq k "number_lt"
    then some (range lt)
    else if str_eq k "number_le"
    then some (range le)
    else if str_eq k "not_equal"
    then some not_equal
    else none

unfoldable pub set_flag : Flag → Bool → Context → Context
set_flag order_matters b c = record c { order_matters = b }
set_flag no_extra b c = record c { no_extra = b }
set_flag element_no_extra b c = record c { element_no_extra = b }
set_flag must_exist b c = record c { must_exist = b }
set_flag is_string b c = record c { is_string = b }
set_flag is_number b c = record c { is_number = b }
set_flag is_array b c = record c { is_array = b }
set_flag must_not_exist b c = record c { must_not_exist = b }
set_flag is_object b c = record c { is_object = b }
set_flag is_bool b c = record c { is_bool = b }

-- A bound also sets `isNumber`.
unfoldable pub set_range : Range → String → Context → Context
set_range gt n c = record c { number_gt = some n; is_number = true }
set_range ge n c = record c { number_ge = some n; is_number = true }
set_range lt n c = record c { number_lt = some n; is_number = true }
set_range le n c = record c { number_le = some n; is_number = true }

unfoldable pub json_type : Value → JsonType
json_type (object _) = object_type
json_type (array _) = array_type
json_type (str _) = string_type
json_type (int _) = number_type
json_type (float64 _) = number_type
json_type (number _) = json_number_type
json_type (bool _) = bool_type
json_type _ = no_type

-- A type assertion that is checked, `tV, ok := v.(T)`.
unfoldable pub as_bool : String → Value → Outcome Error Bool
as_bool k (bool b) = ok b
as_bool k _ = err (no_bool k)

unfoldable pub as_string : String → Value → Outcome Error String
as_string k (str s) = ok s
as_string k _ = err (no_string k)

unfoldable pub as_text : String → Value → Outcome Error String
as_text k (str s) = if str_eq s "" then err (empty_text k) else ok s
as_text k _ = err (empty_text k)

unfoldable pub as_number : String → Value → Outcome Error String
as_number k (number n) = ok n
as_number k _ = err (Error.no_json_number k)

-- `v` is not nil here.
unfoldable pub not_equal_allowed : JsonType → Bool
not_equal_allowed object_type = false
not_equal_allowed no_type = false
not_equal_allowed _ = true

unfoldable pub set_not_equal : Value → Context → Outcome Error Context
unfolding json_type not_equal_allowed
set_not_equal nil c = ok (record c { not_equal_null = true })
set_not_equal v c =
    if not_equal_allowed (json_type v)
    then ok (record c { not_equal = some v })
    else err (bad_not_equal (json_type v))

module _ (host : Host) where
  unfoldable pub as_int64 : Value → Option ℤ
  as_int64 (int64 n) = some n
  as_int64 (int n) = some n
  as_int64 (float64 x) = host.round_float x
  as_int64 (number n) = parse_int n
  as_int64 _ = none

  unfoldable pub or_no_int64 : String → Option ℤ → Outcome Error ℤ
  or_no_int64 k none = err (no_int64 k)
  or_no_int64 k (some n) = ok n

  unfoldable pub set_control : ControlKey → String → Value → Context → Outcome Error Context
  unfolding set_flag set_range as_bool as_string as_text as_number set_not_equal as_int64
      or_no_int64
  set_control depth k v c = do n ← or_no_int64 k (as_int64 v); ok (record c { depth = n })
  set_control element_count k v c = do
    n ← or_no_int64 k (as_int64 v)
    ok (record c { element_count = some n })
  set_control (flag f) k v c = do b ← as_bool k v; ok (set_flag f b c)
  set_control match k v c = do s ← as_string k v; ok (record c { regex_match = some s })
  set_control not_match k v c = do s ← as_string k v; ok (record c { regex_match_not = some s })
  set_control starts_with k v c = do s ← as_text k v; ok (record c { starts_with = some s })
  set_control ends_with k v c = do s ← as_text k v; ok (record c { ends_with = some s })
  set_control (range r) k v c = do n ← as_number k v; ok (set_range r n c)
  set_control not_equal k v c = set_not_equal v c

  -- One round of the loop; the last case is the switch's default.
  unfoldable pub fill_step : String → Value → Option ControlKey → Context → Outcome Error Context
  fill_step k v none c = err (unknown_control k)
  fill_step k v (some key) c = set_control key k v c

  unfoldable pub fill_from : Context → Dict Value → Outcome Error Context
  unfolding fill_step
  fill_from c [] = ok c
  fill_from c ((k, v) ∷ rest) = do c' ← fill_step k v (control_key k) c; fill_from c' rest

  unfoldable pub fill_context : Dict Value → Outcome Error Context
  unfolding fill_from
  fill_context = fill_from no_control
