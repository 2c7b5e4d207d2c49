-- ===== src/Compare/Checks.antt =====
-- keyChecks: what a control object demands of the actual value.
pub mod Demands
use apitest.Base.{
  ℕ, Bool, true, false, not, String, Option, none, some, List, [], ◌∷◌, Outcome, ok, err, ◌>>=◌,
  ◌>>◌, require, str_eq, has_prefix, has_suffix, length, if◌then◌else◌, ◌==◌, ◌&&◌, ◌||◌,
}
use apitest.Base.Int.{ℤ, pos, pos_part, neg_part, eq_ℤ}
use apitest.Json.{
  Value, Float, nil, object, array, str, number, bool, int, int64, float64, other, items,
  number_equal,
}
use apitest.Host.{Host}
use apitest.Compare.Types.{
  Context, JsonType, object_type, array_type, string_type, number_type, json_number_type, bool_type,
  no_type, CheckError, is_nil, wrong_type, not_found, found, wrong_length, no_number, bad_regex,
  no_match, does_match, no_prefix, no_suffix, is_null, marshal_failed, is_equal, not_greater_equal,
  not_greater, not_less_equal, not_less,
}
use apitest.Compare.Control.{json_type}

abbrev pub Check : Type 0
Check = Outcome CheckError (Unit {0})

abbrev pub type_code : JsonType → ℕ
type_code object_type = 0
type_code array_type = 1
type_code string_type = 2
type_code number_type = 3
type_code json_number_type = 4
type_code bool_type = 5
type_code no_type = 6

abbrev pub same_type : JsonType → JsonType → Bool
same_type s t = type_code s == type_code t

-- Any of the two spellings of a number, `jsonType != "JsonNumber" && jsonType != "Number"`.
abbrev pub number_type_ok : JsonType → Bool
number_type_ok number_type = true
number_type_ok json_number_type = true
number_type_ok _ = false

-- `if right == nil { … }`, then the test of the type.
unfoldable pub demand : JsonType → Bool → Value → Check
demand want fits nil = err is_nil
demand want fits v = require fits (wrong_type want (json_type v))

unfoldable pub check_type : Value → Context → Check
unfolding demand
check_type right c =
    if c.is_string
    then demand string_type (same_type (json_type right) string_type) right
    else if c.is_number
    then demand json_number_type (number_type_ok (json_type right)) right
    else if c.is_bool
    then demand bool_type (same_type (json_type right) bool_type) right
    else if c.is_array
    then demand array_type (same_type (json_type right) array_type) right
    else if c.is_object
    then demand object_type (same_type (json_type right) object_type) right
    else ok tt

unfoldable pub check_exists : Bool → Context → Check
check_exists r_ok c = do
  require (r_ok || not c.must_exist) not_found
  require (not r_ok || not c.must_not_exist) found

unfoldable pub check_length : Value → ℤ → Check
check_length (array xs) n =
    require (eq_ℤ (pos (length (items xs))) n) (wrong_length (length (items xs)) n)
check_length right n = err (wrong_type array_type (json_type right))

unfoldable pub check_count : Value → Option ℤ → Check
unfolding check_length
check_count right none = ok tt
check_count right (some n) = check_length right n

unfoldable pub check_prefix : Value → Option String → Check
check_prefix right none = ok tt
check_prefix (str s) (some p) = require (has_prefix s p) (no_prefix p)
check_prefix right (some p) = err (wrong_type string_type (json_type right))

unfoldable pub check_suffix : Value → Option String → Check
check_suffix right none = ok tt
check_suffix (str s) (some p) = require (has_suffix s p) (no_suffix p)
check_suffix right (some p) = err (wrong_type string_type (json_type right))

unfoldable pub check_not_null : Value → Bool → Check
check_not_null nil true = err is_null
check_not_null _ _ = ok tt

module _ (host : Host) where
  unfoldable pub as_float64 : Value → Option Float
  as_float64 (int64 n) = some (host.float_of_int n)
  as_float64 (int n) = some (host.float_of_int n)
  as_float64 (float64 x) = some x
  as_float64 (number n) = host.parse_float n
  as_float64 _ = none

  unfoldable pub or_no_number : Option Float → Outcome CheckError Float
  or_no_number none = err no_number
  or_no_number (some x) = ok x

  -- getRangeOperands, then the comparison: the two operands reach `test` as float64.
  unfoldable pub check_bound : (Float → Float → Bool) → CheckError → Value → String → Check
  unfolding as_float64 or_no_number
  check_bound test e right n = do
    x ← or_no_number (as_float64 right)
    y ← or_no_number (as_float64 (number n))
    require (test x y) e

  unfoldable pub check_range :
      (Float → Float → Bool) → (Value → String → CheckError) → Value → Option String → Check
  unfolding check_bound
  check_range test e right none = ok tt
  check_range test e right (some n) = check_bound test (e right n) right n

  unfoldable pub check_ranges : Value → Context → Check
  unfolding check_range
  check_ranges right c = do
    check_range (λ x y. host.float_le y x) not_greater_equal right c.number_ge
    check_range (λ x y. host.float_lt y x) not_greater right c.number_gt
    check_range host.float_le not_less_equal right c.number_le
    check_range host.float_lt not_less right c.number_lt

  -- `matchS`: a string is matched as it is, any other value as %v prints it.
  unfoldable pub match_text : Value → String
  match_text (str s) = s
  match_text v = host.value_text v

  unfoldable pub regex_outcome : CheckError → Bool → String → Option Bool → Check
  regex_outcome e wanted rx none = err (bad_regex rx)
  regex_outcome e true rx (some m) = require m e
  regex_outcome e false rx (some m) = require (not m) e

  unfoldable pub check_match : Value → Option String → Check
  unfolding regex_outcome match_text
  check_match right none = ok tt
  check_match right (some rx) =
      regex_outcome (no_match right rx) true rx (host.regex_match rx (match_text right))

  unfoldable pub check_not_match : Value → Option String → Check
  unfolding regex_outcome match_text
  check_not_match right none = ok tt
  check_not_match right (some rx) =
      regex_outcome (does_match rx) false rx (host.regex_match rx (match_text right))

  -- Equal encodings of two arrays; either may fail to encode.
  unfoldable pub marshal_differ : Value → Option String → Option String → Check
  marshal_differ v (some l) (some r) = require (not (str_eq l r)) (is_equal v)
  marshal_differ v _ _ = err marshal_failed

  -- The switch on the common type; values of different types differ.
  unfoldable pub differ : Value → Value → Check
  unfolding marshal_differ number_equal
  differ (array xs) (array ys) =
      marshal_differ (array xs) (host.marshal (items xs)) (host.marshal (items ys))
  differ (str s) (str t) = require (not (str_eq s t)) (is_equal (str s))
  differ (int m) (int n) = require (not (eq_ℤ m n)) (is_equal (int m))
  differ (float64 x) (float64 y) = require (not (host.float_eq x y)) (is_equal (float64 x))
  differ (number m) (number n) = require (not (number_equal m n)) (is_equal (number m))
  differ (bool true) (bool true) = err (is_equal (bool true))
  differ (bool false) (bool false) = err (is_equal (bool false))
  differ _ _ = ok tt

  unfoldable pub check_not_equal : Value → Option Value → Check
  unfolding differ
  check_not_equal right none = ok tt
  check_not_equal right (some v) = differ v right

  -- keyChecks(right, rOK, control); `right` is nil where the key is missing.
  unfoldable pub key_checks : Value → Bool → Context → Check
  unfolding check_type check_exists check_count check_ranges check_match check_not_match
      check_prefix check_suffix check_not_null check_not_equal
  key_checks right r_ok c = do
    check_type right c
    check_exists r_ok c
    check_count right c.element_count
    check_ranges right c
    check_match right c.regex_match
    check_not_match right c.regex_match_not
    check_prefix right c.starts_with
    check_suffix right c.ends_with
    check_not_null right c.not_equal_null
    check_not_equal right c.not_equal
