-- ===== src/Compare/Equal.antt =====
-- JsonEqual of comparer.go. An expected value is compared through its parts, so that the recursion
-- is on the expected document.
pub mod Consistent
pub mod Reflexive
use apitest.Base.{
  ℕ, Bool, true, false, String, Option, none, some, List, [], ◌∷◌, Outcome, ok, err, str_eq,
  if◌then◌else◌,
}
use apitest.Base.Dict.{Dict}
use apitest.Json.{
  Value, Items, Fields, nil, object, array, str, number, bool, int, int64, float64, other, empty,
  cons, end, entry, Float, items, fields, number_equal,
}
use apitest.Host.{Host}
use apitest.Compare.Types.{
  CompareResult, Context, Part, Error, equal_result, failed, response_nil, no_float, got_float,
  no_json_object, no_json_array, no_json_string, no_json_bool, no_json_number, got_string,
  got_number, got_bool, invalid_type, Message,
}
use apitest.Compare.Arrays.{array_equal_with_control}
use apitest.Compare.Objects.{object_comparison}

-- Equality of two scalars, with the message of the case.
abbrev pub scalar : Bool → Message → CompareResult
scalar same m = if same then equal_result else failed "" m

abbrev same_bool : Bool → Bool → Bool
same_bool true b = b
same_bool false b = if b then false else true

-- The first two tests: both nil, or only the actual value nil.
unfoldable pub present : Value → Outcome Error CompareResult → Outcome Error CompareResult
present nil result = ok (failed "$" response_nil)
present v result = result

module _ (host : Host) where
  unfoldable pub float_case : Float → Value → CompareResult
  float_case x (float64 y) = scalar (host.float_eq x y) (got_float y x)
  float_case x r = failed "$" (no_float r)

  unfoldable pub string_case : String → Value → CompareResult
  string_case s (str t) = scalar (str_eq s t) (got_string t s)
  string_case s r = failed "$" no_json_string

  -- An int64 or a float64 is printed first; an int is not.
  unfoldable pub number_case : String → Value → CompareResult
  number_case n (number m) = scalar (number_equal n m) (got_number m n)
  number_case n (int64 m) =
      scalar (number_equal n (host.int_text m)) (got_number (host.int_text m) n)
  number_case n (float64 x) =
      scalar (number_equal n (host.float_text x)) (got_number (host.float_text x) n)
  number_case n r = failed "$" (no_json_number r)

  unfoldable pub bool_case : Bool → Value → CompareResult
  bool_case b (bool c) = scalar (same_bool b c) (got_bool c b)
  bool_case b r = failed "$" no_json_bool

  unfoldable pub object_case : Dict Part → Value → Context → Outcome Error CompareResult
  object_case left (object fs) c = object_comparison host left (fields fs) c.no_extra
  object_case left r c = ok (failed "$" no_json_object)

  unfoldable pub array_case : List Part → Value → Context → Outcome Error CompareResult
  array_case left (array xs) c = array_equal_with_control host left (items xs) c
  array_case left r c = ok (failed "$" no_json_array)

  unfoldable pub nil_case : Value → CompareResult
  nil_case nil = equal_result
  nil_case r = failed "" (invalid_type r nil)

  unfoldable mutual
    pub json_equal : Value → Value → Context → Outcome Error CompareResult
    json_equal nil r c = ok (nil_case r)
    json_equal (object fs) r c = present r (object_case (field_parts fs) r c)
    json_equal (array xs) r c = present r (array_case (item_parts xs) r c)
    json_equal (str s) r c = present r (ok (string_case s r))
    json_equal (number n) r c = present r (ok (number_case n r))
    json_equal (bool b) r c = present r (ok (bool_case b r))
    json_equal (float64 x) r c = present r (ok (float_case x r))
    json_equal (int n) r c = present r (ok (failed "" (invalid_type r (int n))))
    json_equal (int64 n) r c = present r (ok (failed "" (invalid_type r (int64 n))))
    json_equal (other t) r c = present r (ok (failed "" (invalid_type r (other t))))

    pub item_parts : Items → List Part
    item_parts empty = []
    item_parts (cons x xs) = (x, json_equal x) ∷ item_parts xs

    pub field_parts : Fields → Dict Part
    field_parts end = []
    field_parts (entry k v fs) = (k, (v, json_equal v)) ∷ field_parts fs
