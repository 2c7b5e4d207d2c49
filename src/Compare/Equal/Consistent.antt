-- ===== src/Compare/Equal/Consistent.antt =====
-- A result of JsonEqual is equal exactly when it lists no failure.
use apitest.Base.{
  Bool, true, false, ◌≡◌, refl, String, List, ok, ok-injective, Outcome, subst, is_empty,
}
use apitest.Base.Dict.{Dict}
use apitest.Json.{
  Value, Items, Fields, nil, object, array, str, number, bool, int, int64, float64, other, empty,
  cons, end, entry, fields, items, Float,
}
use apitest.Host.{Host}
use apitest.Compare.Types.{
  CompareResult, Context, Error, Message, Part, response_nil, failed, no_json_array, no_json_object,
  invalid_type,
}
use apitest.Compare.Arrays.{next_control, array_equal_with_control}
use apitest.Compare.Arrays.Consistent.{
  IsConsistent, IsSound, AreSound, array_comparison-IsConsistent,
}
use apitest.Compare.Objects.Consistent.{FieldsSound, object_comparison-IsConsistent}
use apitest.Compare.Equal.{
  scalar, present, nil_case, float_case, string_case, number_case, bool_case, object_case,
  array_case, json_equal, item_parts, field_parts,
}

scalar-IsConsistent : (same : Bool) (m : Message) → IsConsistent (scalar same m)
scalar-IsConsistent true m = refl
scalar-IsConsistent false m = refl

abbrev OutcomeConsistent : Outcome Error CompareResult → Type 0
OutcomeConsistent m = (res : CompareResult) → m ≡ ok res → IsConsistent res

of_result : (r : CompareResult) → IsConsistent r → OutcomeConsistent (ok r)
of_result r h res e = subst IsConsistent (ok-injective e) h

present-OutcomeConsistent :
    (r : Value) (m : Outcome Error CompareResult)
    → OutcomeConsistent m
    → OutcomeConsistent (present r m)
unfolding present
present-OutcomeConsistent nil m h = of_result (failed "$" response_nil) refl
present-OutcomeConsistent _ m h = h

module _ (host : Host) where
  string_case-IsConsistent : (s : String) (r : Value) → IsConsistent (string_case host s r)
  unfolding string_case
  string_case-IsConsistent s (str t) = scalar-IsConsistent _ _
  string_case-IsConsistent s _ = refl

  number_case-IsConsistent : (n : String) (r : Value) → IsConsistent (number_case host n r)
  unfolding number_case
  number_case-IsConsistent n (number m) = scalar-IsConsistent _ _
  number_case-IsConsistent n (int64 m) = scalar-IsConsistent _ _
  number_case-IsConsistent n (float64 x) = scalar-IsConsistent _ _
  number_case-IsConsistent n _ = refl

  bool_case-IsConsistent : (b : Bool) (r : Value) → IsConsistent (bool_case host b r)
  unfolding bool_case
  bool_case-IsConsistent b (bool c) = scalar-IsConsistent _ _
  bool_case-IsConsistent b _ = refl

  float_case-IsConsistent : (x : Float) (r : Value) → IsConsistent (float_case host x r)
  unfolding float_case
  float_case-IsConsistent x (float64 y) = scalar-IsConsistent _ _
  float_case-IsConsistent x _ = refl

  nil_case-IsConsistent : (r : Value) → IsConsistent (nil_case host r)
  unfolding nil_case
  nil_case-IsConsistent nil = refl
  nil_case-IsConsistent _ = refl

  array_case-OutcomeConsistent :
      (left : List Part) (r : Value) (c : Context)
      → AreSound left
      → OutcomeConsistent (array_case host left r c)
  unfolding array_case array_equal_with_control
  array_case-OutcomeConsistent left (array xs) c sound res h =
      array_comparison-IsConsistent host left (items xs) c (next_control host c) res sound h
  array_case-OutcomeConsistent left _ c sound res h =
      of_result (failed "$" no_json_array) refl res h

  object_case-OutcomeConsistent :
      (left : Dict Part) (r : Value) (c : Context)
      → FieldsSound left
      → OutcomeConsistent (object_case host left r c)
  unfolding object_case
  object_case-OutcomeConsistent left (object fs) c sound res h =
      object_comparison-IsConsistent host left (fields fs) sound c.no_extra res h
  object_case-OutcomeConsistent left _ c sound res h =
      of_result (failed "$" no_json_object) refl res h

  mutual
    unfolding json_equal item_parts field_parts

    json_equal-IsSound : (l : Value) → IsSound (json_equal host l)
    json_equal-IsSound nil r c = of_result (nil_case host r) (nil_case-IsConsistent r)
    json_equal-IsSound (object fs) r c =
        present-OutcomeConsistent r (object_case host (field_parts host fs) r c)
          (object_case-OutcomeConsistent (field_parts host fs) r c (field_parts-Sound fs))
    json_equal-IsSound (array xs) r c =
        present-OutcomeConsistent r (array_case host (item_parts host xs) r c)
          (array_case-OutcomeConsistent (item_parts host xs) r c (item_parts-Sound xs))
    json_equal-IsSound (str s) r c =
        present-OutcomeConsistent r _ (of_result _ (string_case-IsConsistent s r))
    json_equal-IsSound (number n) r c =
        present-OutcomeConsistent r _ (of_result _ (number_case-IsConsistent n r))
    json_equal-IsSound (bool b) r c =
        present-OutcomeConsistent r _ (of_result _ (bool_case-IsConsistent b r))
    json_equal-IsSound (float64 x) r c =
        present-OutcomeConsistent r _ (of_result _ (float_case-IsConsistent x r))
    json_equal-IsSound (int n) r c =
        present-OutcomeConsistent r _ (of_result (failed "" (invalid_type r (int n))) refl)
    json_equal-IsSound (int64 n) r c =
        present-OutcomeConsistent r _ (of_result (failed "" (invalid_type r (int64 n))) refl)
    json_equal-IsSound (other t) r c =
        present-OutcomeConsistent r _ (of_result (failed "" (invalid_type r (other t))) refl)

    item_parts-Sound : (xs : Items) → AreSound (item_parts host xs)
    item_parts-Sound empty = tt
    item_parts-Sound (cons x xs) = (json_equal-IsSound x, item_parts-Sound xs)

    field_parts-Sound : (fs : Fields) → FieldsSound (field_parts host fs)
    field_parts-Sound end = tt
    field_parts-Sound (entry k v fs) = (json_equal-IsSound v, field_parts-Sound fs)

-- Whatever the two documents, the control and the order of iteration: a result that JsonEqual
-- returns is marked equal if it has no failure, and marked unequal if it has one.
pub json_equal-IsConsistent :
    (host : Host) (left right : Value) (control : Context) (res : CompareResult)
    → json_equal host left right control ≡ ok res
    → res.equal ≡ is_empty res.failures
json_equal-IsConsistent host left right control res h =
    json_equal-IsSound host left right control res h
