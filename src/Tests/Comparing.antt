-- ===== src/Tests/Comparing.antt =====
-- The comparison at concrete documents.
use apitest.Base.{
  ◌≡◌, ◌↔◌, refl, true, false, some, [], ◌∷◌, ok, is_empty, arith, inl, inr, length, String,
  has_prefix, has_suffix,
}
use apitest.Base.Dict.{lookup}
use apitest.Json.{
  Value, Items, Fields, nil, object, array, number, bool, empty, cons, end, entry, items, fields,
  number_equal,
}
use apitest.Compare.Types.{
  CompareResult, Context, no_control, failed, equal_result, got_number, extra_in_array,
}
use apitest.Compare.Control.{fill_context, control_key, set_control}
use apitest.Compare.Checks.{key_checks}
use apitest.Compare.Checks.Demands.{Satisfies, key_checks-Satisfies}
use apitest.Compare.Arrays.{array_comparison, array_equal_with_control, scan_ordered}
use apitest.Compare.Arrays.Ordered.{Embeds, array_comparison-Embeds}
use apitest.Compare.Arrays.Unordered.{Assigned, array_comparison-Assigned}
use apitest.Compare.Objects.{object_comparison, control_base}
use apitest.Compare.Objects.Plain.{Covers, NoExtra, object_comparison-Covers}
use apitest.Compare.Equal.{
  json_equal, item_parts, field_parts, object_case, array_case, number_case, present,
}
use apitest.Compare.Equal.Consistent.{json_equal-IsConsistent}
use apitest.Compare.Equal.Reflexive.{json_equal_self}
use apitest.Tests.Hosts.{whole_host}

abbrev one_three : Items
one_three = cons (number "1") (cons (number "3") empty)

abbrev one_two_three : Items
one_two_three = cons (number "1") (cons (number "2") (cons (number "3") empty))

abbrev ordered : Context
ordered = record no_control { order_matters = true }

-- {"a": [1, 3], "a:control": {"order_matters": true, "no_extra": true}}
abbrev expected : Value
expected = object (
    entry "a" (array one_three) (
      entry "a:control"
        (object (entry "order_matters" (bool true) (entry "no_extra" (bool true) end))) end))

abbrev actual : Value
actual = object (entry "b" nil (entry "a" (array one_two_three) end))

abbrev extra_element : CompareResult
extra_element = record {
  equal = false;
  failures = record { key = "a"; message = extra_in_array } ∷ [];
}

control_base_test : control_base "a:control" ≡ "a"
unfolding control_base has_prefix
control_base_test = refl

expected_runs : json_equal whole_host expected actual no_control ≡ ok extra_element
unfolding json_equal object_case object_comparison present fields items array_case
    array_equal_with_control number_case control_base fill_context control_key key_checks
    number_equal lookup has_prefix has_suffix set_control scan_ordered
expected_runs = refl

json_equal-IsConsistent_example : false ≡ is_empty extra_element.failures
json_equal-IsConsistent_example =
    json_equal-IsConsistent whole_host expected actual no_control extra_element expected_runs

abbrev differ : String → String → CompareResult
differ got want = failed "" (got_number got want)

array_comparison-Embeds_example :
    (res : CompareResult) × (array_comparison whole_host
        (item_parts whole_host one_three)
        (items one_two_three)
        ordered
        no_control
      ≡ ok res)
    × ((res.equal ≡ true) ↔ (
        Embeds no_control (item_parts whole_host one_three) (items one_two_three)
        × (false ≡ true → length (item_parts whole_host one_three) ≡ length (items one_two_three))))
unfolding item_parts items json_equal present number_case number_equal
array_comparison-Embeds_example =
    array_comparison-Embeds ordered no_control (items one_two_three) refl whole_host
      (item_parts whole_host one_three) (λ lt. absurd (omega (arith, lt)))
      (
        (
          (true, (equal_result, refl, refl)),
          ((false, (differ "2" "1", refl, refl)), ((false, (differ "3" "1", refl, refl)), tt)),
        ),
        (
          (
            (false, (differ "1" "3", refl, refl)),
            ((false, (differ "2" "3", refl, refl)), ((true, (equal_result, refl, refl)), tt)),
          ),
          tt,
        ),
      )

array_comparison-Assigned_example :
    (res : CompareResult) × (array_comparison whole_host
        (item_parts whole_host one_three)
        (items one_two_three)
        no_control
        no_control
      ≡ ok res)
    × (res.equal ≡ true
        → Assigned no_control (items one_two_three) [] (item_parts whole_host one_three)
          × (false ≡ true
              → length (item_parts whole_host one_three) ≡ length (items one_two_three)))
unfolding item_parts items json_equal present number_case number_equal
array_comparison-Assigned_example =
    array_comparison-Assigned no_control no_control (items one_two_three) refl whole_host
      (item_parts whole_host one_three) (λ lt. absurd (omega (arith, lt)))
      (
        (
          (true, (equal_result, refl, refl)),
          ((false, (differ "2" "1", refl, refl)), ((false, (differ "3" "1", refl, refl)), tt)),
        ),
        (
          (
            (false, (differ "1" "3", refl, refl)),
            ((false, (differ "2" "3", refl, refl)), ((true, (equal_result, refl, refl)), tt)),
          ),
          tt,
        ),
      )

abbrev small : Fields
small = entry "n" (number "1") (entry "gone" nil end)

abbrev large : Fields
large = entry "m" nil (entry "n" (number "1") end)

object_comparison-Covers_example :
    (res : CompareResult) × (object_comparison whole_host
        (field_parts whole_host small)
        (fields large)
        true
      ≡ ok res)
    × ((res.equal ≡ true) ↔ (
        Covers (field_parts whole_host small) (fields large)
        × (true ≡ true → NoExtra (field_parts whole_host small) (fields large))))
unfolding field_parts fields json_equal present number_case number_equal lookup has_suffix
object_comparison-Covers_example =
    object_comparison-Covers whole_host (field_parts whole_host small) (fields large)
      (refl, (refl, tt)) true ((refl, tt), (tt, tt))
      (inr (true, (number "1", refl, (equal_result, refl, refl))), (inl refl, tt))

abbrev plain : Value
plain = object (entry "a" (array (cons nil one_three)) (entry "b" (object small) end))

json_equal_self_example :
    json_equal whole_host plain plain ordered ≡ ok (record { equal = true; failures = [] })
unfolding fields has_suffix
json_equal_self_example = json_equal_self whole_host plain ordered (
  (refl, (refl, tt)),
  ((refl, tt), (tt, tt)),
  ((tt, (tt, (tt, tt))), (((refl, (refl, tt)), ((refl, tt), (tt, tt)), (tt, (tt, tt))), tt)),
)

abbrev at_least_two : Context
at_least_two = record no_control { number_ge = some "2"; is_number = true }

key_checks-Satisfies_example :
    (key_checks whole_host (number "12") true at_least_two ≡ ok tt)
    ↔ Satisfies whole_host (number "12") true at_least_two
key_checks-Satisfies_example = key_checks-Satisfies whole_host (number "12") true at_least_two
