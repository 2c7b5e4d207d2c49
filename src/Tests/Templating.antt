-- ===== src/Tests/Templating.antt =====
-- The functions of the templates, with a host whose floats are their own numbers.
use apitest.Base.{
  ℕ, suc, ◌+◌, ◌-◌, ◌*◌, ◌/◌, ◌^◌, ◌≡◌, ◌↔◌, refl, true, false, String, Option, none, some, List,
  [], ◌∷◌, ok, err, arith, length,
}
use apitest.Base.Dict.{lookup, insert}
use apitest.Base.Int.{pos, negsuc}
use apitest.Json.{Value, str, int64, nil, Float}
use apitest.Json.Number.{parse_int}
use apitest.Template.Arithmetic.{
  Operand, number, text, int, uint, value, panicked, Floats, add, subtract, divide, n,
}
use apitest.Template.Arithmetic.Integers.{subtract-add}
use apitest.Template.Rows.{Row, rows_to_map, pivot_rows}
use apitest.Template.Rows.Maps.{last_value}
use apitest.Template.Rows.Pivots.{Pivoted, pivot_rows-Pivoted}

abbrev floats : Floats
floats = record {
  plus = λ x y. x + y;
  minus = λ x y. x - y;
  times = λ x y. x * y;
  over = λ x y. x;
  of_int = λ n. 7;
  of_uint = λ n. n;
  parse = λ s. none;
  truncate = λ x. pos x;
}

-- The sum of the greatest int64 and 1 is the least one.
sum-wraps : add floats (int (pos 1)) (int (pos (2 ^ 63 - 1))) ≡ value (int (negsuc (2 ^ 63 - 1)))
unfolding add
sum-wraps = refl

text-added : add floats (text "-3") (number "5") ≡ value (int (pos 2))
unfolding add parse_int
text-added = refl

nil-panics : subtract floats (int (pos 1)) Operand.nil ≡ panicked
unfolding subtract
nil-panics = refl

quotient-rounded : divide floats (int (pos 2)) (int (negsuc 6)) ≡ value (int (negsuc 2))
unfolding divide
quotient-rounded = refl

negative-panics : n floats (int (negsuc 0)) ≡ panicked
unfolding n
negative-panics = refl

subtract-add_example :
    (s : Operand) × (add floats (uint 2) (int (pos (2 ^ 63 - 1))) ≡ value s)
    × (subtract floats (uint 2) s ≡ value (int (pos (2 ^ 63 - 1))))
subtract-add_example = subtract-add floats (pos (2 ^ 63 - 1)) (uint 2) (omega arith) (omega arith)

abbrev rows : List Row
rows =
    (("key", str "a") ∷ ("value", str "1") ∷ [])
    ∷ (("key", str "b") ∷ ("value", nil) ∷ [])
    ∷ (("key", str "a") ∷ ("value", str "2") ∷ [])
    ∷ (("value", str "3") ∷ [])
    ∷ []

last-mapped : last_value "key" "value" "a" rows none ≡ some (str "2")
unfolding lookup apitest.Template.Rows.row_value
last-mapped = refl

abbrev columns : List Row
columns =
    (("key", str "name") ∷ ("type", str "string") ∷ ("1", str "x") ∷ ("3", str "y") ∷ [])
    ∷ (("key", str "age") ∷ ("type", str "int64") ∷ ("2", str "12") ∷ [])
    ∷ []

sheet-made :
    pivot_rows (λ s. none) (λ s. none) (λ s. 0) "key" "type" columns
    ≡ ok ((("name", str "x") ∷ []) ∷ (("age", int64 (pos 12)) ∷ []) ∷ (("name", str "y") ∷ []) ∷ [])
unfolding pivot_rows lookup insert parse_int apitest.Json.Number.magnitude apitest.Base.has_prefix
sheet-made = refl

pivot_rows-Pivoted_example :
    Pivoted
      (λ s. none)
      (λ s. none)
      (λ s. 0)
      "key"
      "type"
      columns
      0
      (pivot_rows (λ s. none) (λ s. none) (λ s. 0) "key" "type" columns)
pivot_rows-Pivoted_example =
    pivot_rows-Pivoted (λ s. none) (λ s. none) (λ s. 0) "key" "type" columns
