-- ===== src/Template/Groups.antt =====
-- template_loader.go: getRowsFromInput, group_map_rows and group_rows. A row is a map with string
-- keys.
pub mod Numbered
use apitest.Base.{
  ℕ, zero, suc, Bool, true, false, String, Option, none, some, List, [], ◌∷◌, ◌++◌, Outcome, ok,
  err, ◌>>=◌, is_empty, if◌then◌else◌,
}
use apitest.Base.Dict.{Dict, lookup, insert}
use apitest.Base.Int.{ℤ, pos, negsuc}
use apitest.Json.{Value, Items, empty, cons, str, object, int64, fields}
use apitest.Template.Rows.{Row}

-- The argument of a template function: []map[string]any, []any, or of any other type.
pub data RowsInput : Type 0 where
  maps : List Row → RowsInput
  values : Items → RowsInput
  no_rows : RowsInput

pub data Fault : Type 0 where
  no_column : Fault
  -- the value that is of the wrong type, and the number that is not positive
  wrong_type : Value → Fault
  too_small : ℤ → Fault
  -- a failed type assertion, or an index out of range
  panic : Fault

-- `v.(map[string]any)`
unfoldable pub asserted_rows : Items → Outcome Fault (List Row)
unfolding fields
asserted_rows empty = ok []
asserted_rows (cons (object fs) vs) = do rest ← asserted_rows vs; ok (fields fs ∷ rest)
asserted_rows (cons v vs) = err panic

unfoldable pub get_rows_from_input : RowsInput → Outcome Fault (List Row)
unfolding asserted_rows
get_rows_from_input (maps rows) = ok rows
get_rows_from_input (values vs) = asserted_rows vs
get_rows_from_input no_rows = ok []

unfoldable pub or_no_rows : Option (List Row) → List Row
or_no_rows none = []
or_no_rows (some rows) = rows

unfoldable pub map_key : Option Value → Outcome Fault String
map_key none = err no_column
map_key (some (str s)) = ok s
map_key (some v) = err (wrong_type v)

unfoldable pub map_groups : String → List Row → Dict (List Row) → Outcome Fault (Dict (List Row))
unfolding map_key or_no_rows
map_groups col [] groups = ok groups
map_groups col (row ∷ rows) groups = do
  k ← map_key (lookup col row)
  map_groups col rows (insert k (or_no_rows (lookup k groups) ++ row ∷ []) groups)

unfoldable pub group_map_rows : String → RowsInput → Outcome Fault (Dict (List Row))
unfolding get_rows_from_input map_groups
group_map_rows col input = do rows ← get_rows_from_input input; map_groups col rows []

unfoldable pub slot_index : Option Value → Outcome Fault ℕ
slot_index none = err no_column
slot_index (some (int64 (pos zero))) = err (too_small (pos 0))
slot_index (some (int64 (pos (suc n)))) = ok (suc n)
slot_index (some (int64 (negsuc n))) = err (too_small (negsuc n))
slot_index (some v) = err (wrong_type v)

-- `grouped_rows[idx] = append(grouped_rows[idx], row)`; a slot that is nil is empty.
unfoldable pub append_at : ℕ → Row → List (List Row) → Outcome Fault (List (List Row))
append_at n row [] = err panic
append_at zero row (s ∷ slots) = ok ((s ++ row ∷ []) ∷ slots)
append_at (suc n) row (s ∷ slots) = do slots' ← append_at n row slots; ok (s ∷ slots')

unfoldable pub fill_slots : String → List Row → List (List Row) → Outcome Fault (List (List Row))
unfolding slot_index append_at
fill_slots col [] slots = ok slots
fill_slots col (row ∷ rows) slots = do
  n ← slot_index (lookup col row)
  slots' ← append_at n row slots
  fill_slots col rows slots'

unfoldable pub empty_slots : ℕ → List (List Row)
empty_slots zero = []
empty_slots (suc n) = [] ∷ empty_slots n

unfoldable pub filled : List (List Row) → List (List Row)
filled [] = []
filled (s ∷ slots) = let rest = filled slots in if is_empty s then rest else s ∷ rest

abbrev pub max_groups : ℕ
max_groups = 1000

unfoldable pub group_rows : String → RowsInput → Outcome Fault (List (List Row))
unfolding get_rows_from_input fill_slots empty_slots filled
group_rows col input = do
  rows ← get_rows_from_input input
  slots ← fill_slots col rows (empty_slots max_groups)
  ok (filled slots)
