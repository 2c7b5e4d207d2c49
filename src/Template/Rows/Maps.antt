-- ===== src/Template/Rows/Maps.antt =====
-- What rowsToMap maps a key to.
use apitest.Base.{
  ◌≡◌, refl, ap, ◌∙◌, false, String, Option, none, some, List, [], ◌∷◌, str_eq, if◌then◌else◌,
}
use apitest.Base.Dict.{lookup, lookup-insert}
use apitest.Json.{Value, nil, object, array, str, number, bool, int, int64, float64, other}
use apitest.Template.Rows.{Row, Mapped, present, row_value, map_row, map_rows, no_rows, rows_to_map}

-- The map index of a row, if its key is there: of a key that is no string it is empty.
abbrev pub map_index : Option Value → Option String
map_index none = none
map_index (some (str s)) = some s
map_index (some _) = some ""

abbrev pub value_at : String → Option String → Value → Option Value → Option Value
value_at k none v before = before
value_at k (some s) v before = if str_eq s k then some v else before

-- The value of the last row whose map index is `k`.
abbrev pub last_value : String → String → String → List Row → Option Value → Option Value
last_value key_col val_col k [] before = before
last_value key_col val_col k (row ∷ rows) before =
    last_value key_col val_col k rows
      (value_at k (map_index (present (lookup key_col row))) (row_value val_col row) before)

lookup-map_row :
    (val_col k : String) (row : Row) (key : Option Value) (m : Mapped)
    → lookup k (map_row val_col row key m).map
      ≡ value_at k (map_index key) (row_value val_col row) (lookup k m.map)
unfolding map_row
lookup-map_row val_col k row none m = refl
lookup-map_row val_col k row (some (str s)) m = lookup-insert m.map s k _
lookup-map_row val_col k row (some nil) m = lookup-insert m.map "" k _
lookup-map_row val_col k row (some (object fs)) m = lookup-insert m.map "" k _
lookup-map_row val_col k row (some (array xs)) m = lookup-insert m.map "" k _
lookup-map_row val_col k row (some (number n)) m = lookup-insert m.map "" k _
lookup-map_row val_col k row (some (bool b)) m = lookup-insert m.map "" k _
lookup-map_row val_col k row (some (int n)) m = lookup-insert m.map "" k _
lookup-map_row val_col k row (some (int64 n)) m = lookup-insert m.map "" k _
lookup-map_row val_col k row (some (float64 x)) m = lookup-insert m.map "" k _
lookup-map_row val_col k row (some (other t)) m = lookup-insert m.map "" k _

lookup-map_rows :
    (key_col val_col k : String) (rows : List Row) (m : Mapped)
    → lookup k (map_rows key_col val_col rows m).map
      ≡ last_value key_col val_col k rows (lookup k m.map)
unfolding map_rows
lookup-map_rows key_col val_col k [] m = refl
lookup-map_rows key_col val_col k (row ∷ rows) m =
    lookup-map_rows key_col val_col k rows _
    ∙ ap (last_value key_col val_col k rows)
        (lookup-map_row val_col k row (present (lookup key_col row)) m)

-- With a key column, rowsToMap maps a key to the value of the last row that has it; a row without
-- the column is passed over, and a key that is no string counts as the empty one.
pub lookup-rows_to_map :
    (key_col val_col k : String) (rows : List Row)
    → str_eq key_col "" ≡ false
    → lookup k (rows_to_map key_col val_col rows).map ≡ last_value key_col val_col k rows none
unfolding rows_to_map lookup
lookup-rows_to_map key_col val_col k rows h = rw h (lookup-map_rows key_col val_col k rows no_rows)
