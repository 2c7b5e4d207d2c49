-- ===== src/Template/Rows.antt =====
-- rowsToMap and pivotRows. A row is a map with string keys; the order of an association list is the
-- order in which the runtime iterates.
pub mod Maps
pub mod Pivots
use apitest.Base.{
  ℕ, zero, suc, ◌+◌, ◌-◌, ◌^◌, ◌*◌, Bool, true, false, ◌||◌, String, Option, none, some, List, [],
  ◌∷◌, Outcome, ok, err, str_eq, mem_str, has_prefix, code, ◌==◌, ltb, if◌then◌else◌,
}
use apitest.Base.Dict.{Dict, lookup, insert}
use apitest.Base.Int.{ℤ, pos, negsuc}
use apitest.Json.{Value, nil, object, str, number, int64, float64, of_fields, Float}
use apitest.Json.Number.{parse_int, max_int64, is_digit}

abbrev pub Row : Type 0
Row = Dict Value

-- `row[key] == nil`
unfoldable pub present : Option Value → Option Value
present none = none
present (some nil) = none
present (some v) = some v

-- The map so far, and the key that is no string, if one was met: the loop goes on behind it.
pub record Mapped : Type 0 where
  pub map : Dict Value
  pub failure : Option Value

unfoldable pub or_empty : Option Value → Value
or_empty none = str ""
or_empty (some v) = v

unfoldable pub row_value : String → Row → Value
unfolding present or_empty
row_value val_col row =
    if str_eq val_col "" then object (of_fields row) else or_empty (present (lookup val_col row))

unfoldable pub map_row : String → Row → Option Value → Mapped → Mapped
unfolding row_value
map_row val_col row none m = m
map_row val_col row (some (str s)) m = record m { map = insert s (row_value val_col row) m.map }
map_row val_col row (some v) m = record {
  map = insert "" (row_value val_col row) m.map;
  failure = some v;
}

unfoldable pub map_rows : String → String → List Row → Mapped → Mapped
unfolding map_row present
map_rows key_col val_col [] m = m
map_rows key_col val_col (row ∷ rows) m =
    map_rows key_col val_col rows (map_row val_col row (present (lookup key_col row)) m)

abbrev pub no_rows : Mapped
no_rows = record { map = []; failure = none }

unfoldable pub rows_to_map : String → String → List Row → Mapped
unfolding map_rows
rows_to_map key_col val_col rows =
    if str_eq key_col "" then no_rows else map_rows key_col val_col rows no_rows

-- The text of a string, and the empty text of any other value.
unfoldable pub get_str : Option Value → String
get_str (some (str s)) = s
get_str _ = ""

abbrev max_uint64 : ℕ
max_uint64 = 2 ^ 64 - 1

-- What strconv.Atoi and strconv.ParseInt return, an error or not: the nearest int64 for a number
-- out of range, and 0 for what is no number.
unfoldable pub clamped : Bool → Option ℕ → ℤ
clamped negative none = pos 0
clamped true (some n) = negsuc max_int64
clamped false (some n) = pos max_int64

unfoldable pub unsigned_text : String → String
unsigned_text String.[] = ""
unsigned_text (String.◌∷◌ c s) = if code c == b'-' || code c == b'+' then s else String.◌∷◌ c s

-- strconv.ParseUint behind the sign: the number, or one above 2^64 - 1 where the digits get there,
-- whatever stands behind them.
unfoldable pub scanned : ℕ → String → Option ℕ
scanned acc String.[] = some acc
scanned acc (String.◌∷◌ c s) =
    let next = acc * 10 + (code c - b'0') in
    let rest = scanned next s in
    if is_digit (code c) then (if ltb max_uint64 next then some next else rest) else none

unfoldable pub parse_uint : String → Option ℕ
unfolding scanned
parse_uint String.[] = none
parse_uint (String.◌∷◌ c s) = scanned 0 (String.◌∷◌ c s)

unfoldable pub or_clamped : String → Option ℤ → ℤ
unfolding clamped unsigned_text parse_uint
or_clamped s (some n) = n
or_clamped s none = clamped (has_prefix s "-") (parse_uint (unsigned_text s))

unfoldable pub atoi : String → ℤ
unfolding or_clamped
atoi s = or_clamped s (parse_int s)

-- The loop that appends empty rows, up to a length of `n`.
unfoldable pub grow : ℕ → List Row → List Row
grow zero sheet = sheet
grow (suc n) [] = [] ∷ grow n []
grow (suc n) (r ∷ rs) = r ∷ grow n rs

unfoldable pub set_cell : ℕ → String → Value → List Row → List Row
set_cell n key v [] = []
set_cell zero key v (r ∷ rs) = insert key v r ∷ rs
set_cell (suc n) key v (r ∷ rs) = r ∷ set_cell n key v rs

unfoldable pub set_cell_if : ℕ → String → Option Value → List Row → List Row
unfolding set_cell
set_cell_if n key none sheet = sheet
set_cell_if n key (some v) sheet = set_cell n key v sheet

abbrev pub supported : String → Bool
supported typ = mem_str typ ("string" ∷ "int64" ∷ "float64" ∷ "number" ∷ "json" ∷ [])

-- `unmarshal` reads JSON into an `any`, `unmarshal_number` into a jsutil.Number, and `parse_float` is
-- the float that strconv.ParseFloat returns, an error or not.
module _ (unmarshal : String → Option Value) (unmarshal_number : String → Option String)
    (parse_float : String → Float) where
  unfoldable pub number_value : Option String → Option Value
  number_value none = none
  number_value (some n) = some (number n)

  -- The switch on the type: what the cell is set to, if anything.
  unfoldable pub cell : String → String → Option Value
  unfolding number_value atoi
  cell typ v =
      if str_eq typ "string"
      then some (str v)
      else if str_eq typ "json"
      then unmarshal v
      else if str_eq typ "int64"
      then some (int64 (atoi v))
      else if str_eq typ "float64"
      then some (float64 (parse_float v))
      else if str_eq typ "number"
      then number_value (unmarshal_number v)
      else none

  unfoldable pub put_cell : String → String → ℕ → Option Value → List Row → List Row
  unfolding set_cell_if cell get_str
  put_cell key typ n none sheet = sheet
  put_cell key typ n (some v) sheet = set_cell_if n key (cell typ (get_str (some v))) sheet

  unfoldable pub pivot_cell : String → String → Value → ℤ → List Row → List Row
  unfolding grow put_cell present
  pivot_cell key typ v (pos zero) sheet = sheet
  pivot_cell key typ v (pos (suc n)) sheet =
      put_cell key typ n (present (some v)) (grow (suc n) sheet)
  pivot_cell key typ v (negsuc n) sheet = sheet

  -- The loop over the keys of a row.
  unfoldable pub pivot_row : String → String → Row → List Row → List Row
  unfolding pivot_cell atoi
  pivot_row key typ [] sheet = sheet
  pivot_row key typ ((k, v) ∷ row) sheet =
      pivot_row key typ row (pivot_cell key typ v (atoi k) sheet)

  unfoldable pub pivot_from : String → String → List Row → List Row → Outcome String (List Row)
  unfolding pivot_row get_str
  pivot_from key typ [] sheet = ok sheet
  pivot_from key typ (row ∷ rows) sheet =
      let sheet_key = get_str (lookup key row) in
      let sheet_type = get_str (lookup typ row) in
      let skipped = pivot_from key typ rows sheet in
      let done = pivot_from key typ rows (pivot_row sheet_key sheet_type row sheet) in
      if str_eq sheet_key "" || str_eq sheet_type ""
      then skipped
      else if supported sheet_type
      then done
      else err sheet_type

  unfoldable pub pivot_rows : String → String → List Row → Outcome String (List Row)
  unfolding pivot_from
  pivot_rows key typ rows = pivot_from key typ rows []
