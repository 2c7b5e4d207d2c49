-- ===== src/Csv/Cells.antt =====
-- getTyped, and the cell that a column makes of it.
use apitest.Base.{
  ℕ, Bool, true, false, String, Option, none, some, List, [], ◌∷◌, Outcome, ok, err, ◌>>=◌, str_eq,
  mem_str, if◌then◌else◌,
}
use apitest.Base.Int.{ℤ, pos}
use apitest.Json.{Value, Float, nil}
use apitest.Json.Number.{parse_int}
use apitest.Host.{Host}
use apitest.Csv.{
  Row, CsvError, reading, unsupported_format, only_one_row, no_int, no_float, no_bool, bad_json,
  panic, trim_space, strip_star,
}

-- The cases of getTyped's switch.
pub data Format : Type 0 where
  string_format int64_format int_format float64_format bool_format : Format
  string_array int64_array float64_array bool_array json_format : Format
  no_format : Format

unfoldable pub format_of : String → Format
format_of f =
    if str_eq "string" f
    then string_format
    else if str_eq "int64" f
    then int64_format
    else if str_eq "int" f
    then int_format
    else if str_eq "float64" f
    then float64_format
    else if str_eq "bool" f
    then bool_format
    else if str_eq "string,array" f
    then string_array
    else if str_eq "int64,array" f
    then int64_array
    else if str_eq "float64,array" f
    then float64_array
    else if str_eq "bool,array" f
    then bool_array
    else if str_eq "json" f
    then json_format
    else no_format

pub data Cell : Type 0 where
  text : String → Cell
  int64 int : ℤ → Cell
  float64 : Float → Cell
  bool : Bool → Cell
  texts : List String → Cell
  int64s : List ℤ → Cell
  float64s : List Float → Cell
  bools : List Bool → Cell
  json : Value → Cell
  -- the untyped nil, and a pointer
  nothing : Cell
  pointer : Cell → Cell

-- strconv.ParseBool
unfoldable pub parse_bool : String → Option Bool
parse_bool s =
    if mem_str s ("1" ∷ "t" ∷ "T" ∷ "TRUE" ∷ "true" ∷ "True" ∷ [])
    then some true
    else if mem_str s ("0" ∷ "f" ∷ "F" ∷ "FALSE" ∷ "false" ∷ "False" ∷ [])
    then some false
    else none

abbrev pub or_fail : {A : Type 0} → CsvError → Option A → Outcome CsvError A
or_fail e none = err e
or_fail e (some a) = ok a

abbrev pub with_error : {A : Type 0} → (String → CsvError) → Outcome String A → Outcome CsvError A
with_error wrap (ok a) = ok a
with_error wrap (err e) = err (wrap e)

unfoldable pub each : {A B : Type 0} → (A → Outcome CsvError B) → List A → Outcome CsvError (List B)
each f [] = ok []
each f (v ∷ vs) = do a ← f v; rest ← each f vs; ok (a ∷ rest)

-- At most one row is allowed; `records[0]` panics where there is none.
unfoldable pub only_row : String → List Row → Outcome CsvError Row
only_row value [] = err panic
only_row value (r ∷ []) = ok r
only_row value (r ∷ q ∷ rows) = err (only_one_row value)

-- null is the untyped nil.
unfoldable pub json_cell : Value → Cell
json_cell nil = nothing
json_cell v = json v

abbrev pub comma : ℕ
comma = b','

module _ (host : Host) (render : String → ℕ → Outcome String (List Row))
    (unmarshal : String → Outcome String Value) where
  -- A cell that holds an array.
  unfoldable pub elements :
      {A : Type 0} → (String → Outcome CsvError A) → String → Outcome CsvError (List A)
  unfolding each only_row
  elements f value = if str_eq value "" then ok [] else (do
    rows ← with_error reading (render value comma)
    row ← only_row value rows
    each f row)

  -- An empty text stands for `zero`.
  unfoldable pub or_zero :
      {A : Type 0} → A → (String → Outcome CsvError A) → String → Outcome CsvError A
  or_zero z f value = if str_eq value "" then ok z else f value

  abbrev pub int_cell : String → Outcome CsvError ℤ
  int_cell v = or_fail (no_int v) (parse_int v)

  abbrev pub float_cell : String → Outcome CsvError Float
  float_cell v = or_fail (no_float v) (host.parse_float v)

  -- float64(0), whose bit pattern is 0
  unfoldable pub typed : String → Format → String → Outcome CsvError Cell
  unfolding or_zero elements trim_space parse_bool json_cell
  typed format string_format value = ok (text value)
  typed format int64_format value = do n ← or_zero (pos 0) int_cell value; ok (int64 n)
  typed format int_format value = do n ← or_zero (pos 0) int_cell value; ok (int n)
  typed format float64_format value = do x ← or_zero 0 float_cell value; ok (float64 x)
  typed format bool_format value = do
    b ← or_zero false (λ v. or_fail (no_bool v) (parse_bool v)) value
    ok (bool b)
  typed format string_array value = do vs ← elements ok value; ok (texts vs)
  typed format int64_array value = do
    ns ← elements (or_zero (pos 0) (λ v. int_cell (trim_space v))) value
    ok (int64s ns)
  typed format float64_array value = do
    xs ← elements (or_zero 0 (λ v. float_cell (trim_space v))) value
    ok (float64s xs)
  typed format bool_array value = do
    bs ← elements (λ v. ok (str_eq (trim_space v) "true")) value
    ok (bools bs)
  typed format json_format value =
      if str_eq value ""
      then ok nothing
      else (do v ← with_error (bad_json value) (unmarshal value); ok (json_cell v))
  typed format no_format value = err (unsupported_format format)

  unfoldable pub get_typed : String → String → Outcome CsvError Cell
  unfolding typed format_of
  get_typed value format = typed format (format_of format) value

  unfoldable pub as_pointer : String → Cell → Cell
  as_pointer value nothing = nothing
  as_pointer value c = if str_eq value "" then nothing else pointer c

  unfoldable pub cell : String → String → Outcome CsvError Cell
  unfolding strip_star get_typed as_pointer
  cell format value =
      let (ptr, f) = strip_star format in
      do c ← get_typed value f; ok (if ptr then as_pointer value c else c)
