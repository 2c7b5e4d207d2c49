-- ===== src/Csv.antt =====
-- pkg/lib/csv/csv.go: tables with a row of names and a row of formats: the header, and the rows that
-- are left out.
pub mod Cells
pub mod Readers
pub mod Formats
pub mod Tables
use apitest.Base.Dict.{Dict, insert}
use apitest.Base.Int.{ℤ, pos}
use apitest.Json.{Value, Float, nil}
use apitest.Json.Number.{parse_int}
use apitest.Host.{Host}
use apitest.Base.{
  ℕ, ◌+◌, Bool, true, false, not, ◌&&◌, ◌||◌, String, Option, none, some, List, [], ◌∷◌, ◌++◌,
  Outcome, ok, err, ◌>>=◌, map, str_eq, has_prefix, mem_str, code, ltb, leb, ◌==◌, if◌then◌else◌,
}

abbrev pub Row : Type 0
Row = List String

pub record Info : Type 0 where
  pub name : String
  pub format : String

abbrev pub skip_column : String
skip_column = "SKIP_COLUMN"

-- unicode.IsSpace
abbrev pub is_space : ℕ → Bool
is_space c =
    leb 9 c && leb c 13
    || c == 32
    || c == 133
    || c == 160
    || c == 5760
    || leb 8192 c && leb c 8202
    || c == 8232
    || c == 8233
    || c == 8239
    || c == 8287
    || c == 12288

unfoldable pub trim_left : String → String
trim_left String.[] = ""
trim_left (String.◌∷◌ c s) =
    let rest = trim_left s in if is_space (code c) then rest else String.◌∷◌ c s

unfoldable pub trim_right : String → String
trim_right String.[] = ""
trim_right (String.◌∷◌ c s) =
    let rest = trim_right s in if is_space (code c) && str_eq rest "" then "" else String.◌∷◌ c rest

-- strings.TrimSpace
unfoldable pub trim_space : String → String
unfolding trim_left trim_right
trim_space s = trim_right (trim_left s)

-- strings.TrimPrefix(format, "*"), and whether there was one.
unfoldable pub strip_star : String → Bool × String
strip_star String.[] = (false, "")
strip_star (String.◌∷◌ c s) = if code c == b'*' then (true, s) else (false, String.◌∷◌ c s)

abbrev pub valid_formats : List String
valid_formats =
    "string" ∷ "string,array" ∷ "int64" ∷ "int64,array" ∷ "int" ∷ "int,array" ∷ "float64"
    ∷ "float64,array" ∷ "bool" ∷ "bool,array" ∷ "json" ∷ []

unfoldable pub is_valid_format : String → Bool
unfolding strip_star
is_valid_format format = let (ptr, f) = strip_star format in mem_str f valid_formats

-- What is in the way of a table; the reader's and the parsers' errors keep their texts.
pub data CsvError : Type 0 where
  empty_input : CsvError
  reading : String → CsvError
  invalid_format unsupported_format only_one_row : String → CsvError
  no_int no_float no_bool : String → CsvError
  bad_json : String → String → CsvError
  -- an index out of range: the program panics
  panic : CsvError

-- The format that a column has in the end.
unfoldable pub column_format : String → String → Outcome CsvError String
unfolding trim_space is_valid_format
column_format name format =
    if not (is_valid_format format) && not (str_eq (trim_space format) "")
    then err (invalid_format format)
    else if not (is_valid_format format) || str_eq (trim_space name) ""
    then ok skip_column
    else ok format

-- extractHeaderInformation: names without a format are dropped.
unfoldable pub extract_header : List String → List String → Outcome CsvError (List Info)
unfolding column_format trim_space
extract_header [] formats = ok []
extract_header (v ∷ names) [] = ok []
extract_header (v ∷ names) (f ∷ formats) = do
  format ← column_format v f
  rest ← extract_header names formats
  ok (record { name = trim_space v; format = format } ∷ rest)

abbrev pub all_empty : Row → Bool
all_empty [] = true
all_empty (v ∷ vs) = str_eq v "" && all_empty vs

-- A comment line, or a line of empty cells.
unfoldable pub is_empty_row : Row → Bool
is_empty_row [] = true
is_empty_row (v ∷ vs) = has_prefix v "#" || all_empty (v ∷ vs)

unfoldable pub remove_empty_rows : List Row → List Row
unfolding is_empty_row
remove_empty_rows [] = []
remove_empty_rows (v ∷ rows) =
    let rest = remove_empty_rows rows in if is_empty_row v then rest else v ∷ rest
