-- ===== src/Tests/Tables.antt =====
-- A table of two columns, of which the second is skipped, and an input of one row.
use apitest.Base.{
  ℕ, ◌≡◌, refl, String, List, [], ◌∷◌, Outcome, ok, err, str_eq, has_prefix, if◌then◌else◌,
}
use apitest.Base.Dict.{insert}
use apitest.Base.Int.{pos}
use apitest.Json.{Value}
use apitest.Json.Number.{parse_int}
use apitest.Csv.{Row, remove_empty_rows}
use apitest.Csv.Cells.{int}
use apitest.Csv.Readers.{csv_to_map, generic_csv_to_map}
use apitest.Tests.Hosts.{whole_host}

abbrev records : List Row
records =
    ("# comment" ∷ "" ∷ [])
    ∷ ("a " ∷ "b" ∷ [])
    ∷ ("int" ∷ "" ∷ [])
    ∷ ("7" ∷ "x" ∷ [])
    ∷ ("" ∷ "" ∷ [])
    ∷ []

abbrev render : String → ℕ → Outcome String (List Row)
render s c = ok (if str_eq s "a" then ("a" ∷ []) ∷ [] else records)

abbrev no_json : String → Outcome String Value
no_json s = err "no JSON"

rows-read : csv_to_map whole_host render no_json "a,b" b',' ≡ ok ((("a", int (pos 7)) ∷ []) ∷ [])
unfolding csv_to_map remove_empty_rows has_prefix parse_int insert
rows-read = refl

generic-rows-read : generic_csv_to_map whole_host render no_json "a" b',' ≡ ok []
unfolding generic_csv_to_map
generic-rows-read = refl
