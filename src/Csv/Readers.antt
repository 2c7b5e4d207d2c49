-- ===== src/Csv/Readers.antt =====
-- CSVToMap and GenericCSVToMap.
use apitest.Base.{ℕ, String, List, [], ◌∷◌, Outcome, ok, err, ◌>>=◌, map, str_eq, if◌then◌else◌}
use apitest.Base.Dict.{Dict, insert}
use apitest.Json.{Value}
use apitest.Host.{Host}
use apitest.Csv.{
  Row, Info, CsvError, reading, empty_input, panic, skip_column, trim_space, extract_header,
  remove_empty_rows,
}
use apitest.Csv.Cells.{Cell, text, each, with_error, cell}

module _ (host : Host) (render : String → ℕ → Outcome String (List Row))
    (unmarshal : String → Outcome String Value) where
  -- One row; cells without a column are left out.
  unfoldable pub row_map : List Info → Row → Dict Cell → Outcome CsvError (Dict Cell)
  unfolding cell
  row_map infos [] m = ok m
  row_map [] (v ∷ vs) m = ok m
  row_map (i ∷ infos) (v ∷ vs) m =
      if str_eq i.format skip_column
      then row_map infos vs m
      else (do c ← cell host render unmarshal i.format v; row_map infos vs (insert i.name c m))

  -- `records[0]` and `records[1]` panic where there are not two rows.
  unfoldable pub table : List Row → Outcome CsvError (List (Dict Cell))
  unfolding extract_header row_map each
  table [] = err panic
  table (names ∷ []) = err panic
  table (names ∷ formats ∷ rows) = do
    infos ← extract_header names formats
    each (λ v. row_map infos v []) rows

  unfoldable pub csv_to_map : String → ℕ → Outcome CsvError (List (Dict Cell))
  unfolding table remove_empty_rows
  csv_to_map input sep =
      if str_eq input ""
      then err empty_input
      else (do records ← with_error reading (render input sep); table (remove_empty_rows records))

  -- GenericCSVToMap: every column is a string.
  unfoldable pub generic_row : Row → Row → Dict Cell → Dict Cell
  unfolding trim_space
  generic_row names [] m = m
  generic_row [] (v ∷ vs) m = m
  generic_row (n ∷ names) (v ∷ vs) m = generic_row names vs (insert (trim_space n) (text v) m)

  unfoldable pub generic_table : List Row → Outcome CsvError (List (Dict Cell))
  unfolding generic_row
  generic_table [] = err panic
  generic_table (names ∷ rows) = ok (map (λ v. generic_row names v []) rows)

  unfoldable pub generic_csv_to_map : String → ℕ → Outcome CsvError (List (Dict Cell))
  unfolding generic_table
  generic_csv_to_map input sep =
      if str_eq input ""
      then err empty_input
      else (do records ← with_error reading (render input sep); generic_table records)
