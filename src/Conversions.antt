-- ===== src/Conversions.antt =====
-- pkg/lib/util/util.go: XML and spreadsheets as JSON. The parsers, the CSV writer and the encoders
-- are the parameter `Parsers`; the rows of a sheet go through the program's own CSV reader.
pub mod Sheets
use apitest.Base.{
  ℕ, ◌-◌, Bool, true, false, ◌||◌, not, String, List, Outcome, ok, err, ◌>>=◌, ◌≡◌, refl, ◌↔◌,
  str_eq, if◌then◌else◌, Bool-cases, inl, inr,
}
use apitest.Base.Dict.{Dict}
use apitest.Base.Int.{ℤ, pos, ltb_ℤ, leb_ℤ, sub_ℕ}
use apitest.Host.{Host}
use apitest.Json.{Value}
use apitest.Csv.{Row, CsvError}
use apitest.Csv.Cells.{Cell}
use apitest.Csv.Readers.{generic_csv_to_map}

pub record Workbook : Type 0 where
  pub sheet_count : ℕ
  -- GetSheetName and GetRows
  pub sheet_name : ℤ → String
  pub rows : String → Outcome String (List Row)

pub record Parsers (M : Type 0) : Type 0 where
  -- ReplaceAll of the declaration `<?xml ... ?>` with nothing
  pub without_declaration : String → String
  -- mxj.NewMapXmlSeq, mxj.NewMapXml, and Map.JsonIndent
  pub map_xml_seq : String → Outcome String M
  pub map_xml : String → Outcome String M
  pub json_indent : M → Outcome String String
  -- excelize.OpenReader, and the CSV text of rows
  pub open_reader : String → Outcome String Workbook
  pub write_rows : List Row → Outcome String String
  pub marshal : List (Dict Cell) → Outcome String String

pub data ConversionError : Type 0 where
  unknown_format : String → ConversionError
  parsing to_json reading_xlsx into_csv : String → ConversionError
  -- the index, and the last that there is
  invalid_sheet : ℤ → ℤ → ConversionError
  no_sheet : ℤ → ConversionError
  parsing_csv : CsvError → ConversionError

module _ {M : Type 0} (parsers : Parsers M) where
  unfoldable pub wrapped :
      {E A : Type 0} → (E → ConversionError) → Outcome E A → Outcome ConversionError A
  wrapped f (ok a) = ok a
  wrapped f (err e) = err (f e)

  unfoldable pub xml_map : String → String → Outcome ConversionError M
  unfolding wrapped
  xml_map format s =
      if str_eq format "xml"
      then wrapped parsing (parsers.map_xml_seq s)
      else if str_eq format "xml2"
      then wrapped parsing (parsers.map_xml s)
      else err (unknown_format format)

  unfoldable pub xml_to_json : String → String → Outcome ConversionError String
  unfolding xml_map wrapped
  xml_to_json raw format = do
    mv ← xml_map format (parsers.without_declaration raw)
    wrapped to_json (parsers.json_indent mv)

  unfoldable pub xhtml_to_json : String → Outcome ConversionError String
  unfolding wrapped
  xhtml_to_json raw = do
    mv ← wrapped parsing (parsers.map_xml raw)
    wrapped to_json (parsers.json_indent mv)

  unfoldable pub sheet_of : Workbook → ℤ → Outcome ConversionError String
  sheet_of wb idx =
      if ltb_ℤ idx (pos 0) || leb_ℤ (pos wb.sheet_count) idx
      then err (invalid_sheet idx (sub_ℕ wb.sheet_count 1))
      else if str_eq (wb.sheet_name idx) ""
      then err (no_sheet idx)
      else ok (wb.sheet_name idx)

  -- The CSV reader is the program's own: `host`, `render` and `unmarshal` are its parameters.
  unfoldable pub xlsx_to_json :
      Host
      → (String → ℕ → Outcome String (List Row))
      → (String → Outcome String Value)
      → String
      → ℤ
      → Outcome ConversionError String
  unfolding sheet_of wrapped
  xlsx_to_json host render unmarshal raw idx = do
    wb ← wrapped reading_xlsx (parsers.open_reader raw)
    name ← sheet_of wb idx
    rows ← wrapped parsing (wb.rows name)
    csv ← wrapped into_csv (parsers.write_rows rows)
    maps ← wrapped parsing_csv (generic_csv_to_map host render unmarshal csv b',')
    wrapped to_json (parsers.marshal maps)
