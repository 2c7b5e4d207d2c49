-- ===== src/Api/Formats.antt =====
-- response.go: the formats of a response's body, by the program's own conversions. What these take
-- from other packages, and the texts of their errors, stay parameters.
use apitest.Base.{ℕ, String, List, Outcome, ok, err, ◌>>=◌, code}
use apitest.Json.{Value}
use apitest.Host.{Host}
use apitest.Csv.{Row, CsvError}
use apitest.Csv.Readers.{generic_csv_to_map}
use apitest.Html.{Node, Nodes, HtmlError, html_to_json}
use apitest.Conversions.{Parsers, ConversionError, xml_to_json, xhtml_to_json, xlsx_to_json}
use apitest.Api.PreProcess.{Command, Runner, run_pre_process, ensure_json}
use apitest.Api.Response.{Formats}

unfoldable pub texted : {E A : Type 0} → (E → String) → Outcome E A → Outcome String A
texted text (ok a) = ok a
texted text (err e) = err (text e)

-- The first character of the comma of a CSV format, and a comma if there is none.
unfoldable pub rune_comma : String → ℕ
rune_comma String.[] = b','
rune_comma (String.◌∷◌ c s) = code c

-- A page, as the parser reads it and with the texts of its nodes.
pub record Pages : Type 0 where
  pub parse_page : String → Outcome String Nodes
  pub text : Node → String
  pub to_json : Value → Outcome String String

pub record Errors : Type 0 where
  pub of_html : HtmlError → String
  pub of_conversion : ConversionError → String
  pub of_csv : CsvError → String

module _ (host : Host) (render : String → ℕ → Outcome String (List Row))
    (unmarshal_cell : String → Outcome String Value) {M : Type 0} (parsers : Parsers M)
    (pages : Pages) (runner : Runner) (errors : Errors) where
  unfoldable pub csv_json : String → String → Outcome String String
  unfolding texted rune_comma generic_csv_to_map
  csv_json b comma = do
    maps ← texted errors.of_csv (generic_csv_to_map host render unmarshal_cell b (rune_comma comma))
    parsers.marshal maps

  -- The other fields are those of `fm`.
  abbrev pub own_formats : {C : Type 0} → Formats Command C → Formats Command C
  own_formats fm = record fm {
    run = λ p r. run_pre_process runner p r;
    ensure_json = ensure_json runner;
    xml = λ b t. texted errors.of_conversion (xml_to_json parsers b t);
    html = λ b. texted errors.of_html (html_to_json pages.text pages.to_json (pages.parse_page b));
    xhtml = λ b. texted errors.of_conversion (xhtml_to_json parsers b);
    xlsx = λ b idx.
        texted errors.of_conversion (xlsx_to_json parsers host render unmarshal_cell b idx);
    csv = csv_json;
  }
