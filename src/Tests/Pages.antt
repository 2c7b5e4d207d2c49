-- ===== src/Tests/Pages.antt =====
-- A page with two tags of one name, and a workbook of one sheet.
use apitest.Base.{ℕ, ◌≡◌, ◌↔◌, refl, false, String, List, [], ◌∷◌, Outcome, ok, err}
use apitest.Base.Dict.{Dict, lookup, insert}
use apitest.Base.Int.{pos}
use apitest.Json.{Value, object, of_fields, str, array, of_items}
use apitest.Html.{
  Node, Nodes, tag, comment, other_node, no_nodes, node_then, trim, parse_html_node, html_to_json,
}
use apitest.Html.Keys.{expected_at, parse_html_node-expected_at}
use apitest.Csv.{Row}
use apitest.Conversions.{Workbook, Parsers, invalid_sheet, xlsx_to_json}
use apitest.Conversions.Sheets.{xlsx_to_json-is_sheet}
use apitest.Tests.Hosts.{whole_host}

abbrev text : Node → String
text n = " t "

abbrev item : String → Node
item v = tag "li" (("class", v) ∷ []) no_nodes

abbrev item_value : String → Value
item_value v = object (of_fields (("-class", str v) ∷ ("#text", str "t") ∷ []))

abbrev items : Nodes
items = node_then (item "a") (node_then (comment " c ") (node_then (item "b") no_nodes))

list-parsed :
    parse_html_node text (tag "ul" [] items)
    ≡ (
      "ul",
      object (
          of_fields (
            ("#comment", str "c")
            ∷ ("li", array (of_items (item_value "a" ∷ item_value "b" ∷ [])))
            ∷ [])),
    )
      ∷ []
unfolding parse_html_node trim insert lookup
list-parsed = refl

page-parsed :
    html_to_json text (λ v. ok "{}") (ok (node_then (other_node "html") no_nodes)) ≡ ok "{}"
unfolding html_to_json
page-parsed = refl

parse_html_node-expected_at_example :
    (d : Dict Value) × (parse_html_node text (tag "ul" [] items)
      ≡ ("ul", object (of_fields d)) ∷ [])
    × ((k : String) → lookup k d ≡ expected_at text k "ul" [] items)
parse_html_node-expected_at_example = parse_html_node-expected_at text "ul" [] items

abbrev workbook : Workbook
workbook = record {
  sheet_count = 1;
  sheet_name = λ n. "Sheet1";
  rows = λ name. ok (("a" ∷ []) ∷ []);
}

abbrev parsers : Parsers String
parsers = record {
  without_declaration = λ s. s;
  map_xml_seq = λ s. ok s;
  map_xml = λ s. ok s;
  json_indent = λ m. ok m;
  open_reader = λ s. ok workbook;
  write_rows = λ rows. ok "a";
  marshal = λ ms. ok "[]";
}

abbrev render : String → ℕ → Outcome String (List Row)
render s c = ok (("a" ∷ []) ∷ [])

abbrev no_json : String → Outcome String Value
no_json s = err "no JSON"

xlsx_to_json-is_sheet_example :
    (xlsx_to_json parsers whole_host render no_json "" (pos 1)
      ≡ err (invalid_sheet (pos 1) (pos 0)))
    ↔ (false ≡ false)
xlsx_to_json-is_sheet_example =
    xlsx_to_json-is_sheet parsers whole_host render no_json "" (pos 1) workbook refl
