-- ===== src/Tests/Responding.antt =====
-- A response of a server, and its document.
use apitest.Base.{◌≡◌, refl, true, false, String, none, some, [], ◌∷◌, ok, err, has_suffix}
use apitest.Base.Dict.{Dict, insert}
use apitest.Base.Int.{pos}
use apitest.Json.{Value, str, object, array, of_items, of_fields, end}
use apitest.Api.Response.{
  HeaderValue, json, strings, Format, Response, Formats, split_headers, nothing_split,
  server_response_to_generic_json,
}
use apitest.Api.Response.Bodies.{BodyOf, server_response_to_generic_json-BodyOf}

-- The only documents are texts without quotes.
abbrev pub formats : Formats String String
formats = record {
  marshal = λ v. ok "null";
  unmarshal = λ s. ok (str s);
  through_json =
      λ status headers cookies control flat. ok (("header_flat", object (of_fields flat)) ∷ []);
  cookie_name = λ c. c;
  run = λ p r. ok r;
  ensure_json = λ b. b;
  xml = λ b t. ok b;
  html = λ b. ok b;
  xhtml = λ b. ok b;
  xlsx = λ b n. err "no sheet";
  csv = λ b c. ok b;
  md5 = λ b. "0";
  trim_space = λ b. b;
  lines = λ b. str b ∷ [];
  parse_float = λ b. none;
  truncate = λ x. pos 0;
}

abbrev plain : Format String
plain = record { ignore_body = false; type = ""; comma = ""; sheet_idx = pos 0; pre_process = none }

abbrev response : Response String String
response = record {
  status_code = some (pos 200);
  headers = ("A", "x" ∷ "y" ∷ []) ∷ [];
  header_flat = [];
  cookies = [];
  body = "hello";
  body_control = none;
  format = plain;
}

abbrev whole : Value
whole = object (
    of_fields
      (("header_flat", object (of_fields (("A", str "x;y") ∷ []))) ∷ ("body", str "hello") ∷ []))

document-made : server_response_to_generic_json formats plain false response ≡ ok whole
unfolding server_response_to_generic_json insert of_fields
document-made = refl

server_response_to_generic_json-BodyOf_example :
    BodyOf formats (server_response_to_generic_json formats plain true response) whole
server_response_to_generic_json-BodyOf_example =
    server_response_to_generic_json-BodyOf formats plain response whole refl document-made

abbrev mixed : Dict HeaderValue
mixed =
    ("A", json (str "x"))
    ∷ ("B", json (array (of_items (str "y" ∷ []))))
    ∷ ("A:control", json (object end))
    ∷ ("C", strings ("z" ∷ []))
    ∷ []

headers-sorted :
    split_headers mixed nothing_split
    ≡ ok (record {
      flat = ("A", str "x") ∷ ("A:control", object end) ∷ [];
      lists = ("B", "y" ∷ []) ∷ ("C", "z" ∷ []) ∷ [];
    })
unfolding split_headers insert of_items has_suffix
headers-sorted = refl
