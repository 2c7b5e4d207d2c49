-- ===== src/Tests/Requesting.antt =====
-- A request with a query and a header, from the store and its own.
use apitest.Base.{
  ◌≡◌, refl, String, none, some, List, [], ◌∷◌, Outcome, ok, err, str_eq, if◌then◌else◌,
}
use apitest.Base.Dict.{Dict, lookup, insert, erase}
use apitest.Json.{Value, str, array, cons, empty, float64}
use apitest.Api.Request.{
  Encoders, Store, build_query, build_headers, header_set, add_headers, authorize,
  headers_from_store,
}
use apitest.Api.Request.Cookies.{build_cookies}
use apitest.Api.Request.Query.{Has, stored_values, final_values, build_query-Has}
use apitest.Api.Request.Fields.{last_values, values_before, build_headers-Has}

-- A cookie is its text.
abbrev encoders : Encoders String
encoders = record {
  canonical = λ name. if str_eq name "content-type" then "Content-Type" else name;
  format_float = λ x. "1.5";
  int_text = λ n. "1";
  marshal = λ v. ok "null";
  read_cookie = λ v. ok "stored";
  no_cookie = "";
  set_value = λ v c. v;
  set_name = λ n c. c;
  cookie_text = λ c. c;
}

abbrev get : String → Outcome String Value
get key = if str_eq key "token" then ok (str "t") else err "no value"

abbrev store : Store
store = some get

abbrev url_query : Dict (List String)
url_query = ("a", "u" ∷ []) ∷ []

query-built :
    build_query encoders store
      (("a", "token") ∷ ("b", "?gone") ∷ [])
      (("c", float64 0) ∷ [])
      url_query
    ≡ ok (("a", "u" ∷ "t" ∷ []) ∷ ("c", "1.5" ∷ []) ∷ [])
unfolding build_query lookup insert
query-built = refl

build_query-Has_example :
    Has encoders "a"
      (final_values encoders "a"
        (("c", float64 0) ∷ [])
        (stored_values encoders "a" store (("a", "token") ∷ []) (lookup "a" url_query)))
      (build_query encoders store (("a", "token") ∷ []) (("c", float64 0) ∷ []) url_query)
build_query-Has_example =
    build_query-Has encoders "a" store (("a", "token") ∷ []) (("c", float64 0) ∷ []) url_query

abbrev own : Dict Value
own =
    ("content-type", str "text/plain")
    ∷ ("User-Agent", str "")
    ∷ ("x", array (cons (str "1") empty))
    ∷ []

header-built :
    build_headers encoders store none
      (("Content-Type", "application/json") ∷ [])
      (("X-Token", "token") ∷ [])
      own
    ≡ ok (("Content-Type", "text/plain" ∷ []) ∷ ("X-Token", "t" ∷ []) ∷ ("x", "1" ∷ []) ∷ [])
unfolding build_headers lookup insert erase
header-built = refl

-- A list is not put under the canonical name.
two-fields :
    build_headers encoders store none
      (("Content-Type", "application/json") ∷ [])
      []
      (("content-type", array (cons (str "text/plain") empty)) ∷ [])
    ≡ ok (
        ("User-Agent", "" ∷ [])
        ∷ ("Content-Type", "application/json" ∷ [])
        ∷ ("content-type", "text/plain" ∷ [])
        ∷ [])
unfolding build_headers lookup insert
two-fields = refl

cookies-built :
    build_cookies encoders store (
      ("a", some (record { value_from_store = "token"; value = "" }))
      ∷ ("b", none)
      ∷ ("c", some (record { value_from_store = ""; value = "v" }))
      ∷ [])
    ≡ ok ("stored" ∷ "v" ∷ [])
unfolding build_cookies
cookies-built = refl

build_headers-Has_example :
    Has encoders "Content-Type"
      (last_values encoders "Content-Type" own (
        values_before encoders "Content-Type" (
          headers_from_store encoders store (("X-Token", "token") ∷ []) (
            add_headers encoders
              (("Content-Type", "application/json") ∷ [])
              (authorize encoders none (header_set encoders "User-Agent" "" []))))))
      (build_headers encoders store none
        (("Content-Type", "application/json") ∷ [])
        (("X-Token", "token") ∷ [])
        own)
build_headers-Has_example =
    build_headers-Has encoders "Content-Type" store none (("Content-Type", "application/json") ∷ [])
      (("X-Token", "token") ∷ []) own
