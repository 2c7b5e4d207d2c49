-- ===== src/Template/Functions.antt =====
-- template_loader.go: what Render does to a template before it is parsed, and the functions of the
-- templates that have a computation of their own. URLs, JSON paths, versions and the regexps of the
-- template are parameters. A text that stands beside an error is dropped.
pub mod Escapes
use apitest.Base.{
  ℕ, Char, Bool, true, false, not, ◌&&◌, ◌||◌, String, Option, none, some, List, [], ◌∷◌, Outcome,
  ok, err, ◌>>=◌, code, str_eq, ◌==◌, has_char, if◌then◌else◌, ◌<>◌,
}
use apitest.Base.Dict.{Dict, lookup, erase}
use apitest.Base.Int.{ℤ, pos}
use apitest.Json.{Value, str, int, int64}
use apitest.Api.Request.{values_of}

pub record Delimiters : Type 0 where
  pub left : String
  pub right : String

-- The regexps of the loader, and strings.NewReplacer of texts that are removed.
pub record Patterns : Type 0 where
  -- the submatches
  pub delims : String → List String
  pub tokens : String → List String
  pub split_tokens : String → List String
  pub remove_all : List String → String → String
  pub without_comments : String → String

-- url.URL: the query is what Query() and RawQuery hold.
pub record Url : Type 0 where
  pub scheme : String
  pub host : String
  pub path : String
  pub query : Dict (List String)

pub data FunctionError : Type 0 where
  empty_json : FunctionError
  not_found : String → FunctionError
  bad_index : Value → FunctionError
  not_configured : String → FunctionError
  bad_version : String → FunctionError
  bad_host : String → FunctionError
  from_callee : String → FunctionError

unfoldable pub lifted : {A : Type 0} → Outcome String A → Outcome FunctionError A
lifted (ok a) = ok a
lifted (err e) = err (from_callee e)

unfoldable pub delimiters : List String → Delimiters → Delimiters
delimiters (m ∷ l ∷ r ∷ []) d = record { left = l; right = r }
delimiters _ d = d

unfoldable pub placeholders : (String → List String) → List String → List String
placeholders split (m ∷ tokens ∷ rest) = split tokens
placeholders split _ = []

-- The template that is parsed, and the delimiters that it is parsed with.
unfoldable pub prepare : Patterns → String → Delimiters → String × Delimiters
unfolding delimiters placeholders
prepare ps tmpl d =
    let d' = delimiters (ps.delims tmpl) d in
    let cleaned = ps.remove_all (placeholders ps.split_tokens (ps.tokens tmpl)) tmpl in
    (if str_eq d'.left "//" then cleaned else ps.without_comments cleaned, d')

-- `get` is gjson.Get(json, path).Raw.
unfoldable pub gjson : (String → String → String) → String → String → Outcome FunctionError String
gjson get path json =
    if str_eq json ""
    then err empty_json
    else if str_eq (get json path) ""
    then err (not_found path)
    else ok (get json path)

unfoldable pub datastore_key : (ℤ → String) → Value → Outcome FunctionError String
datastore_key itoa (int n) = ok (itoa n)
datastore_key itoa (int64 n) = ok (itoa n)
datastore_key itoa (str s) = ok s
datastore_key itoa v = err (bad_index v)

-- `datastore`
unfoldable pub stored :
    (ℤ → String) → (String → Outcome String Value) → Value → Outcome FunctionError Value
unfolding datastore_key lifted
stored itoa get index = do key ← datastore_key itoa index; lifted (get key)

-- strings.ReplaceAll of a character, by a backslash and the character.
unfoldable pub escape_char : Char → String → String
escape_char b String.[] = ""
escape_char b (String.◌∷◌ c s) =
    let rest = escape_char b s in
    if code c == code b then String.◌∷◌ "\\" (String.◌∷◌ c rest) else String.◌∷◌ c rest

unfoldable pub str_escape : String → String
unfolding escape_char
str_escape s = escape_char "\"" (escape_char "\\" s)

unfoldable pub with_host : (String → String) → String → Url → Url
with_host port host u =
    if str_eq u.host "" && not (str_eq u.scheme "")
    then record u { scheme = host }
    else if not (str_eq (port u.host) "")
    then record u { host = host <> ":" <> port u.host }
    else record u { host = host }

-- url.Parse, Url.String, and Port of a host.
module _ (parse : String → Outcome String Url) (to_text : Url → String)
    (port : String → String) where
  unfoldable pub replace_host : String → String → Outcome FunctionError String
  unfolding with_host lifted has_char
  replace_host src host =
      if has_char b':' host
      then err (bad_host host)
      else (do u ← lifted (parse src); ok (to_text (with_host port host u)))

  -- `replace_host`, with the loader's HTTPServerHost.
  unfoldable pub replace_server_host : String → String → Outcome FunctionError String
  unfolding replace_host
  replace_server_host server_host src =
      if str_eq server_host "" then ok src else replace_host src server_host

  unfoldable pub patched : String → String → Outcome String Url → String
  unfolding erase
  patched key src (err e) = src
  patched key src (ok u) = to_text (record u { query = erase key u.query })

  unfoldable pub remove_from_url : String → String → String
  unfolding patched
  remove_from_url key src = patched key src (parse src)

  unfoldable pub first_of : List String → String
  first_of [] = ""
  first_of (v ∷ vs) = v

  unfoldable pub query_value : String → Outcome String Url → String
  unfolding first_of values_of lookup
  query_value key (err e) = ""
  query_value key (ok u) = first_of (values_of (lookup key u.query))

  unfoldable pub value_from_url : String → String → String
  unfolding query_value
  value_from_url key src = query_value key (parse src)

abbrev pub or_version : String → String
or_version v = if str_eq v "" then "v0.0.0" else v

unfoldable pub semver_compare :
    (String → Bool) → (String → String → ℤ) → String → String → Outcome FunctionError ℤ
semver_compare is_valid compare v w =
    if not (is_valid (or_version v))
    then err (bad_version (or_version v))
    else if not (is_valid (or_version w))
    then err (bad_version (or_version w))
    else ok (compare (or_version v) (or_version w))

unfoldable pub not_match :
    (String → String → Outcome String Bool) → String → String → Outcome FunctionError Bool
unfolding lifted
not_match match regex text = do m ← lifted (match regex text); ok (not m)

-- base64_decode and query_unescape: of an error the text is the answer.
unfoldable pub text_or_error : Outcome String String → String
text_or_error (ok s) = s
text_or_error (err e) = e

-- What the functions of OAuth make of the client that is configured under a name.
unfoldable pub with_client :
    {C A : Type 0} → (C → Outcome String A) → String → Option C → Outcome FunctionError A
unfolding lifted
with_client f client none = err (not_configured client)
with_client f client (some c) = lifted (f c)

unfoldable pub oauth2 :
    {C A : Type 0} → Dict C → (C → Outcome String A) → String → Outcome FunctionError A
unfolding with_client lookup
oauth2 clients f client = with_client f client (lookup client clients)
