-- ===== src/Api/Response.antt =====
-- response.go: a response from its parts, and as the document that is compared. The parsers of the
-- formats and the JSON encoder are the parameter `Formats`.
pub mod Sorting
pub mod Bodies
use apitest.Base.{
  ℕ, Bool, true, false, String, Option, none, some, List, [], ◌∷◌, ◌++◌, Outcome, ok, err, ◌>>=◌,
  str_eq, has_suffix, map, ◌||◌, if◌then◌else◌, ◌<>◌,
}
use apitest.Base.Dict.{Dict, lookup, insert}
use apitest.Base.Int.{ℤ}
use apitest.Json.{
  Value, Items, empty, cons, nil, str, int, int64, float64, array, object, Float, of_fields,
  of_items,
}

-- A value of a header: of a manifest, or the []string of a server's response.
pub data HeaderValue : Type 0 where
  json : Value → HeaderValue
  strings : List String → HeaderValue

pub data ResponseError : Type 0 where
  -- the header
  unknown_type : String → ResponseError
  reading_body marshaling unmarshaling pre_processing parsing : String → ResponseError
  invalid_format : String → ResponseError

pub record Format (P : Type 0) : Type 0 where
  pub ignore_body : Bool
  pub type : String
  pub comma : String
  pub sheet_idx : ℤ
  pub pre_process : Option P

-- Cookies are of the type `C`, and the nil among them is none.
pub record Response (P C : Type 0) : Type 0 where
  pub status_code : Option ℤ
  pub headers : Dict (List String)
  pub header_flat : Dict Value
  pub cookies : List (Option C)
  pub body : String
  pub body_control : Option Value
  pub format : Format P

pub record Formats (P C : Type 0) : Type 0 where
  -- jsutil.Marshal, and jsutil.UnmarshalPlain into an `any`
  pub marshal : Value → Outcome String String
  pub unmarshal : String → Outcome String Value
  -- the document that a responseSerializationInternal becomes through JSON, without its body
  pub through_json :
      Option ℤ
      → Dict (List String)
      → Dict C
      → Option Value
      → Dict Value
      → Outcome String (Dict Value)
  pub cookie_name : C → String
  -- runPreProcess and ensureJson
  pub run : P → Response P C → Outcome String (Response P C)
  pub ensure_json : String → String
  -- Xml2Json, Html2Json, Xhtml2Json, Xlsx2Json, and GenericCSVToMap with its JSON
  pub xml : String → String → Outcome String String
  pub html : String → Outcome String String
  pub xhtml : String → Outcome String String
  pub xlsx : String → ℤ → Outcome String String
  pub csv : String → String → Outcome String String
  -- the hexadecimal md5 sum, strings.TrimSpace, the lines of a text, strconv.ParseFloat and int64(x)
  pub md5 : String → String
  pub trim_space : String → String
  pub lines : String → List Value
  pub parse_float : String → Option Float
  pub truncate : Float → ℤ

pub record Split : Type 0 where
  pub flat : Dict Value
  pub lists : Dict (List String)

unfoldable pub header_strings : String → Items → Outcome ResponseError (List String)
header_strings key empty = ok []
header_strings key (cons (str s) xs) = do rest ← header_strings key xs; ok (s ∷ rest)
header_strings key (cons v xs) = err (unknown_type key)

unfoldable pub put_header : String → HeaderValue → Split → Outcome ResponseError Split
unfolding header_strings
put_header key (strings ss) s = ok (record s { lists = insert key ss s.lists })
put_header key (json (str t)) s = ok (record s { flat = insert key (str t) s.flat })
put_header key (json (array xs)) s = do
  ss ← header_strings key xs
  ok (record s { lists = insert key ss s.lists })
put_header key (json (object fs)) s =
    if has_suffix key ":control"
    then ok (record s { flat = insert key (object fs) s.flat })
    else err (unknown_type key)
put_header key (json v) s = err (unknown_type key)

-- The loop over the headers.
unfoldable pub split_headers : Dict HeaderValue → Split → Outcome ResponseError Split
unfolding put_header
split_headers [] s = ok s
split_headers ((key, v) ∷ rest) s = do s' ← put_header key v s; split_headers rest s'

abbrev pub nothing_split : Split
nothing_split = record { flat = []; lists = [] }

-- What reading the body gives, if there is a body.
unfoldable pub read_body : Option (Outcome String String) → Outcome ResponseError String
read_body none = ok ""
read_body (some (ok b)) = ok b
read_body (some (err e)) = err (reading_body e)

abbrev pub tagged :
    {A : Type 0} → (String → ResponseError) → Outcome String A → Outcome ResponseError A
tagged wrap (ok a) = ok a
tagged wrap (err e) = err (wrap e)

module _ {P C : Type 0} where
  unfoldable pub new_response :
      Option ℤ
      → Dict HeaderValue
      → List (Option C)
      → Option (Outcome String String)
      → Option Value
      → Format P
      → Outcome ResponseError (Response P C)
  unfolding split_headers read_body
  new_response status headers cookies body control format = do
    s ← split_headers headers nothing_split
    b ← read_body body
    ok (record {
      status_code = status;
      headers = s.lists;
      header_flat = s.flat;
      cookies = cookies;
      body = b;
      body_control = control;
      format = format;
    })

  module _ (fm : Formats P C) where
    -- ResponseSerialization, with a body of nil for none.
    unfoldable pub spec_body : Value → Outcome ResponseError (Option (Outcome String String))
    spec_body nil = ok none
    spec_body v = do b ← tagged marshaling (fm.marshal v); ok (some (ok b))

    unfoldable pub new_response_from_spec :
        Option ℤ
        → Dict Value
        → List C
        → Value
        → Option Value
        → Format P
        → Outcome ResponseError (Response P C)
    unfolding spec_body new_response
    new_response_from_spec status headers cookies body control format = do
      b ← spec_body body
      new_response status (map (λ (k, v). (k, json v)) headers) (map some cookies) b control format

    unfoldable pub cookie_map : List (Option C) → Dict C → Dict C
    cookie_map [] m = m
    cookie_map (none ∷ cs) m = cookie_map cs m
    cookie_map (some c ∷ cs) m = cookie_map cs (insert (fm.cookie_name c) c m)

    unfoldable pub numbers : Option Float → Dict Value
    numbers none = ("float64", nil) ∷ ("int64", nil) ∷ []
    numbers (some x) = ("float64", float64 x) ∷ ("int64", int64 (fm.truncate x)) ∷ []

    unfoldable pub text_value : String → Value
    unfolding numbers
    text_value b = object (
        of_fields (
          ("text", str b)
          ∷ ("text_trimmed", str (fm.trim_space b))
          ∷ ("lines", array (of_items (fm.lines b)))
          ∷ numbers (fm.parse_float (fm.trim_space b))))

    -- The switch on the format.
    unfoldable pub body_data : Format P → String → Outcome ResponseError String
    unfolding text_value
    body_data f b =
        if str_eq f.type "xml" || str_eq f.type "xml2"
        then tagged parsing (fm.xml b f.type)
        else if str_eq f.type "html"
        then tagged parsing (fm.html b)
        else if str_eq f.type "xhtml"
        then tagged parsing (fm.xhtml b)
        else if str_eq f.type "xlsx"
        then tagged parsing (fm.xlsx b f.sheet_idx)
        else if str_eq f.type "csv"
        then tagged parsing (fm.csv b f.comma)
        else if str_eq f.type "binary"
        then tagged marshaling (fm.marshal (object (of_fields (("md5sum", str (fm.md5 b)) ∷ []))))
        else if str_eq f.type "text"
        then tagged marshaling (fm.marshal (text_value b))
        else if str_eq f.type ""
        then ok b
        else err (invalid_format f.type)

    unfoldable pub processed :
        Format P → Option P → Response P C → Outcome ResponseError (Response P C)
    processed f none r = ok r
    processed f (some p) r = do
      r' ← tagged pre_processing (fm.run p r)
      ok (if str_eq f.type "" then record r' { body = fm.ensure_json r'.body } else r')

    -- strings.Join(values, ";")
    unfoldable pub join : List String → String
    join [] = ""
    join (s ∷ []) = s
    join (s ∷ t ∷ ss) = s <> (";" <> join (t ∷ ss))

    unfoldable pub flattened : Dict (List String) → Dict Value
    unfolding join
    flattened [] = []
    flattened ((k, vs) ∷ hs) = insert k (str (join vs)) (flattened hs)

    unfoldable pub body_json : String → Outcome ResponseError Value
    body_json b = if str_eq b "" then ok nil else tagged unmarshaling (fm.unmarshal b)

    -- The document without its body, from the response and the flat header.
    unfoldable pub without_body :
        Response P C → Dict Value → Option Value → Outcome ResponseError (Dict Value)
    unfolding cookie_map
    without_body r flat control =
        tagged unmarshaling
          (fm.through_json r.status_code r.headers (cookie_map r.cookies []) control flat)

    unfoldable pub document : Response P C → Bool → Value → Outcome ResponseError Value
    unfolding without_body flattened
    document r body_only b =
        let doc = without_body r (flattened r.headers) none in
        if body_only then ok b else doc >>= λ d. ok (object (of_fields (insert "body" b d)))

    -- A body that is ignored is not parsed.
    unfoldable pub answer : Format P → Bool → Response P C → String → Outcome ResponseError Value
    unfolding body_json document
    answer f body_only r data_of =
        let whole = without_body r (flattened r.headers) none >>= λ d. ok (object (of_fields d)) in
        let parsed = body_json data_of >>= document r body_only in
        if f.ignore_body then whole else parsed

    unfoldable pub server_response_to_generic_json :
        Format P → Bool → Response P C → Outcome ResponseError Value
    unfolding processed body_data answer
    server_response_to_generic_json f body_only response = do
      r ← processed f f.pre_process response
      data_of ← body_data f r.body
      answer f body_only r data_of

    unfoldable pub with_body : Value → Dict Value → Dict Value
    with_body nil d = d
    with_body v d = insert "body" v d

    -- Of the expected response.
    unfoldable pub to_generic_json : Response P C → Outcome ResponseError Value
    unfolding body_json without_body with_body
    to_generic_json r = do
      b ← body_json r.body
      d ← without_body r r.header_flat r.body_control
      ok (object (of_fields (with_body b d)))
