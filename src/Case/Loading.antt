-- ===== src/Case/Loading.antt =====
-- api_testcase.go: the request and the expected response of a case from its manifest, the comparison
-- of two responses, and what is logged of them. Template and JSON are parameters.
pub mod Verdicts
use apitest.Base.{
  ℕ, zero, suc, ◌-◌, Bool, true, false, not, ◌&&◌, ◌||◌, String, Option, none, some, List, [], ◌∷◌,
  Outcome, ok, err, ◌>>=◌, is_empty, ltb, leb, str_eq, if◌then◌else◌, ◌<>◌,
}
use apitest.Base.Decimal.{decimal}
use apitest.Base.Dict.{Dict, lookup, insert}
use apitest.Base.Int.{ℤ, pos, negsuc, eq_ℤ}
use apitest.Json.{Value, nil}
use apitest.Host.{Host}
use apitest.Compare.Types.{CompareResult, no_control}
use apitest.Compare.Types as Types
use apitest.Compare.Equal.{json_equal}
use apitest.Api.Response.{
  Format, Response, Formats, ResponseError, new_response, new_response_from_spec, to_generic_json,
  server_response_to_generic_json,
}

-- The fields of api.Request that the loading sets, and the others as one.
pub record RequestSpec (R : Type 0) : Type 0 where
  pub server_url : String
  pub headers : Dict Value
  pub header_from_store : Dict String
  pub others : R

-- api.ResponseSerialization
pub record ResponseSpec (P C : Type 0) : Type 0 where
  pub status_code : Option ℤ
  pub headers : Dict Value
  pub cookies : List C
  pub body : Value
  pub body_control : Option Value
  pub format : Format P

-- The fields of Case that the loading reads.
pub record Source : Type 0 where
  pub request_data : Value
  -- nil where no response is specified
  pub response_data : Value
  pub server_url : String
  pub standard_header : Dict Value
  pub standard_header_from_store : Dict String
  pub stores_response : Bool

pub record Loaders (R P C : Type 0) : Type 0 where
  -- template.LoadManifestDataAsObject, jsutil.Marshal and jsutil.UnmarshalPlain
  pub load_object : Value → Outcome String Value
  pub marshal : Value → Outcome String String
  pub request_of : String → Outcome String (RequestSpec R)
  pub response_of : String → Outcome String (ResponseSpec P C)

pub data LoadError : Type 0 where
  loading_request loading_response marshaling unmarshaling : String → LoadError
  creating bad_expected bad_response : ResponseError → LoadError
  comparing : Types.Error → LoadError

unfoldable pub told : {E A : Type 0} → (E → LoadError) → Outcome E A → Outcome LoadError A
told f (ok a) = ok a
told f (err e) = err (f e)

unfoldable pub kept : {V : Type 0} → String → V → Option V → Dict V → Dict V
unfolding insert
kept k v none m = insert k v m
kept k v (some w) m = m

-- `_, exist := m[k]; if !exist { m[k] = v }`, for each of the standard values.
unfoldable pub add_defaults : {V : Type 0} → Dict V → Dict V → Dict V
unfolding kept lookup
add_defaults [] m = m
add_defaults ((k, v) ∷ rest) m = add_defaults rest (kept k v (lookup k m) m)

abbrev pub zero_format : {P : Type 0} → Format P
zero_format = record {
  ignore_body = false;
  type = "";
  comma = "";
  sheet_idx = pos 0;
  pre_process = none;
}

module _ {R P C : Type 0} (l : Loaders R P C) where
  -- loadRequestSerialization, and loadRequest around it.
  unfoldable pub load_request : Source → Outcome LoadError (RequestSpec R)
  unfolding told add_defaults
  load_request c = do
    requested ← told loading_request (l.load_object c.request_data)
    raw ← told marshaling (l.marshal requested)
    spec ← told unmarshaling (l.request_of raw)
    ok (record spec {
      server_url = if str_eq spec.server_url "" then c.server_url else spec.server_url;
      headers = add_defaults c.standard_header spec.headers;
      header_from_store = add_defaults c.standard_header_from_store spec.header_from_store;
    })

  unfoldable pub unspecified : Value → Bool
  unspecified nil = true
  unspecified v = false

  -- loadResponseSerialization
  unfoldable pub load_spec : Source → Outcome LoadError (ResponseSpec P C)
  unfolding told unspecified
  load_spec c = do
    expected ← told loading_response (l.load_object c.response_data)
    raw ← told marshaling (l.marshal expected)
    spec ← told unmarshaling (l.response_of raw)
    ok (
        if unspecified spec.body && not c.stores_response
        then record spec { format = record spec.format { ignore_body = true } }
        else spec)

  -- loadResponseSerialization, then api.NewResponseFromSpec
  unfoldable pub load_specified : Formats P C → Source → Outcome LoadError (Response P C)
  unfolding load_spec told new_response_from_spec
  load_specified fm c = do
    spec ← load_spec c
    told creating (
        new_response_from_spec fm spec.status_code spec.headers spec.cookies spec.body
          spec.body_control spec.format)

  -- A response that is not specified is one with status 200, in the zero format.
  unfoldable pub load_expected_response : Formats P C → Source → Outcome LoadError (Response P C)
  unfolding load_specified told unspecified new_response
  load_expected_response fm c =
      if unspecified c.response_data
      then told creating (new_response (some (pos 200)) [] [] none none zero_format)
      else load_specified fm c

-- No status is 200, and the status 0 accepts every one.
unfoldable pub expected_status : Option ℤ → Option ℤ
expected_status none = some (pos 200)
expected_status (some n) = if eq_ℤ n (pos 0) then none else some n

unfoldable pub is_none : {A : Type 0} → Option A → Bool
is_none none = true
is_none (some a) = false

module _ (host : Host) {P C : Type 0} (fm : Formats P C) where
  -- The format of the response that was got, with the body ignored if none is expected.
  unfoldable pub got_format : Response P C → Format P
  unfolding is_none
  got_format e = record e.format { ignore_body = str_eq e.body "" && is_none e.body_control }

  unfoldable pub responses_equal : Response P C → Response P C → Outcome LoadError CompareResult
  unfolding expected_status got_format told to_generic_json server_response_to_generic_json
      json_equal
  responses_equal expected got =
      let e = record expected { status_code = expected_status expected.status_code } in
      do
        expected_json ← told bad_expected (to_generic_json fm e)
        got_json ← told bad_response (server_response_to_generic_json fm (got_format e) false got)
        told comparing (json_equal host expected_json got_json no_control)

unfoldable pub first_lines : ℕ → List String → String
first_lines zero ls = ""
first_lines (suc n) [] = ""
first_lines (suc n) (l ∷ ls) = l <> ("\n" <> first_lines n ls)

unfoldable pub count_lines : List String → ℕ
count_lines [] = 0
count_lines (l ∷ ls) = suc (count_lines ls)

-- `lines` are those that a bufio.Scanner finds in the text.
unfoldable pub limit_lines : String → List String → ℤ → String
unfolding first_lines count_lines decimal
limit_lines text lines (negsuc n) = text
limit_lines text lines (pos zero) = text
limit_lines text lines (pos (suc n)) =
    first_lines (suc n) lines
    <> (if leb (suc n) (count_lines lines)
        then "[Limited after " <> (decimal (suc n) <> " lines]")
        else "")

-- logBody, with the text that the report gets, if it gets one.
unfoldable pub log_body :
    Bool → Bool → Option Bool → String → String → List String → ℤ → Option String
unfolding limit_lines
log_body reverse continue_ log_network prefix body lines limit =
    if reverse || continue_ || elim log_network [ none ↦ true | some b ↦ b ]
    then none
    else some ("[" <> (prefix <> ("]:\n" <> (limit_lines body lines limit <> "\n\n"))))
