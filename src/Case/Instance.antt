-- ===== src/Case/Instance.antt =====
-- The interface of a run of a test case, filled with the loading of requests and responses and with
-- the comparison of responses as they are modelled. The break and collect responses are loaded with
-- one loader for the whole run; the request and the expected response with that of the poll.
pub mod Documents
use apitest.Base.{
  ℕ, Bool, true, false, not, String, Option, none, some, Outcome, ok, err, ◌>>=◌, is_empty, str_eq,
}
use apitest.Json.{Value}
use apitest.Host.{Host}
use apitest.Api.Response.{Format, Response, Formats, server_response_to_generic_json}
use apitest.Case.{Case, Api, Attempt}
use apitest.Case.Loading.{
  RequestSpec, Source, Loaders, LoadError, bad_response, told, is_none, load_request,
  load_specified, load_expected_response, responses_equal,
}

unfoldable pub is_ok : {A : Type 0} → Outcome String A → Bool
is_ok (ok a) = true
is_ok (err e) = false

-- The text of an error, as %s prints it.
unfoldable pub as_string :
    {A : Type 0} → (LoadError → String) → Outcome LoadError A → Outcome String A
as_string text (ok a) = ok a
as_string text (err e) = err (text e)

-- The fields of the case that the loading reads; `source` has those that a run does not.
unfoldable pub source_of : Source → Case → Value → Source
source_of source c request = record source {
  request_data = request;
  response_data = c.response_data;
  stores_response = not (is_empty c.store_response);
}

-- What a poll meets outside: the templates, which read the store as it is then, the server, the
-- printer of golib, and the clock.
pub record Met (R P C : Type 0) : Type 0 where
  pub loaders : Loaders R P C
  pub send : RequestSpec R → Outcome String (Response P C)
  pub print : Value → Outcome String String
  pub elapsed : ℕ

unfoldable pub text_of : Outcome String String → String
text_of (ok s) = s
text_of (err e) = ""

unfoldable pub error_of : Outcome String String → Option String
error_of (ok s) = none
error_of (err e) = some e

module _ (host : Host) {R P C : Type 0} (l : Loaders R P C) (fm : Formats P C)
    (text : LoadError → String) (source : Source) where
  -- `gjson` is gjson.Get(response, path).Value().
  abbrev pub case_api : (String → String → Value) → Api
  case_api gjson = record {
    Expected = Response P C;
    Response = Response P C;
    Format = Format P;
    load_expected = λ v. as_string text (load_specified l fm (record source { response_data = v }));
    load_object = l.load_object;
    expected_format = λ e. e.format;
    set_expected_format = λ f e. record e { format = f };
    response_format = λ r. r.format;
    set_response_format = λ f r. record r { format = f };
    has_type = λ f. not (str_eq f.type "");
    has_pre_process = λ f. not (is_none f.pre_process);
    responses_equal = λ e r. as_string text (responses_equal host fm e r);
    can_marshal = λ v. is_ok (l.marshal v);
    gjson = gjson;
  }

  unfoldable pub server_response_to_json_string :
      (Value → Outcome String String) → Response P C → Outcome String String
  unfolding as_string told server_response_to_generic_json
  server_response_to_json_string print r = do
    v ← as_string text (told bad_response (server_response_to_generic_json fm r.format false r))
    print v

  -- A poll of executeRequest: the request is loaded and sent, and the answer, in the format of the
  -- expected response, is printed.
  unfoldable pub poll_of : (gjson : String → String → Value) → Met R P C → Attempt (case_api gjson)
  unfolding as_string load_request load_expected_response server_response_to_json_string text_of
      error_of
  poll_of gjson m =
      let request = as_string text (load_request m.loaders source) in
      let expected = as_string text (load_expected_response m.loaders fm source) in
      let sent = (do q ← request; m.send q) in
      let json = (do
        e ← expected
        r ← sent
        server_response_to_json_string m.print (record r { format = e.format })) in
      record {
        request = (do q ← request; ok tt);
        expected = expected;
        sent = sent;
        json = text_of json;
        json_error = error_of json;
        elapsed = m.elapsed;
      }
