-- ===== src/Tests/Serving.antt =====
-- A request with a body that is no JSON, and one that asks for a cookie.
use apitest.Base.{
  ◌≡◌, refl, true, String, none, some, [], ◌∷◌, ◌++◌, ok, err, ◌<>◌, if◌then◌else◌, str_eq,
}
use apitest.Base.Dict.{lookup, insert}
use apitest.Json.{str}
use apitest.Api.Request.{Encoders, add_value, values_of}
use apitest.Api.Request.Cookies.{set_cookies}
use apitest.HttpServer.{
  Received, Writer, Encoding, bounce_json, bounce_binary, bounce_query, cookies_middleware,
}
use apitest.HttpServer.Answers.{status_of, bounce_json-status}
use apitest.HttpServer.Bounces.{values_at, cookies_middleware-set_cookies}

abbrev encoding : Encoding
encoding = record {
  canonical = λ k. k;
  valid = λ b. true;
  unmarshal = λ b. if str_eq b "x" then err "no JSON" else ok (str b);
  error_json = λ e b. ok e;
  bounce_json = λ h q v. ok "{}";
}

abbrev api : Encoders String
api = record {
  canonical = λ k. k;
  format_float = λ x. "0";
  int_text = λ n. "0";
  marshal = λ v. ok "null";
  read_cookie = λ v. err "no cookie";
  no_cookie = "";
  set_value = λ v c. v;
  set_name = λ n c. n <> ("=" <> c);
  cookie_text = λ c. c;
}

abbrev fresh : Writer
fresh = record { header = []; sent = none; written = "" }

abbrev asked : Received
asked = record {
  headers = ("X-Test-Set-Cookies", "a=1" ∷ []) ∷ [];
  raw_query = "q=1";
  query = ("q", "1" ∷ []) ∷ [];
  body = "x";
  body_error = none;
}

query-bounced : (bounce_query encoding asked fresh).written ≡ "q=1"
unfolding bounce_query
query-bounced = refl

binary-bounced :
    (bounce_binary encoding asked fresh).header
    ≡ ("X-Req-Query-q", "1" ∷ []) ∷ ("X-Req-Header-X-Test-Set-Cookies", "a=1" ∷ []) ∷ []
unfolding bounce_binary insert lookup values_of add_value
binary-bounced = refl

bounce_json-status_example : status_of (bounce_json encoding asked fresh).sent ≡ some 500
bounce_json-status_example = bounce_json-status encoding asked fresh refl

cookies_middleware-set_cookies_example :
    values_at "Set-Cookie" (cookies_middleware encoding (λ r w. w) asked fresh).header
    ≡ values_at "Set-Cookie" [] ++ (values_at "X-Test-Set-Cookies" [] ++ "a=1" ∷ [])
unfolding set_cookies insert lookup values_of add_value
cookies_middleware-set_cookies_example =
    cookies_middleware-set_cookies api encoding (none ∷ some "a=1" ∷ []) [] asked fresh refl refl
