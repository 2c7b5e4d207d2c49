-- ===== src/HttpServer.antt =====
-- http_server.go: the server that a suite starts for its tests, and the handlers that are its own.
-- The file server, the proxy's and the mail server's routes, and the encoders are parameters. A
-- failed write and the logging are left out.
pub mod Bounces
pub mod Answers
pub mod Running
use apitest.Base.{
  ℕ, Bool, true, false, not, ◌&&◌, ◌||◌, String, Option, none, some, List, [], ◌∷◌, Outcome, ok,
  err, str_eq, if◌then◌else◌, ◌<>◌,
}
use apitest.Base.Dict.{Dict, lookup, insert, erase}
use apitest.Json.{Value}
use apitest.Api.Request.{add_value, values_of}

-- What a handler reads: io.ReadAll gives what was read, and maybe an error.
pub record Received : Type 0 where
  pub headers : Dict (List String)
  pub raw_query : String
  pub query : Dict (List String)
  pub body : String
  pub body_error : Option String

-- http.ResponseWriter: the header, and the status with the header that was sent.
pub record Writer : Type 0 where
  pub header : Dict (List String)
  pub sent : Option (ℕ × Dict (List String))
  pub written : String

-- The request's body in an error: a text, bytes that are no text, or the response that has it.
pub data ErrorBody : Type 0 where
  no_body : ErrorBody
  text bytes : String → ErrorBody
  whole : Dict (List String) → Dict (List String) → Option Value → ErrorBody

pub record Encoding : Type 0 where
  -- http.CanonicalHeaderKey and utf8.Valid
  pub canonical : String → String
  pub valid : String → Bool
  -- jsutil.Unmarshal, and golib.JsonBytesIndent of an errorResponse and of a bounceResponse
  pub unmarshal : String → Outcome String Value
  pub error_json : String → ErrorBody → Outcome String String
  pub bounce_json : Dict (List String) → Dict (List String) → Option Value → Outcome String String

abbrev pub Handler : Type 0
Handler = Received → Writer → Writer

unfoldable pub sent_once :
    ℕ → Dict (List String) → Option (ℕ × Dict (List String)) → ℕ × Dict (List String)
sent_once status h none = (status, h)
sent_once status h (some s) = s

-- Only the first call sends.
unfoldable pub write_header : ℕ → Writer → Writer
unfolding sent_once
write_header status w = record w { sent = some (sent_once status w.header w.sent) }

unfoldable pub write : String → Writer → Writer
unfolding write_header
write b w = let w' = write_header 200 w in record w' { written = w'.written <> b }

-- io.Copy of a body: what is empty is not written.
unfoldable pub copy : String → Writer → Writer
unfolding write
copy b w = if str_eq b "" then w else write b w

module _ (enc : Encoding) where
  unfoldable pub header_add : String → String → Writer → Writer
  unfolding add_value
  header_add k v w = record w { header = add_value (enc.canonical k) v w.header }

  unfoldable pub header_set : String → String → Writer → Writer
  header_set k v w = record w { header = insert (enc.canonical k) (v ∷ []) w.header }

  -- net/http's Error.
  unfoldable pub http_error : String → ℕ → Writer → Writer
  unfolding header_set write write_header
  http_error e status w = write (e <> "\n") (
      write_header status (
        header_set "X-Content-Type-Options" "nosniff" (
          header_set "Content-Type" "text/plain; charset=utf-8"
            (record w { header = erase (enc.canonical "Content-Length") w.header }))))

  -- After an error of the encoder, the second http.Error is called all the same, with no text.
  unfoldable pub send_error : ℕ → Outcome String String → Writer → Writer
  unfolding http_error
  send_error status (ok b) w = http_error b status w
  send_error status (err e) w = http_error "" status (http_error e 500 w)

  unfoldable pub format_error_response : ℕ → String → ErrorBody → Writer → Writer
  unfolding send_error
  format_error_response status e b w = send_error status (enc.error_json e b) w

  unfoldable pub error_body : String → ErrorBody
  error_body b = if enc.valid b then (if str_eq b "" then no_body else text b) else bytes b

  unfoldable pub bounce : Received → Option Value → Outcome String String → Writer → Writer
  unfolding format_error_response write
  bounce r v (err e) w = format_error_response 500 e (whole r.headers r.query v) w
  bounce r v (ok doc) w = write doc w

  unfoldable pub bounce_parsed : Received → Outcome String Value → Writer → Writer
  unfolding bounce format_error_response error_body
  bounce_parsed r (err e) w = format_error_response 500 e (error_body r.body) w
  bounce_parsed r (ok v) w = bounce r (some v) (enc.bounce_json r.headers r.query (some v)) w

  unfoldable pub bounce_read : Received → Option String → Writer → Writer
  unfolding bounce_parsed bounce format_error_response error_body
  bounce_read r (some e) w = format_error_response 500 e (error_body r.body) w
  bounce_read r none w =
      if str_eq r.body ""
      then bounce r none (enc.bounce_json r.headers r.query none) w
      else bounce_parsed r (enc.unmarshal r.body) w

  -- bounceJSON
  unfoldable pub bounce_json : Handler
  unfolding bounce_read
  bounce_json r w = bounce_read r r.body_error w

  unfoldable pub add_values : String → List String → Writer → Writer
  unfolding header_add
  add_values k [] w = w
  add_values k (v ∷ vs) w = add_values k vs (header_add k v w)

  unfoldable pub add_prefixed : String → Dict (List String) → Writer → Writer
  unfolding add_values
  add_prefixed pre [] w = w
  add_prefixed pre ((param, vs) ∷ rest) w = add_prefixed pre rest (add_values (pre <> param) vs w)

  -- bounceBinary
  unfoldable pub bounce_binary : Handler
  unfolding add_prefixed copy
  bounce_binary r w =
      copy r.body (add_prefixed "X-Req-Header-" r.headers (add_prefixed "X-Req-Query-" r.query w))

  -- bounceQuery
  unfoldable pub bounce_query : Handler
  unfolding copy
  bounce_query r w = copy r.raw_query w

  unfoldable pub cookies_middleware : Handler → Handler
  unfolding add_values values_of lookup
  cookies_middleware next r w = next r (
      add_values "Set-Cookie" (values_of (lookup (enc.canonical "X-Test-Set-Cookies") r.headers)) w)

  -- Query.Get: the first value, if there is one.
  unfoldable pub first_value : Option (List String) → String
  first_value none = ""
  first_value (some []) = ""
  first_value (some (v ∷ vs)) = v

  unfoldable pub custom_static_handler : Handler → Handler
  unfolding first_value header_set lookup
  custom_static_handler next r w =
      let flag = first_value (lookup "no-content-length" r.query) in
      next r (
        if str_eq flag "1" || str_eq flag "true"
        then header_set "Content-Encoding" "identity" w
        else w)
