-- ===== src/HttpServer/Answers.antt =====
-- The status that bounceJSON answers with.
use apitest.Base.{
  ℕ, Bool, true, false, String, Option, none, some, List, Outcome, ok, err, str_eq, if◌then◌else◌,
  Bool-cases, inl, inr, ◌≡◌, refl,
}
use apitest.Base.Dict.{Dict}
use apitest.Json.{Value}
use apitest.HttpServer.{
  Received, Writer, Encoding, sent_once, write_header, send_error, format_error_response, bounce,
  bounce_parsed, bounce_read, bounce_json,
}

abbrev pub status_of : Option (ℕ × Dict (List String)) → Option ℕ
status_of none = none
status_of (some (status, h)) = some status

abbrev is_ok : {A : Type 0} → Outcome String A → Bool
is_ok (ok a) = true
is_ok (err e) = false

module _ (enc : Encoding) where
  -- Whether the body is JSON, or empty, and its response can be encoded.
  abbrev parsed_bounces : Received → Outcome String Value → Bool
  parsed_bounces r (err e) = false
  parsed_bounces r (ok v) = is_ok (enc.bounce_json r.headers r.query (some v))

  -- The body was read, is empty or JSON, and the response with it can be encoded.
  abbrev pub is_bounced : Received → Option String → Bool
  is_bounced r (some e) = false
  is_bounced r none =
      if str_eq r.body ""
      then is_ok (enc.bounce_json r.headers r.query none)
      else parsed_bounces r (enc.unmarshal r.body)

  abbrev status : Bool → ℕ
  status bounced = if bounced then 200 else 500

  send_error-status :
      (m : Outcome String String) (w : Writer)
      → w.sent ≡ none
      → status_of (send_error enc 500 m w).sent ≡ some 500
  unfolding send_error write_header sent_once
  send_error-status (ok b) w h = rw h refl
  send_error-status (err e) w h = rw h refl

  bounce-status :
      (r : Received) (v : Option Value) (m : Outcome String String) (w : Writer)
      → w.sent ≡ none
      → status_of (bounce enc r v m w).sent ≡ some (status (is_ok m))
  unfolding bounce write_header sent_once
  bounce-status r v (err e) w h = send_error-status _ w h
  bounce-status r v (ok doc) w h = rw h refl

  bounce_parsed-status :
      (r : Received) (m : Outcome String Value) (w : Writer)
      → w.sent ≡ none
      → status_of (bounce_parsed enc r m w).sent ≡ some (status (parsed_bounces r m))
  unfolding bounce_parsed format_error_response
  bounce_parsed-status r (err e) w h = send_error-status _ w h
  bounce_parsed-status r (ok v) w h = bounce-status r (some v) _ w h

  bounce_read-status :
      (r : Received) (e : Option String) (w : Writer)
      → w.sent ≡ none
      → status_of (bounce_read enc r e w).sent ≡ some (status (is_bounced r e))
  unfolding bounce_read format_error_response
  bounce_read-status r (some e) w h = send_error-status _ w h
  bounce_read-status r none w h = elim (Bool-cases (str_eq r.body "")) [
    | inl e ↦ rw e (bounce-status r none (enc.bounce_json r.headers r.query none) w h)
    | inr ne ↦ rw ne (bounce_parsed-status r (enc.unmarshal r.body) w h)
  ]

  -- bounceJSON answers a request, to which nothing was sent yet, with status 200 if its body was
  -- read, is empty or JSON, and the response with it can be encoded, and with status 500 otherwise.
  pub bounce_json-status :
      (r : Received) (w : Writer)
      → w.sent ≡ none
      → status_of (bounce_json enc r w).sent ≡ some (if is_bounced r r.body_error then 200 else 500)
  unfolding bounce_json
  bounce_json-status r w h = bounce_read-status r r.body_error w h
