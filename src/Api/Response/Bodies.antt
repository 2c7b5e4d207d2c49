-- ===== src/Api/Response/Bodies.antt =====
-- The body in the document of a response.
use apitest.Base.{
  ◌≡◌, refl, ap, ◌∙◌, subst, sym, Bool, true, false, String, Option, none, some, Outcome, ok, err,
  ◌>>=◌,
}
use apitest.Base.Dict.{Dict, lookup, insert, lookup-insert_self}
use apitest.Json.{Value, object, of_fields, fields}
use apitest.Json.Lists.{fields-of_fields}
use apitest.Api.Response.{
  Response, Format, Formats, ResponseError, processed, body_data, body_json, without_body, document,
  answer, flattened, server_response_to_generic_json,
}

-- The value of a key of a document that is an object.
abbrev pub at : String → Value → Option Value
at k (object fs) = lookup k (fields fs)
at k v = none

no_error :
    (e : ResponseError) (v : Value) → ◌≡◌ {A = Outcome ResponseError Value} (err e) (ok v) → ⊥
no_error e v h = cc

same_value : (v w : Value) → ◌≡◌ {A = Outcome ResponseError Value} (ok v) (ok w) → v ≡ w
same_value v w h = cc

module _ {P C : Type 0} (fm : Formats P C) where
  -- Where the whole document of a response is `whole`, what is its body alone.
  abbrev pub BodyOf : Outcome ResponseError Value → Value → Type 0
  BodyOf alone whole = (v : Value) × (alone ≡ ok v) × (at "body" whole ≡ some v)

  inserted_body :
      (d : Outcome ResponseError (Dict Value)) (b whole : Value)
      → (d >>= λ fs. ok (object (of_fields (insert "body" b fs)))) ≡ ok whole
      → at "body" whole ≡ some b
  inserted_body (err e) b whole h = absurd (no_error e whole h)
  inserted_body (ok fs) b whole h =
      subst (λ w. at "body" w ≡ some b) (same_value _ whole h)
        (ap (lookup "body") (fields-of_fields (insert "body" b fs))
          ∙ lookup-insert_self fs "body" b)

  document_body :
      (r : Response P C) (m : Outcome ResponseError Value) (whole : Value)
      → (m >>= document fm r false) ≡ ok whole
      → BodyOf (m >>= document fm r true) whole
  unfolding document
  document_body r (err e) whole h = absurd (no_error e whole h)
  document_body r (ok b) whole h =
      (b, refl, inserted_body (without_body fm r (flattened fm r.headers) none) b whole h)

  answer_parsed :
      (f : Format P) (body_only : Bool) (r : Response P C) (d : String)
      → f.ignore_body ≡ false
      → answer fm f body_only r d ≡ (body_json fm d >>= document fm r body_only)
  unfolding answer
  answer_parsed f body_only r d i = rw i refl

  answer_body :
      (f : Format P) (r : Response P C) (data_of : Outcome ResponseError String) (whole : Value)
      → f.ignore_body ≡ false
      → (data_of >>= answer fm f false r) ≡ ok whole
      → BodyOf (data_of >>= answer fm f true r) whole
  answer_body f r (err e) whole i h = absurd (no_error e whole h)
  answer_body f r (ok d) whole i h =
      let (v, run, found) =
        document_body r (body_json fm d) whole (sym (answer_parsed f false r d i) ∙ h) in
      (v, answer_parsed f true r d i ∙ run, found)

  processed_body :
      (f : Format P) (p : Outcome ResponseError (Response P C)) (whole : Value)
      → f.ignore_body ≡ false
      → (p >>= λ r. body_data fm f r.body >>= answer fm f false r) ≡ ok whole
      → BodyOf (p >>= λ r. body_data fm f r.body >>= answer fm f true r) whole
  processed_body f (err e) whole i h = absurd (no_error e whole h)
  processed_body f (ok r) whole i h = answer_body f r (body_data fm f r.body) whole i h

  -- In every format that does not ignore the body, the body in the document of a server's response is
  -- what is returned of the response if the body alone is asked for.
  pub server_response_to_generic_json-BodyOf :
      (f : Format P) (response : Response P C) (whole : Value)
      → f.ignore_body ≡ false
      → server_response_to_generic_json fm f false response ≡ ok whole
      → BodyOf (server_response_to_generic_json fm f true response) whole
  unfolding server_response_to_generic_json
  server_response_to_generic_json-BodyOf f response whole i h =
      processed_body f (processed fm f f.pre_process response) whole i h
