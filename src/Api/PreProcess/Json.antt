-- ===== src/Api/PreProcess/Json.antt =====
-- What ensureJson makes is JSON.
use apitest.Base.{String, Outcome, ok, err, ◌≡◌, refl, sym, ap, ◌∙◌}
use apitest.Json.{Value, str}
use apitest.Api.PreProcess.{Runner, or_nothing, fixed, ensure_json}

module _ (runner : Runner) where
  -- The document that a text stands for: itself, if it is none.
  abbrev pub document_of : String → Outcome String Value → Value
  document_of s (ok v) = v
  document_of s (err e) = str s

  fixed-document_of :
      (s : String) (m : Outcome String Value) (text : String)
      → runner.encode (document_of s m) ≡ ok text
      → fixed runner s m ≡ text
  unfolding fixed or_nothing
  fixed-document_of s (ok v) text h = rw h refl
  fixed-document_of s (err e) text h = rw h refl

  -- What ensureJson makes of a text is read as the document that the text is, or as the text itself
  -- if it is none, and a second time nothing is changed, for an encoder that encodes the document,
  -- and a decoder that reads it back.
  pub ensure_json-document_of :
      (s text : String)
      → runner.encode (document_of s (runner.unmarshal s)) ≡ ok text
      → runner.unmarshal text ≡ ok (document_of s (runner.unmarshal s))
      → (runner.unmarshal (ensure_json runner s) ≡ ok (document_of s (runner.unmarshal s)))
        × (ensure_json runner (ensure_json runner s) ≡ ensure_json runner s)
  unfolding ensure_json
  ensure_json-document_of s text h back =
      let first : ensure_json runner s ≡ text = fixed-document_of s (runner.unmarshal s) text h in
      let second : ensure_json runner text ≡ text =
        ap (fixed runner text) back
        ∙ fixed-document_of text (ok (document_of s (runner.unmarshal s))) text h in
      (ap runner.unmarshal first ∙ back, ap (ensure_json runner) first ∙ second ∙ sym first)
