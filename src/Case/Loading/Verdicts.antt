-- ===== src/Case/Loading/Verdicts.antt =====
-- The defaults of a request, and what the comparison of responses does not look at.
use apitest.Base.{
  Bool, true, false, String, Option, none, some, [], ◌∷◌, str_eq, if◌then◌else◌, ◌≡◌, refl, sym, ap,
  ◌∙◌, eq_iff, Bool-cases, inl, inr,
}
use apitest.Base.Dict.{Dict, lookup, lookup-insert}
use apitest.Host.{Host}
use apitest.Api.Response.{
  Response, Formats, processed, body_data, answer, server_response_to_generic_json, without_body,
}
use apitest.Case.Loading.{kept, add_defaults, is_none, got_format, responses_equal}

abbrev pub or_else : {V : Type 0} → Option V → Option V → Option V
or_else none v = v
or_else (some w) v = some w

or_else-none : {V : Type 0} (o : Option V) → or_else o none ≡ o
or_else-none none = refl
or_else-none (some v) = refl

or_else-first :
    {V : Type 0} (o p : Option V) (b : Bool) (v : V)
    → or_else (or_else o (if b then some v else none)) p ≡ or_else o (if b then some v else p)
or_else-first none p true v = refl
or_else-first none p false v = refl
or_else-first (some w) p b v = refl

lookup-kept :
    {V : Type 0} (k j : String) (v : V) (o : Option V) (m : Dict V)
    → lookup k m ≡ o
    → lookup j (kept k v o m) ≡ or_else (lookup j m) (if str_eq k j then some v else none)
unfolding kept
lookup-kept k j v none m h = elim (Bool-cases (str_eq k j)) [
  | inl e ↦
      let missing : lookup j m ≡ none = ap (λ i. lookup i m) (sym ((eq_iff k j).0 e)) ∙ h in
      lookup-insert m k j v ∙ rw (e, missing) refl
  | inr ne ↦ lookup-insert m k j v ∙ rw ne (sym (or_else-none (lookup j m)))
]
lookup-kept k j v (some w) m h = elim (Bool-cases (str_eq k j)) [
  | inl e ↦
      let there : lookup j m ≡ some w = ap (λ i. lookup i m) (sym ((eq_iff k j).0 e)) ∙ h in
      rw (e, there) refl
  | inr ne ↦ rw ne (sym (or_else-none (lookup j m)))
]

-- A header that the manifest's request has keeps its value; every other has the first of the
-- standard values under its name.
pub lookup-add_defaults :
    {V : Type 0} (j : String) (standard m : Dict V)
    → lookup j (add_defaults standard m) ≡ or_else (lookup j m) (lookup j standard)
unfolding add_defaults lookup
lookup-add_defaults j [] m = sym (or_else-none (lookup j m))
lookup-add_defaults j ((k, v) ∷ rest) m =
    lookup-add_defaults j rest (kept k v (lookup k m) m)
    ∙ rw (lookup-kept k j v (lookup k m) m refl)
        (or_else-first (lookup j m) (lookup j rest) (str_eq k j) v)

module _ (host : Host) {P C : Type 0} (fm : Formats P C) where
  -- Where no body and no control of it are expected, and the format has neither a type nor a
  -- pre-process, the verdict is the same whatever the body of the response.
  pub responses_equal-body :
      (expected got : Response P C) (b : String)
      → expected.body ≡ ""
      → expected.body_control ≡ none
      → expected.format.type ≡ ""
      → expected.format.pre_process ≡ none
      → responses_equal host fm expected (record got { body = b })
        ≡ responses_equal host fm expected got
  unfolding responses_equal got_format server_response_to_generic_json processed body_data answer
      without_body is_none
  responses_equal-body expected got b no_body no_control no_type no_process =
      rw (no_body, no_control, no_type, no_process) refl
