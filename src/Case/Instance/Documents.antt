-- ===== src/Case/Instance/Documents.antt =====
-- What a passing case says of the documents that were compared.
use apitest.Base.{
  true, false, some, ◌⊎◌, inl, inr, String, List, [], ◌∷◌, Outcome, ok, err, ◌≡◌, ap,
  bind_inversion, ok-injective, map,
}
use apitest.Json.{Value}
use apitest.Host.{Host}
use apitest.Datastore.{Datastore}
use apitest.Compare.Types.{CompareResult, no_control}
use apitest.Compare.Equal.{json_equal}
use apitest.Api.Response.{Response, Formats, to_generic_json, server_response_to_generic_json}
use apitest.Case.{Case}
use apitest.Case.Run.{run_case}
use apitest.Case.Success.{Compared, IsPassed, Matched, now, later, Matched-of_IsPassed}
use apitest.Case.Loading.{
  Source, Loaders, LoadError, told, bad_expected, bad_response, comparing, expected_status,
  got_format, responses_equal, RequestSpec, load_request, load_expected_response,
}
use apitest.Case.Instance.{as_string, case_api, source_of, Met, poll_of}

told-ok : {E A : Type 0} (f : E → LoadError) (m : Outcome E A) (a : A) → told f m ≡ ok a → m ≡ ok a
unfolding told
told-ok f (ok b) a h = ap (λ x. ok x) (ok-injective h)
told-ok f (err e) a h = cc

as_string-ok :
    {A : Type 0} (text : LoadError → String) (m : Outcome LoadError A) (a : A)
    → as_string text m ≡ ok a
    → m ≡ ok a
unfolding as_string
as_string-ok text (ok b) a h = ap (λ x. ok x) (ok-injective h)
as_string-ok text (err e) a h = cc

module _ (host : Host) {R P C : Type 0} (l : Loaders R P C) (fm : Formats P C)
    (text : LoadError → String) (source : Source) (gjson : String → String → Value) where
  -- JsonEqual finds the document of the response equal to that of the expected one, whose missing
  -- status is 200.
  abbrev pub AreEqualDocuments : Response P C → Response P C → Type 0
  AreEqualDocuments expected got =
      let e = record expected { status_code = expected_status expected.status_code } in
      (wanted : Value) × (found : Value) × (res : CompareResult) × (to_generic_json fm e
        ≡ ok wanted)
      × (server_response_to_generic_json fm (got_format host fm e) false got ≡ ok found)
      × (json_equal host wanted found no_control ≡ ok res)
      × (res.equal ≡ true)

  responses_equal-AreEqualDocuments :
      (expected got : Response P C) (res : CompareResult)
      → responses_equal host fm expected got ≡ ok res
      → res.equal ≡ true
      → AreEqualDocuments expected got
  unfolding responses_equal
  responses_equal-AreEqualDocuments expected got res h equal =
      let e = record expected { status_code = expected_status expected.status_code } in
      let (wanted, first, h₁) = bind_inversion (told bad_expected (to_generic_json fm e)) _ h in
      let (found, second, h₂) =
        bind_inversion
          (told bad_response (server_response_to_generic_json fm (got_format host fm e) false got))
          _ h₁ in
      (
        wanted,
        found,
        res,
        told-ok bad_expected _ wanted first,
        told-ok bad_response _ found second,
        told-ok comparing _ res h₂,
        equal,
      )

  -- One of the polls loaded its request and its expected response, and was answered with a response
  -- whose document is equal to the expected one's; its format is that of the expected one.
  abbrev pub HasEqualDocuments : List (Met R P C) → Type 0
  HasEqualDocuments [] = ⊥
  HasEqualDocuments (m ∷ rest) =
      ((q : RequestSpec R) × (e : Response P C) × (r : Response P C) × (load_request m.loaders
            source
          ≡ ok q)
        × (load_expected_response m.loaders fm source ≡ ok e)
        × (m.send q ≡ ok r)
        × AreEqualDocuments e (record r { format = e.format }))
      ⊎ HasEqualDocuments rest

  of_Compared :
      (m : Met R P C) (rest : List (Met R P C)) (res : CompareResult)
      → Compared host
          (case_api host l fm text source gjson)
          (poll_of host l fm text source gjson m)
          res
      → res.equal ≡ true
      → HasEqualDocuments (m ∷ rest)
  unfolding poll_of
  of_Compared m rest res c equal =
      let (q, loaded, sent) =
        bind_inversion (as_string text (load_request m.loaders source)) m.send c.answers in
      inl (
        q,
        c.expected,
        c.response,
        as_string-ok text (load_request m.loaders source) q loaded,
        as_string-ok text (load_expected_response m.loaders fm source) c.expected c.loads,
        sent,
        responses_equal-AreEqualDocuments c.expected
            (record c.response { format = c.expected.format }) res
            (as_string-ok text
              (responses_equal host fm c.expected
                (record c.response { format = c.expected.format }))
              res c.compares)
            equal,
      )

  Matched-HasEqualDocuments :
      (ms : List (Met R P C))
      → Matched host
          (case_api host l fm text source gjson)
          (map (poll_of host l fm text source gjson) ms)
      → HasEqualDocuments ms
  Matched-HasEqualDocuments [] h = elim h [ ]
  Matched-HasEqualDocuments (m ∷ rest) (now {m = res} c equal) = of_Compared m rest res c equal
  Matched-HasEqualDocuments (m ∷ rest) (later h) = inr (Matched-HasEqualDocuments rest h)

module _ (host : Host) {R P C : Type 0} (l : Loaders R P C) (fm : Formats P C)
    (text : LoadError → String) (source : Source) (gjson : String → String → Value) where
  -- A case with a request that is not reversed passes only if in one of its polls the request and the
  -- expected response were loaded from the case, and the request was answered with a response whose
  -- document JsonEqual finds equal to that of the expected response.
  pub run_case-HasEqualDocuments :
      (c : Case) (request : Value) (ms : List (Met R P C)) (ds : Datastore)
      → c.request_data ≡ some request
      → c.reverse_test_result ≡ false
      → IsPassed host (case_api host l fm text (source_of source c request) gjson) (
          run_case host
            (case_api host l fm text (source_of source c request) gjson)
            c
            (map (poll_of host l fm text (source_of source c request) gjson) ms)
            ds)
      → HasEqualDocuments host l fm text (source_of source c request) gjson ms
  run_case-HasEqualDocuments c request ms ds e h passed =
      let s = source_of source c request in
      let api = case_api host l fm text s gjson in
      Matched-HasEqualDocuments host l fm text s gjson ms (
        Matched-of_IsPassed host api c request (map (poll_of host l fm text s gjson) ms) ds e h
          passed)
