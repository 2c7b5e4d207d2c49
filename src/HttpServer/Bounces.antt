-- ===== src/HttpServer/Bounces.antt =====
-- The headers of a bounced request, and the cookies that a test has the server set.
use mathlib.Core.List.{append_assoc, append-nil}
use apitest.Base.{
  Bool, true, false, String, Option, none, some, List, [], ◌∷◌, ◌++◌, Outcome, ok, err, str_eq,
  if◌then◌else◌, ◌<>◌, ◌≡◌, refl, sym, ap, ◌∙◌, eq_iff, eq_refl, Bool-cases, inl, inr, if_elim,
  ok-injective,
}
use apitest.Base.Dict.{Dict, lookup, lookup-insert}
use apitest.Api.Request.{Encoders, RequestError, invalid_set_cookie, add_value, values_of}
use apitest.Api.Request.Cookies.{set_cookies}
use apitest.HttpServer.{
  Received, Writer, Encoding, header_add, add_values, add_prefixed, copy, bounce_binary,
  cookies_middleware,
}

abbrev pub values_at : String → Dict (List String) → List String
values_at name h = values_of (lookup name h)

abbrev if_same : String → String → List String → List String
if_same a b vs = if str_eq a b then vs else []

pub values_at-add_value :
    (k v name : String) (h : Dict (List String))
    → values_at name (add_value k v h) ≡ values_at name h ++ if_same k name (v ∷ [])
unfolding add_value values_of
values_at-add_value k v name h = elim (Bool-cases (str_eq k name)) [
  | inl e ↦
      let same : lookup k h ≡ lookup name h = ap (λ i. lookup i h) ((eq_iff k name).0 e) in
      rw (lookup-insert h k name (values_of (lookup k h) ++ v ∷ []), e, same) refl
  | inr ne ↦
      rw (lookup-insert h k name (values_of (lookup k h) ++ v ∷ []), ne)
        (sym (append-nil (values_at name h)))
]

append-if_same :
    (same : Bool) (xs : List String) (v : String) (vs : List String)
    → (xs ++ (if same then v ∷ [] else [])) ++ (if same then vs else [])
      ≡ xs ++ (if same then v ∷ vs else [])
append-if_same true xs v vs = append_assoc xs (v ∷ []) vs
append-if_same false xs v vs = append-nil (xs ++ [])

append-if_nothing : (same : Bool) (xs : List String) → xs ≡ xs ++ (if same then [] else [])
append-if_nothing true xs = sym (append-nil xs)
append-if_nothing false xs = sym (append-nil xs)

module _ (enc : Encoding) where
  pub values_at-add_values :
      (k name : String) (vs : List String) (w : Writer)
      → values_at name (add_values enc k vs w).header
        ≡ values_at name w.header ++ if_same (enc.canonical k) name vs
  unfolding add_values header_add
  values_at-add_values k name [] w =
      append-if_nothing (str_eq (enc.canonical k) name) (values_at name w.header)
  values_at-add_values k name (v ∷ vs) w =
      values_at-add_values k name vs (header_add enc k v w)
      ∙ rw (values_at-add_value (enc.canonical k) v name w.header)
          (append-if_same (str_eq (enc.canonical k) name) (values_at name w.header) v vs)

  -- The values of the parameters whose name, behind the prefix, has this canonical form.
  abbrev pub prefixed_values : String → String → Dict (List String) → List String
  prefixed_values pre name [] = []
  prefixed_values pre name ((param, vs) ∷ rest) =
      if_same (enc.canonical (pre <> param)) name vs ++ prefixed_values pre name rest

  values_at-add_prefixed :
      (pre name : String) (params : Dict (List String)) (w : Writer)
      → values_at name (add_prefixed enc pre params w).header
        ≡ values_at name w.header ++ prefixed_values pre name params
  unfolding add_prefixed
  values_at-add_prefixed pre name [] w = sym (append-nil (values_at name w.header))
  values_at-add_prefixed pre name ((param, vs) ∷ rest) w =
      values_at-add_prefixed pre name rest (add_values enc (pre <> param) vs w)
      ∙ rw
          (
            values_at-add_values (pre <> param) name vs w,
            append_assoc (values_at name w.header) (if_same (enc.canonical (pre <> param)) name vs)
                (prefixed_values pre name rest),
          )
          refl

  copy-header : (b : String) (w : Writer) → (copy b w).header ≡ w.header
  unfolding copy
  copy-header b w =
      if_elim (λ (w' : Writer). w'.header ≡ w.header) (str_eq b "") w _ (λ e. refl) (λ ne. refl)

  -- bounceBinary answers with a header that has under each name, behind the values that were there,
  -- those of the query's parameters whose prefixed name has this canonical form, and then those of
  -- the request's headers, in their order.
  pub bounce_binary-prefixed_values :
      (r : Received) (w : Writer) (name : String)
      → values_at name (bounce_binary enc r w).header
        ≡ values_at name w.header
          ++ (prefixed_values "X-Req-Query-" name r.query
              ++ prefixed_values "X-Req-Header-" name r.headers)
  unfolding bounce_binary
  bounce_binary-prefixed_values r w name =
      let w' = add_prefixed enc "X-Req-Query-" r.query w in
      ap (values_at name) (copy-header r.body (add_prefixed enc "X-Req-Header-" r.headers w'))
      ∙ rw
          (
            values_at-add_prefixed "X-Req-Header-" name r.headers w',
            values_at-add_prefixed "X-Req-Query-" name r.query w,
          )
          (append_assoc (values_at name w.header) _ _)

module _ {Cookie : Type 0} (api : Encoders Cookie) where
  -- The texts of the cookies that are there.
  abbrev pub cookie_texts : List (Option Cookie) → List String
  cookie_texts [] = []
  cookie_texts (none ∷ cks) = cookie_texts cks
  cookie_texts (some ck ∷ cks) = api.cookie_text ck ∷ cookie_texts cks

  abbrev pub test_cookies : String
  test_cookies = api.canonical "X-Test-Set-Cookies"

  passed :
      (failed : Bool) (m : Outcome RequestError (Dict (List String))) {got : Dict (List String)}
      → (if failed then err invalid_set_cookie else m) ≡ ok got
      → m ≡ ok got
  passed true m e = cc
  passed false m e = e

  values_at-set_cookies :
      (cks : List (Option Cookie)) (h got : Dict (List String))
      → set_cookies api cks h ≡ ok got
      → values_at test_cookies got ≡ values_at test_cookies h ++ cookie_texts cks
  unfolding set_cookies header_add
  values_at-set_cookies [] h got e =
      ap (values_at test_cookies) (sym (ok-injective e))
      ∙ sym (append-nil (values_at test_cookies h))
  values_at-set_cookies (none ∷ cks) h got e = values_at-set_cookies cks h got e
  values_at-set_cookies (some ck ∷ cks) h got e =
      let h' = add_value test_cookies (api.cookie_text ck) h in
      let added : values_at test_cookies h' ≡ values_at test_cookies h ++ api.cookie_text ck ∷ [] =
        values_at-add_value test_cookies (api.cookie_text ck) test_cookies h
        ∙ rw (eq_refl test_cookies) refl in
      values_at-set_cookies cks h' got (passed (str_eq (api.cookie_text ck) "") _ e)
      ∙ rw added (append_assoc (values_at test_cookies h) _ _)

  -- The cookies that a request of a test asks for are set: if its headers hold the cookies of
  -- SetCookies, the middleware adds their texts to Set-Cookie, behind what the request's header
  -- asked for already.
  pub cookies_middleware-set_cookies :
      (enc : Encoding) (cks : List (Option Cookie)) (h : Dict (List String)) (r : Received)
      (w : Writer)
      → enc.canonical ≡ api.canonical
      → set_cookies api cks h ≡ ok r.headers
      → values_at (enc.canonical "Set-Cookie") (cookies_middleware enc (λ r' w'. w') r w).header
        ≡ values_at (enc.canonical "Set-Cookie") w.header
          ++ (values_at test_cookies h ++ cookie_texts cks)
  unfolding cookies_middleware
  cookies_middleware-set_cookies enc cks h r w same e =
      values_at-add_values enc "Set-Cookie" (enc.canonical "Set-Cookie")
        (values_of (lookup (enc.canonical "X-Test-Set-Cookies") r.headers)) w
      ∙ rw
          (
            eq_refl (enc.canonical "Set-Cookie"),
            ap (λ (f : String → String). f "X-Test-Set-Cookies") same,
            values_at-set_cookies cks h r.headers e,
          )
          refl
