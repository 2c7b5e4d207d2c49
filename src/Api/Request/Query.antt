-- ===== src/Api/Request/Query.antt =====
-- The query of a request.
use apitest.Base.{
  ◌≡◌, refl, ap, ◌∙◌, Bool, true, false, String, Option, none, some, List, [], ◌∷◌, ◌++◌, Outcome,
  ok, err, ◌>>=◌, str_eq, if◌then◌else◌, inl, inr, subst, Bool-cases, eq_iff,
}
use apitest.Base.Dict.{Dict, lookup, insert, lookup-insert}
use apitest.Json.{Value}
use apitest.Api.Request.{
  RequestError, Encoders, Store, from_store, values_of, add_value, as_text,
  get_string_from_interface, add_if_text, add_stored, query_from_store, query_params, build_query,
}

module _ {Cookie : Type 0} (enc : Encoders Cookie) where
  -- The text of a value, empty where it has none.
  abbrev pub text_or_empty : Outcome String String → String
  text_or_empty (ok s) = s
  text_or_empty (err e) = ""

  abbrev pub text : Value → String
  text v = text_or_empty (get_string_from_interface enc v)

  -- The values of `name` when `s` is added under `other`.
  abbrev with_text : String → String → String → Option (List String) → Option (List String)
  with_text name other s vs =
      if str_eq s "" then vs else if str_eq other name then some (values_of vs ++ s ∷ []) else vs

  abbrev pub with_stored :
      String
      → String
      → Outcome RequestError (Option Value)
      → Option (List String)
      → Option (List String)
  with_stored name other (ok (some v)) vs = with_text name other (text v) vs
  with_stored name other _ vs = vs

  -- The values that the store adds under `name` to those of the URL.
  abbrev pub stored_values :
      String → Store → Dict String → Option (List String) → Option (List String)
  stored_values name store [] vs = vs
  stored_values name store ((other, key) ∷ rest) vs =
      stored_values name store rest (with_stored name other (from_store store key) vs)

  -- A parameter of the request takes the place of all the others of its name.
  abbrev pub final_values : String → Dict Value → Option (List String) → Option (List String)
  final_values name [] vs = vs
  final_values name ((other, v) ∷ rest) vs =
      final_values name rest (if str_eq other name then some (text v ∷ []) else vs)

  -- If there is a query, it has these values.
  abbrev pub Has :
      String → Option (List String) → Outcome RequestError (Dict (List String)) → Type 0
  Has name vs (ok q) = lookup name q ≡ vs
  Has name vs (err e) = Unit {0}

  query_params-Has :
      (name : String) (params : Dict Value) (q : Dict (List String))
      → Has name (final_values name params (lookup name q)) (query_params enc params q)
  unfolding query_params as_text
  query_params-Has name [] q = refl
  query_params-Has name ((other, v) ∷ rest) q =
      elim (get_string_from_interface enc v)
        as (λ r.
          Has name
            (final_values name rest
              (if str_eq other name then some (text_or_empty r ∷ []) else lookup name q))
            (as_text enc r >>= λ s. query_params enc rest (insert other (s ∷ []) q))) [
              | err e ↦ tt
              | ok s ↦
                  subst
                    (λ vs.
                      Has name (final_values name rest vs)
                        (query_params enc rest (insert other (s ∷ []) q)))
                    (lookup-insert q other name (s ∷ []))
                    (query_params-Has name rest (insert other (s ∷ []) q))
            ]

  same_key :
      (name other s : String) (q : Dict (List String)) (b : Bool)
      → str_eq other name ≡ b
      → (if b then some (values_of (lookup other q) ++ s ∷ []) else lookup name q)
        ≡ (if b then some (values_of (lookup name q) ++ s ∷ []) else lookup name q)
  same_key name other s q true e =
      ap (λ k. some (values_of (lookup k q) ++ s ∷ [])) ((eq_iff other name).0 e)
  same_key name other s q false e = refl

  lookup-add_if_text :
      (name other s : String) (q : Dict (List String))
      → lookup name (add_if_text enc other s q) ≡ with_text name other s (lookup name q)
  unfolding add_if_text add_value
  lookup-add_if_text name other s q = elim (Bool-cases (str_eq s "")) [
    | inl e ↦ rw e refl
    | inr e ↦ rw e (lookup-insert q other name _ ∙ same_key name other s q (str_eq other name) refl)
  ]

  add_stored-Has :
      (name other : String) (v : Option Value) (store : Store) (rest : Dict String)
      (q : Dict (List String))
      → ((q' : Dict (List String))
          → Has name
              (stored_values name store rest (lookup name q'))
              (query_from_store enc store rest q'))
      → Has name
          (stored_values name store rest (with_stored name other (ok v) (lookup name q)))
          (add_stored enc other v q >>= λ q'. query_from_store enc store rest q')
  unfolding add_stored as_text
  add_stored-Has name other none store rest q ih = ih q
  add_stored-Has name other (some v) store rest q ih =
      elim (get_string_from_interface enc v)
        as (λ r.
          Has name
            (stored_values name store rest (with_text name other (text_or_empty r) (lookup name q)))
            ((as_text enc r >>= λ s. ok (add_if_text enc other s q)) >>= λ q'.
              query_from_store enc store rest q')) [
                | err e ↦ tt
                | ok s ↦
                    subst
                      (λ vs.
                        Has name (stored_values name store rest vs)
                          (query_from_store enc store rest (add_if_text enc other s q)))
                      (lookup-add_if_text name other s q) (ih (add_if_text enc other s q))
              ]

  query_from_store-Has :
      (name : String) (store : Store) (stored : Dict String) (q : Dict (List String))
      → Has name
          (stored_values name store stored (lookup name q))
          (query_from_store enc store stored q)
  unfolding query_from_store
  query_from_store-Has name store [] q = refl
  query_from_store-Has name store ((other, key) ∷ rest) q =
      elim (from_store store key)
        as (λ r.
          Has name (stored_values name store rest (with_stored name other r (lookup name q)))
            (r >>= λ v. add_stored enc other v q >>= λ q'. query_from_store enc store rest q')) [
              | err e ↦ tt
              | ok v ↦
                  add_stored-Has name other v store rest q
                    (λ q'. query_from_store-Has name store rest q')
            ]

  params_after :
      (name : String) (params : Dict Value) (vs : Option (List String))
      (r : Outcome RequestError (Dict (List String)))
      → Has name vs r
      → Has name (final_values name params vs) (r >>= λ q'. query_params enc params q')
  params_after name params vs (err e) h = tt
  params_after name params vs (ok q) h =
      subst (λ ws. Has name (final_values name params ws) (query_params enc params q)) h
        (query_params-Has name params q)

  -- If the query of a request can be built, its values of a name are the last parameter of that
  -- name, and without one the values in the URL, and behind them the texts that are not empty of what
  -- the store has under the keys for that name.
  pub build_query-Has :
      (name : String) (store : Store) (stored : Dict String) (params : Dict Value)
      (q : Dict (List String))
      → Has name
          (final_values name params (stored_values name store stored (lookup name q)))
          (build_query enc store stored params q)
  unfolding build_query
  build_query-Has name store stored params q =
      params_after name params _ (query_from_store enc store stored q)
        (query_from_store-Has name store stored q)
