-- ===== src/Api/Request/Fields.antt =====
-- The header of a request: the fields that the request names itself.
use apitest.Base.{
  ◌≡◌, refl, subst, String, Option, none, some, List, [], ◌∷◌, Outcome, ok, err, ◌>>=◌, str_eq,
  Bool-cases, inl, inr, if◌then◌else◌,
}
use apitest.Base.Dict.{Dict, lookup, insert, lookup-insert, lookup-erase}
use apitest.Json.{Value, nil, object, array, str, number, bool, int, int64, float64, other}
use apitest.Api.Request.{
  RequestError, Encoders, Store, header_set, header_del, all_strings, own_header, own_headers,
  headers_from_store, add_headers, authorize, build_headers,
}
use apitest.Api.Request.Query.{Has}

module _ {Cookie : Type 0} (enc : Encoders Cookie) where
  abbrev pub text_or_none : String → Option (List String)
  text_or_none s = if str_eq s "" then none else some (s ∷ [])

  abbrev pub strings_or_none : Outcome RequestError (List String) → Option (List String)
  strings_or_none (ok ss) = some ss
  strings_or_none (err e) = none

  -- What a header of the request makes of the values of the field `name`: a text replaces them, or
  -- deletes the field if it is empty; a list replaces them where it is written under that very name.
  abbrev pub own_values : String → String → Value → Option (List String) → Option (List String)
  own_values name key (str s) before =
      if str_eq (enc.canonical key) name then text_or_none s else before
  own_values name key (array vs) before =
      if str_eq key name then strings_or_none (all_strings enc key vs) else before
  own_values name key _ before = before

  abbrev pub last_values : String → Dict Value → Option (List String) → Option (List String)
  last_values name [] before = before
  last_values name ((key, v) ∷ own) before = last_values name own (own_values name key v before)

  lookup-set_or_del :
      (name key s : String) (h : Dict (List String))
      → lookup name (if str_eq s "" then header_del enc key h else header_set enc key s h)
        ≡ (if str_eq (enc.canonical key) name then text_or_none s else lookup name h)
  unfolding header_del header_set
  lookup-set_or_del name key s h = elim (Bool-cases (str_eq s "")) [
    | inl e ↦ rw e (lookup-erase (enc.canonical key) name h)
    | inr e ↦ rw e (lookup-insert h (enc.canonical key) name (s ∷ []))
  ]

  own_header-Has :
      (name key : String) (v : Value) (h : Dict (List String))
      → Has enc name (own_values name key v (lookup name h)) (own_header enc key v h)
  unfolding own_header
  own_header-Has name key (str s) h = lookup-set_or_del name key s h
  own_header-Has name key (array vs) h =
      elim (all_strings enc key vs)
        as (λ r.
          Has enc name (if str_eq key name then strings_or_none r else lookup name h)
            (r >>= λ ss. ok (insert key ss h))) [ err e ↦ tt | ok ss ↦ lookup-insert h key name ss ]
  own_header-Has name key nil h = tt
  own_header-Has name key (object fs) h = tt
  own_header-Has name key (number n) h = tt
  own_header-Has name key (bool b) h = tt
  own_header-Has name key (int n) h = tt
  own_header-Has name key (int64 n) h = tt
  own_header-Has name key (float64 x) h = tt
  own_header-Has name key (other t) h = tt

  own_headers_after :
      (name : String) (own : Dict Value) (vs : Option (List String))
      (r : Outcome RequestError (Dict (List String)))
      → Has enc name vs r
      → ((h : Dict (List String))
          → Has enc name (last_values name own (lookup name h)) (own_headers enc own h))
      → Has enc name (last_values name own vs) (r >>= λ h. own_headers enc own h)
  own_headers_after name own vs (err e) has ih = tt
  own_headers_after name own vs (ok h) has ih =
      subst (λ ws. Has enc name (last_values name own ws) (own_headers enc own h)) has (ih h)

  own_headers-Has :
      (name : String) (own : Dict Value) (h : Dict (List String))
      → Has enc name (last_values name own (lookup name h)) (own_headers enc own h)
  unfolding own_headers
  own_headers-Has name [] h = refl
  own_headers-Has name ((key, v) ∷ own) h =
      own_headers_after name own (own_values name key v (lookup name h)) (own_header enc key v h)
        (own_header-Has name key v h) (own_headers-Has name own)

  -- The values that a field has before the request's own headers are set.
  abbrev pub values_before :
      String → Outcome RequestError (Dict (List String)) → Option (List String)
  values_before name (ok h) = lookup name h
  values_before name (err e) = none

  before-Has :
      (name : String) (r : Outcome RequestError (Dict (List String)))
      → Has enc name (values_before name r) r
  before-Has name (ok h) = refl
  before-Has name (err e) = tt

  -- If the header of a request can be built, the last of the request's own headers that stands for a
  -- field decides on it over the body and the store: a text whose name has the field's as its
  -- canonical form replaces the values, or deletes them if it is empty; a list replaces them only if
  -- it is written under that very name; and without one the values stay.
  pub build_headers-Has :
      (name : String) (store : Store) (auth : Option String) (additional stored : Dict String)
      (own : Dict Value)
      → Has enc name
          (last_values name own (
            values_before name (
              headers_from_store enc store stored (
                add_headers enc additional
                  (authorize enc auth (header_set enc "User-Agent" "" []))))))
          (build_headers enc store auth additional stored own)
  unfolding build_headers
  build_headers-Has name store auth additional stored own =
      let r =
        headers_from_store enc store stored
          (add_headers enc additional (authorize enc auth (header_set enc "User-Agent" "" []))) in
      own_headers_after name own (values_before name r) r (before-Has name r)
        (own_headers-Has name own)
