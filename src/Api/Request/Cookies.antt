-- ===== src/Api/Request/Cookies.antt =====
-- The cookies of a request, and those that it asks the server of the tests to set.
use apitest.Base.{
  Bool, false, String, Option, none, some, List, [], ◌∷◌, Outcome, ok, err, ◌>>=◌, str_eq,
  if◌then◌else◌,
}
use apitest.Base.Dict.{Dict}
use apitest.Json.{Value, str}
use apitest.Api.Request.{
  RequestError, bad_cookie, invalid_set_cookie, Encoders, Store, RequestCookie, header_add,
}

module _ {Cookie : Type 0} (enc : Encoders Cookie) where
  unfoldable pub decoded : String → Outcome String Cookie → Outcome RequestError Cookie
  decoded key (ok c) = ok c
  decoded key (err e) = err (bad_cookie key)

  unfoldable pub is_empty_text : Value → Bool
  is_empty_text (str s) = str_eq s ""
  is_empty_text v = false

  unfoldable pub stored_value : String → Outcome String Value → Outcome RequestError Cookie
  unfolding decoded is_empty_text
  stored_value key (err e) = ok enc.no_cookie
  stored_value key (ok v) =
      if is_empty_text v then ok enc.no_cookie else decoded key (enc.read_cookie v)

  unfoldable pub stored_cookie : Store → String → Outcome RequestError Cookie
  unfolding stored_value
  stored_cookie none key = ok enc.no_cookie
  stored_cookie (some get) key =
      if str_eq key "" then ok enc.no_cookie else stored_value key (get key)

  -- The loop over Cookies.
  unfoldable pub build_cookies :
      Store → Dict (Option RequestCookie) → Outcome RequestError (List Cookie)
  unfolding stored_cookie
  build_cookies store [] = ok []
  build_cookies store ((name, none) ∷ rest) = build_cookies store rest
  build_cookies store ((name, some rc) ∷ rest) = do
    ck ← stored_cookie store rc.value_from_store
    cks ← build_cookies store rest
    ok (enc.set_name name (if str_eq rc.value "" then ck else enc.set_value rc.value ck) ∷ cks)

  -- The loop over SetCookies.
  unfoldable pub set_cookies :
      List (Option Cookie) → Dict (List String) → Outcome RequestError (Dict (List String))
  unfolding header_add
  set_cookies [] h = ok h
  set_cookies (none ∷ cks) h = set_cookies cks h
  set_cookies (some ck ∷ cks) h =
      let rest = set_cookies cks (header_add enc "X-Test-Set-Cookies" (enc.cookie_text ck) h) in
      if str_eq (enc.cookie_text ck) "" then err invalid_set_cookie else rest
