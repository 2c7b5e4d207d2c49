-- ===== src/Api/Request.antt =====
-- request.go: what buildHttpRequest makes of a request. A header or a query is a map from names to
-- lists of values. The build policies, url.Parse and the cookies' own format are parameters.
pub mod Query
pub mod Fields
pub mod Cookies
use apitest.Base.{
  ℕ, Bool, true, false, String, Option, none, some, List, [], ◌∷◌, ◌++◌, Outcome, ok, err, ◌>>=◌,
  code, str_eq, ◌==◌, if◌then◌else◌,
}
use apitest.Base.Dict.{Dict, lookup, insert, erase}
use apitest.Base.Int.{ℤ}
use apitest.Json.{Value, Items, empty, cons, str, int, float64, array, Float}

pub data RequestError : Type 0 where
  no_datastore : RequestError
  not_in_store : String → String → RequestError
  no_text : String → RequestError
  -- the header, and the value of it that is no string
  no_string unsupported_header : String → Value → RequestError
  bad_cookie : String → RequestError
  invalid_set_cookie : RequestError

-- What the request is built with: the canonical form of a header's name, the texts of numbers and
-- of other values, and the cookie that a stored value stands for.
pub record Encoders (Cookie : Type 0) : Type 0 where
  pub canonical : String → String
  pub format_float : Float → String
  pub int_text : ℤ → String
  pub marshal : Value → Outcome String String
  pub read_cookie : Value → Outcome String Cookie
  -- the zero http.Cookie, its fields Value and Name set, and Cookie.String
  pub no_cookie : Cookie
  pub set_value : String → Cookie → Cookie
  pub set_name : String → Cookie → Cookie
  pub cookie_text : Cookie → String

abbrev pub Store : Type 0
Store = Option (String → Outcome String Value)

pub record RequestCookie : Type 0 where
  pub value_from_store : String
  pub value : String

unfoldable pub starts_with_mark : String → Bool
starts_with_mark String.[] = false
starts_with_mark (String.◌∷◌ c s) = code c == b'?'

unfoldable pub without_mark : String → String
unfolding starts_with_mark
without_mark String.[] = ""
without_mark (String.◌∷◌ c s) = if code c == b'?' then s else String.◌∷◌ c s

-- What the store has under a key; none where it has nothing and the key begins with a question mark.
unfoldable pub skip_error :
    Bool → String → Outcome String Value → Outcome RequestError (Option Value)
skip_error skip key (ok v) = ok (some v)
skip_error skip key (err e) = if skip then ok none else err (not_in_store key e)

unfoldable pub from_store : Store → String → Outcome RequestError (Option Value)
unfolding skip_error starts_with_mark without_mark
from_store none key = err no_datastore
from_store (some get) key =
    skip_error (starts_with_mark key) (without_mark key) (get (without_mark key))

unfoldable pub values_of : Option (List String) → List String
values_of none = []
values_of (some vs) = vs

-- Values.Add
unfoldable pub add_value : String → String → Dict (List String) → Dict (List String)
unfolding values_of
add_value k v q = insert k (values_of (lookup k q) ++ v ∷ []) q

module _ {Cookie : Type 0} (enc : Encoders Cookie) where
  unfoldable pub as_text : Outcome String String → Outcome RequestError String
  as_text (ok s) = ok s
  as_text (err e) = err (no_text e)

  -- GetStringFromInterface of util.go.
  unfoldable pub get_string_from_interface : Value → Outcome String String
  get_string_from_interface (str s) = ok s
  get_string_from_interface (float64 x) = ok (enc.format_float x)
  get_string_from_interface (int n) = ok (enc.int_text n)
  get_string_from_interface v = enc.marshal v

  unfoldable pub add_if_text : String → String → Dict (List String) → Dict (List String)
  unfolding add_value
  add_if_text name s q = if str_eq s "" then q else add_value name s q

  unfoldable pub add_stored :
      String → Option Value → Dict (List String) → Outcome RequestError (Dict (List String))
  unfolding add_if_text as_text get_string_from_interface
  add_stored name none q = ok q
  add_stored name (some v) q = do
    s ← as_text (get_string_from_interface v)
    ok (add_if_text name s q)

  -- The loop over QueryParamsFromStore.
  unfoldable pub query_from_store :
      Store → Dict String → Dict (List String) → Outcome RequestError (Dict (List String))
  unfolding from_store add_stored
  query_from_store store [] q = ok q
  query_from_store store ((name, key) ∷ rest) q = do
    v ← from_store store key
    q' ← add_stored name v q
    query_from_store store rest q'

  -- The loop over QueryParams.
  unfoldable pub query_params :
      Dict Value → Dict (List String) → Outcome RequestError (Dict (List String))
  unfolding as_text get_string_from_interface
  query_params [] q = ok q
  query_params ((name, v) ∷ rest) q = do
    s ← as_text (get_string_from_interface v)
    query_params rest (insert name (s ∷ []) q)

  -- From the query of the URL.
  unfoldable pub build_query :
      Store
      → Dict String
      → Dict Value
      → Dict (List String)
      → Outcome RequestError (Dict (List String))
  unfolding query_from_store query_params
  build_query store stored params q = do
    q' ← query_from_store store stored q
    query_params params q'

  unfoldable pub header_add : String → String → Dict (List String) → Dict (List String)
  unfolding add_value
  header_add name v h = add_value (enc.canonical name) v h

  unfoldable pub header_set : String → String → Dict (List String) → Dict (List String)
  header_set name v h = insert (enc.canonical name) (v ∷ []) h

  unfoldable pub header_del : String → Dict (List String) → Dict (List String)
  header_del name h = erase (enc.canonical name) h

  unfoldable pub add_headers : Dict String → Dict (List String) → Dict (List String)
  unfolding header_add
  add_headers [] h = h
  add_headers ((k, v) ∷ rest) h = add_headers rest (header_add k v h)

  -- The strings of a stored array; its other values are passed over.
  unfoldable pub add_items : String → Items → Dict (List String) → Dict (List String)
  unfolding header_add
  add_items name empty h = h
  add_items name (cons (str s) vs) h =
      add_items name vs (if str_eq s "" then h else header_add name s h)
  add_items name (cons v vs) h = add_items name vs h

  unfoldable pub header_stored :
      String → Option Value → Dict (List String) → Outcome RequestError (Dict (List String))
  unfolding add_items header_set
  header_stored name none h = ok h
  header_stored name (some (array vs)) h = ok (add_items name vs h)
  header_stored name (some (str s)) h = ok (if str_eq s "" then h else header_set name s h)
  header_stored name (some v) h = err (no_string name v)

  -- The loop over HeaderFromStore.
  unfoldable pub headers_from_store :
      Store → Dict String → Dict (List String) → Outcome RequestError (Dict (List String))
  unfolding from_store header_stored
  headers_from_store store [] h = ok h
  headers_from_store store ((name, key) ∷ rest) h = do
    v ← from_store store key
    h' ← header_stored name v h
    headers_from_store store rest h'

  unfoldable pub all_strings : String → Items → Outcome RequestError (List String)
  all_strings name empty = ok []
  all_strings name (cons (str s) vs) = do rest ← all_strings name vs; ok (s ∷ rest)
  all_strings name (cons v vs) = err (unsupported_header name v)

  -- A list is put under the name as it is written.
  unfoldable pub own_header :
      String → Value → Dict (List String) → Outcome RequestError (Dict (List String))
  unfolding header_set header_del all_strings
  own_header name (str s) h = ok (if str_eq s "" then header_del name h else header_set name s h)
  own_header name (array vs) h = do ss ← all_strings name vs; ok (insert name ss h)
  own_header name v h = err (unsupported_header name v)

  -- The loop over Headers.
  unfoldable pub own_headers :
      Dict Value → Dict (List String) → Outcome RequestError (Dict (List String))
  unfolding own_header
  own_headers [] h = ok h
  own_headers ((name, v) ∷ rest) h = do h' ← own_header name v h; own_headers rest h'

  unfoldable pub authorize : Option String → Dict (List String) → Dict (List String)
  unfolding header_set
  authorize none h = h
  authorize (some auth) h = header_set "Authorization" auth h

  -- `auth` is the value of basic authentication, if the URL has a user with a password.
  unfoldable pub build_headers :
      Store
      → Option String
      → Dict String
      → Dict String
      → Dict Value
      → Outcome RequestError (Dict (List String))
  unfolding header_set authorize add_headers headers_from_store own_headers
  build_headers store auth additional stored own = do
    h ←
        headers_from_store store stored
          (add_headers additional (authorize auth (header_set "User-Agent" "" [])))
    own_headers own h
