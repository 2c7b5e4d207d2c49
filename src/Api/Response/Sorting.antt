-- ===== src/Api/Response/Sorting.antt =====
-- Which headers a response can have.
use apitest.Base.{
  ◌≡◌, refl, Bool, true, false, ◌&&◌, String, Option, none, some, List, [], ◌∷◌, Outcome, ok, err,
  ◌>>=◌, has_suffix, if_elim, subst, sym,
}
use apitest.Base.Dict.{Dict}
use apitest.Base.Int.{ℤ}
use apitest.Json.{
  Value, Items, empty, cons, nil, str, number, bool, int, int64, float64, array, object, other,
}
use apitest.Api.Response.{
  HeaderValue, json, strings, Split, header_strings, put_header, split_headers, nothing_split,
  read_body, Format, new_response,
}

abbrev pub all_texts : Items → Bool
all_texts empty = true
all_texts (cons (str s) xs) = all_texts xs
all_texts (cons v xs) = false

-- A text, a list of texts, or an object under a key that ends in :control.
abbrev pub is_header : String → HeaderValue → Bool
is_header key (strings ss) = true
is_header key (json (str s)) = true
is_header key (json (array xs)) = all_texts xs
is_header key (json (object fs)) = has_suffix key ":control"
is_header key (json v) = false

abbrev pub are_headers : Dict HeaderValue → Bool
are_headers [] = true
are_headers ((key, v) ∷ rest) = is_header key v && are_headers rest

-- The outcome is there exactly if `b`.
abbrev pub Returns : {E A : Type 0} → Bool → Outcome E A → Type 0
Returns b (ok a) = b ≡ true
Returns b (err e) = b ≡ false

bind-Returns :
    {E A B : Type 0} (b c : Bool) (m : Outcome E A) (next : A → Outcome E B)
    → Returns b m
    → ((a : A) → Returns c (next a))
    → Returns (b && c) (m >>= next)
bind-Returns b c (ok a) next h k = subst (λ b'. Returns (b' && c) (next a)) (sym h) (k a)
bind-Returns b c (err e) next h k = rw h refl

built-Returns :
    {E A B : Type 0} (b : Bool) (m : Outcome E A) (f : A → B)
    → Returns b m
    → Returns b (m >>= λ a. ok (f a))
built-Returns b (ok a) f h = h
built-Returns b (err e) f h = h

header_strings-Returns :
    (key : String) (xs : Items) → Returns (all_texts xs) (header_strings key xs)
unfolding header_strings
header_strings-Returns key empty = refl
header_strings-Returns key (cons (str s) xs) =
    built-Returns (all_texts xs) (header_strings key xs) _ (header_strings-Returns key xs)
header_strings-Returns key (cons nil xs) = refl
header_strings-Returns key (cons (object fs) xs) = refl
header_strings-Returns key (cons (array ys) xs) = refl
header_strings-Returns key (cons (number n) xs) = refl
header_strings-Returns key (cons (bool b) xs) = refl
header_strings-Returns key (cons (int n) xs) = refl
header_strings-Returns key (cons (int64 n) xs) = refl
header_strings-Returns key (cons (float64 x) xs) = refl
header_strings-Returns key (cons (other t) xs) = refl

put_header-Returns :
    (key : String) (v : HeaderValue) (s : Split) → Returns (is_header key v) (put_header key v s)
unfolding put_header
put_header-Returns key (strings ss) s = refl
put_header-Returns key (json (str t)) s = refl
put_header-Returns key (json (array xs)) s =
    built-Returns (all_texts xs) (header_strings key xs) _ (header_strings-Returns key xs)
put_header-Returns key (json (object fs)) s =
    if_elim (Returns (has_suffix key ":control")) (has_suffix key ":control") _ _ (λ e. e) (λ e. e)
put_header-Returns key (json nil) s = refl
put_header-Returns key (json (number n)) s = refl
put_header-Returns key (json (bool b)) s = refl
put_header-Returns key (json (int n)) s = refl
put_header-Returns key (json (int64 n)) s = refl
put_header-Returns key (json (float64 x)) s = refl
put_header-Returns key (json (other t)) s = refl

split_headers-Returns :
    (hs : Dict HeaderValue) (s : Split) → Returns (are_headers hs) (split_headers hs s)
unfolding split_headers
split_headers-Returns [] s = refl
split_headers-Returns ((key, v) ∷ rest) s =
    bind-Returns (is_header key v) (are_headers rest) (put_header key v s) _
      (put_header-Returns key v s) (λ s'. split_headers-Returns rest s')

abbrev pub is_read : Option (Outcome String String) → Bool
is_read (some (err e)) = false
is_read _ = true

read_body-Returns :
    (body : Option (Outcome String String)) → Returns (is_read body) (read_body body)
unfolding read_body
read_body-Returns none = refl
read_body-Returns (some (ok b)) = refl
read_body-Returns (some (err e)) = refl

module _ {P C : Type 0} where
  -- NewResponse returns a response exactly if its body can be read and each of its headers is a
  -- text, a list of texts, or an object under a key that ends in :control.
  pub new_response-Returns :
      (status : Option ℤ) (headers : Dict HeaderValue) (cookies : List (Option C))
      (body : Option (Outcome String String)) (control : Option Value) (format : Format P)
      → Returns
          (are_headers headers && is_read body)
          (new_response status headers cookies body control format)
  unfolding new_response
  new_response-Returns status headers cookies body control format =
      bind-Returns (are_headers headers) (is_read body) (split_headers headers nothing_split) _
        (split_headers-Returns headers nothing_split)
        (λ s. built-Returns (is_read body) (read_body body) _ (read_body-Returns body))
