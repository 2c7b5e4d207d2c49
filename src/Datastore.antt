-- ===== src/Datastore.antt =====
-- pkg/lib/datastore/datastore.go: the values and the responses that later requests refer to. A
-- method on *Datastore returns the new store. The lock serialises the methods and is not modelled,
-- nor is the sharing of a map between the store and who reads it.
pub mod Storing
pub mod Responses
use apitest.Base.{
  ℕ, ◌+◌, Bool, true, false, not, ◌||◌, String, Option, none, some, List, [], ◌∷◌, ◌++◌, Outcome,
  ok, err, str_eq, has_suffix, cut_suffix, cut_at, has_char, code, length, get_elem?, ◌==◌,
  if◌then◌else◌,
}
use apitest.Base.Dict.{Dict, lookup, insert, erase}
use apitest.Base.Int.{ℤ, pos, negsuc, sub_ℕ}
use apitest.Json.{
  Value, Float, nil, object, array, str, number, int, int64, float64, items, fields, of_items,
  of_fields, Items, empty, cons, end,
}
use apitest.Json.Number.{parse_int}
use apitest.Host.{Host}

pub record Datastore : Type 0 where
  pub storage : Dict Value
  pub responses : List String

abbrev pub new_store : Datastore
new_store = record { storage = []; responses = [] }

pub data GetError : Type 0 where
  key_not_found : String → GetError
  bad_index : String → GetError
  out_of_bounds : ℤ → ℕ → GetError

-- dsMapRegex, `^(.*?)\[(.+?)\]$`: the text before the first bracket, and the text, not empty, up to
-- a bracket at the end. The dot stands for no line break.
unfoldable pub no_empty_key : String → Option String → Option (String × String)
no_empty_key pre none = none
no_empty_key pre (some key) = if str_eq key "" then none else some (pre, key)

unfoldable pub close_key : Option (String × String) → Option (String × String)
unfolding no_empty_key cut_suffix
close_key none = none
close_key (some (pre, rest)) = no_empty_key pre (cut_suffix rest "]")

unfoldable pub split_map : String → Option (String × String)
unfolding close_key has_char cut_at
split_map index = if has_char b'\n' index then none else close_key (cut_at b'[' index)

-- `s` and the store after the first part of the push: what is no array is replaced.
unfoldable pub open_array : String → Option Value → Dict Value → List Value × Dict Value
open_array k none m = ([], insert k (array empty) m)
open_array k (some (array xs)) m = (items xs, m)
open_array k (some nil) m = ([], insert k (array empty) m)
open_array k (some tmp) m = ([], insert k (array (cons tmp empty)) (insert k (array empty) m))

unfoldable pub push : String → Value → Dict Value → Dict Value
unfolding open_array
push k v m =
    let (s, m') = open_array k (lookup k m) m in insert k (array (of_items (s ++ v ∷ []))) m'

unfoldable pub open_map : String → Option Value → Dict Value → Dict Value × Dict Value
open_map k (some (object fs)) m = (fields fs, m)
open_map k _ m = ([], insert k (object end) m)

unfoldable pub put_key : String → String → Value → Dict Value → Dict Value
unfolding open_map
put_key k key v m =
    let (s, m') = open_map k (lookup k m) m in insert k (object (of_fields (insert key v s))) m'

unfoldable pub put_split : String → Option (String × String) → Value → Dict Value → Dict Value
unfolding put_key
put_split index none v m = insert index v m
put_split index (some (k, key)) v m = put_key k key v m

unfoldable pub put_pushed : String → Option String → Value → Dict Value → Dict Value
unfolding push put_split
put_pushed index none v m = put_split index (split_map index) v m
put_pushed index (some k) v m = push k v m

unfoldable pub or_empty : Option Value → Value
or_empty none = str ""
or_empty (some v) = v

-- A negative index counts from the end.
unfoldable pub wrap_index : ℤ → ℕ → Option ℕ
wrap_index (pos n) len = some n
wrap_index (negsuc n) len = elim (sub_ℕ len (n + 1)) [ pos k ↦ some k | negsuc k ↦ none ]

unfoldable pub at_index : {A : Type 0} → List A → Option ℕ → Option A
at_index xs none = none
at_index xs (some n) = get_elem? xs n

unfoldable pub element : List Value → String → Option ℤ → Outcome GetError Value
unfolding at_index wrap_index or_empty
element xs key none = err (bad_index key)
element xs key (some n) = ok (or_empty (at_index xs (wrap_index n (length xs))))

unfoldable pub get_in : String → String → Option Value → Outcome GetError Value
unfolding element or_empty
get_in k key none = err (key_not_found k)
get_in k key (some (object fs)) = ok (or_empty (lookup key (fields fs)))
get_in k key (some (array xs)) = element (items xs) key (parse_int key)
get_in k key (some v) = ok (str "")

-- The index as the message has it, with the length added to a negative one.
unfoldable pub shown_index : ℤ → ℕ → ℤ
shown_index (pos n) len = pos n
shown_index (negsuc n) len = sub_ℕ len (n + 1)

unfoldable pub response : ℤ → ℕ → Option String → Outcome GetError Value
response n len none = err (out_of_bounds (shown_index n len) len)
response n len (some s) = ok (str s)

unfoldable pub get_plain : Datastore → String → Option ℤ → Outcome GetError Value
unfolding response at_index wrap_index or_empty
get_plain ds index (some n) =
    response n (length ds.responses) (at_index ds.responses (wrap_index n (length ds.responses)))
get_plain ds index none = ok (or_empty (lookup index ds.storage))

unfoldable pub get_split : Datastore → String → Option (String × String) → Outcome GetError Value
unfolding get_in get_plain
get_split ds index (some (k, key)) = get_in k key (lookup k ds.storage)
get_split ds index none = get_plain ds index (parse_int index)

unfoldable pub get : Datastore → String → Outcome GetError Value
unfolding get_split
get ds index =
    if str_eq index "-"
    then ok (object (of_fields ds.storage))
    else get_split ds index (split_map index)

unfoldable pub append_response : Datastore → String → Datastore
append_response ds s = record ds { responses = ds.responses ++ s ∷ [] }

-- `responseJson[len-1] = s`
unfoldable pub set_last : String → List String → Option (List String)
set_last s [] = none
set_last s (r ∷ []) = some (s ∷ [])
set_last s (r ∷ q ∷ rs) =
    let rest = set_last s (q ∷ rs) in elim rest [ none ↦ none | some rs' ↦ some (r ∷ rs') ]

-- none: the index is out of range, and the program panics.
unfoldable pub update_last_response : Datastore → String → Option Datastore
unfolding set_last
update_last_response ds s = elim (set_last s ds.responses) [
  | none ↦ none
  | some rs ↦ some (record ds { responses = rs })
]

module _ (host : Host) where
  unfoldable pub or_float : String → Option Float → Value
  or_float n none = number n
  or_float n (some x) = float64 x

  unfoldable pub or_int : String → Option ℤ → Value
  unfolding or_float
  or_int n none = or_float n (host.parse_float n)
  or_int n (some k) = int64 k

  -- The value as it is stored: a whole float64 as an int, a literal as a number where it is one.
  unfoldable pub normalize : Value → Value
  unfolding or_int
  normalize (float64 x) = if host.is_integral x then int (host.truncate x) else float64 x
  normalize (number n) = or_int n (parse_int n)
  normalize v = v

  unfoldable pub set : Datastore → String → Value → Datastore
  unfolding put_pushed normalize
  set ds index v = record ds {
    storage = put_pushed index (cut_suffix index "[]") (normalize v) ds.storage;
  }

  unfoldable pub set_map : Datastore → Dict Value → Datastore
  set_map ds [] = ds
  set_map ds ((k, v) ∷ rest) = set_map (set ds k v) rest

  -- gjson.Get(response, path).Value() of github.com/tidwall/gjson; nil where nothing is found.
  module _ (gjson : String → String → Value) where
    -- `!path` asks for the key to be deleted where the path finds nothing.
    unfoldable pub bang : String → Bool × String
    bang String.[] = (false, "")
    bang (String.◌∷◌ c s) = if code c == b'!' then (true, s) else (false, String.◌∷◌ c s)

    unfoldable pub store_found : Datastore → String → Bool → Value → Datastore
    store_found ds k set_empty nil =
        if set_empty then record ds { storage = erase k ds.storage } else ds
    store_found ds k set_empty v = set ds k v

    unfoldable pub set_with_gjson : Datastore → String → Dict String → Datastore
    unfolding bang store_found
    set_with_gjson ds response [] = ds
    set_with_gjson ds response ((k, qv) ∷ rest) =
        let (set_empty, path) = bang qv in
        set_with_gjson (store_found ds k set_empty (gjson response path)) response rest
