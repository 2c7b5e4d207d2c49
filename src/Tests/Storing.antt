-- ===== src/Tests/Storing.antt =====
-- The datastore at concrete keys.
use apitest.Base.{◌≡◌, refl, none, [], ◌∷◌, ok, String, cut_suffix}
use apitest.Base.Dict.{Dict, lookup}
use apitest.Base.Int.{pos, negsuc}
use apitest.Json.{Value, nil, object, str, number, int64, end, entry}
use apitest.Json.Number.{parse_int}
use apitest.Datastore.{Datastore, split_map, get, set, set_with_gjson, normalize, bang}
use apitest.Datastore.Storing.{IsKey, get-set, lookup-set_with_gjson}
use apitest.Datastore.Responses.{IsNumber}
use apitest.Tests.Hosts.{whole_host}

user_IsKey : IsKey "user"
unfolding cut_suffix split_map parse_int
user_IsKey = record { no_push = refl; no_split = refl; no_number = refl; no_dash = refl }

id_IsKey : IsKey "id"
unfolding cut_suffix split_map parse_int
id_IsKey = record { no_push = refl; no_split = refl; no_number = refl; no_dash = refl }

abbrev store : Datastore
store = record {
  storage = ("user", str "root") ∷ ("id", object (entry "a" nil end)) ∷ [];
  responses = "{}" ∷ "[]" ∷ [];
}

get-set_example : get (set whole_host store "user" (number "7")) "user" ≡ ok (int64 (pos 7))
unfolding normalize parse_int
get-set_example = get-set whole_host store "user" "user" (number "7") user_IsKey user_IsKey

abbrev no_json : String → String → Value
no_json response path = nil

abbrev paths : Dict String
paths = ("user", "!body.name") ∷ ("id", "body.id") ∷ []

lookup-set_with_gjson_example :
    lookup "user" (set_with_gjson whole_host no_json store "{}" paths).storage ≡ none
unfolding lookup bang
lookup-set_with_gjson_example =
    lookup-set_with_gjson whole_host no_json "{}" store paths "user"
      (user_IsKey, refl, (id_IsKey, refl, tt))

last_IsNumber : IsNumber "-1" (negsuc 0)
unfolding split_map parse_int
last_IsNumber = record { number = refl; no_split = refl; no_dash = refl }
