-- ===== src/Datastore/Storing.antt =====
-- What Get returns after Set, for each form of an index.
use apitest.Base.{
  ◌≡◌, refl, sym, ap, ◌∙◌, Bool, true, false, String, Option, none, some, List, [], ◌∷◌, ◌++◌, ok,
  str_eq, eq_iff, cut_suffix, if◌then◌else◌, arith, Bool-cases, inl, inr,
}
use apitest.Base.Dict.{Dict, lookup, insert, lookup-insert, lookup-insert_self, lookup-erase}
use apitest.Json.{Value, nil, object, array, items, fields, of_items, of_fields}
use apitest.Json.Number.{parse_int}
use apitest.Json.Lists.{fields-of_fields}
use apitest.Host.{Host}
use apitest.Datastore.{
  Datastore, split_map, open_array, push, open_map, put_key, put_split, put_pushed, or_empty,
  get_in, get_plain, get_split, get, normalize, set, set_with_gjson, bang, store_found,
}

-- An index that names a value of the store: no `[]`, no `[key]`, no number, and not `-`.
pub record IsKey (k : String) : Type 0 where
  pub no_push : cut_suffix k "[]" ≡ none
  pub no_split : split_map k ≡ none
  pub no_number : parse_int k ≡ none
  pub no_dash : str_eq k "-" ≡ false

get-IsKey : (ds : Datastore) (k : String) → IsKey k → get ds k ≡ ok (or_empty (lookup k ds.storage))
unfolding get get_split get_plain
get-IsKey ds k h = rw (h.no_dash, h.no_split, h.no_number)

dash-split : split_map "-" ≡ none
unfolding split_map
dash-split = refl

get-split :
    (ds : Datastore) (index k key : String)
    → split_map index ≡ some (k, key)
    → get ds index ≡ get_in k key (lookup k ds.storage)
unfolding get get_split
get-split ds index k key h = elim (Bool-cases (str_eq index "-")) [
  | inl e ↦ let no' = sym h ∙ ap split_map ((eq_iff index "-").0 e) ∙ dash-split in cc
  | inr e ↦ rw (e, h)
]

module _ (host : Host) where
  set-IsKey :
      (ds : Datastore) (k : String) (v : Value)
      → IsKey k
      → (set host ds k v).storage ≡ insert k (normalize host v) ds.storage
  unfolding set put_pushed put_split
  set-IsKey ds k v h = rw (h.no_push, h.no_split)

  -- A value set under a plain key is what Get returns for the key, in its stored form; every other
  -- plain key keeps its value.
  pub get-set :
      (ds : Datastore) (k j : String) (v : Value)
      → IsKey k
      → IsKey j
      → get (set host ds k v) j ≡ (if str_eq k j then ok (normalize host v) else get ds j)
  unfolding or_empty
  get-set ds k j v hk hj =
      rw (get-IsKey (set host ds k v) j hj, get-IsKey ds j hj, set-IsKey ds k v hk, lookup-insert)
        (ground arith)

  -- What a stored value has of a map, and of an array.
  abbrev pub map_of : Option Value → Dict Value
  map_of (some (object fs)) = fields fs
  map_of _ = []

  abbrev pub array_of : Option Value → List Value
  array_of (some (array xs)) = items xs
  array_of _ = []

  open_map-map_of : (k : String) (o : Option Value) (m : Dict Value) → (open_map k o m).0 ≡ map_of o
  unfolding open_map
  open_map-map_of k (some (object fs)) m = refl
  open_map-map_of k (some _) m = refl
  open_map-map_of k none m = refl

  open_array-array_of :
      (k : String) (o : Option Value) (m : Dict Value) → (open_array k o m).0 ≡ array_of o
  unfolding open_array
  open_array-array_of k (some (array xs)) m = refl
  open_array-array_of k (some nil) m = refl
  open_array-array_of k (some _) m = refl
  open_array-array_of k none m = refl

  lookup-put_key :
      (k key : String) (v : Value) (m : Dict Value)
      → lookup k (put_key k key v m)
        ≡ some (object (of_fields (insert key v (map_of (lookup k m)))))
  unfolding put_key
  lookup-put_key k key v m =
      lookup-insert_self _ k _
      ∙ ap (λ s. some (object (of_fields (insert key v s)))) (open_map-map_of k (lookup k m) m)

  lookup-push :
      (k : String) (v : Value) (m : Dict Value)
      → lookup k (push k v m) ≡ some (array (of_items (array_of (lookup k m) ++ v ∷ [])))
  unfolding push
  lookup-push k v m =
      lookup-insert_self _ k _
      ∙ ap (λ s. some (array (of_items (s ++ v ∷ [])))) (open_array-array_of k (lookup k m) m)

  -- After Set of `k[key]`, Get of an index `k[other]` has the new value for the same key, and for
  -- any other key what the map under `k` had, or "" where it had nothing. What `k` held is
  -- replaced by an empty map if it was none.
  pub get-set_key :
      (ds : Datastore) (index asked k key other : String) (v : Value)
      → cut_suffix index "[]" ≡ none
      → split_map index ≡ some (k, key)
      → split_map asked ≡ some (k, other)
      → get (set host ds index v) asked
        ≡ ok (
            or_empty (
              if str_eq key other
              then some (normalize host v)
              else lookup other (map_of (lookup k ds.storage))))
  unfolding set put_pushed put_split get_in
  get-set_key ds index asked k key other v np si sa =
      get-split (set host ds index v) asked k other sa
      ∙ rw (np, si)
          (rw (lookup-put_key k key (normalize host v) ds.storage)
            (rw (fields-of_fields, lookup-insert)))

  -- After Set of `k[]`, Get of `k` has the array that was there with the value at its end. What
  -- was there is dropped if it was no array.
  pub get-set_push :
      (ds : Datastore) (index k : String) (v : Value)
      → cut_suffix index "[]" ≡ some k
      → IsKey k
      → get (set host ds index v) k
        ≡ ok (array (of_items (array_of (lookup k ds.storage) ++ normalize host v ∷ [])))
  unfolding set put_pushed or_empty
  get-set_push ds index k v cut h = get-IsKey (set host ds index v) k h ∙ rw cut (rw lookup-push)

  -- What one entry of a store_response_gjson map leaves under its key, from what the path found
  -- and from what was there: a value, nothing where `!` asks for it, or what was there.
  abbrev pub kept : Bool → Value → Option Value → Option Value
  kept set_empty nil old = if set_empty then none else old
  kept set_empty v old = some (normalize host v)

  module _ (gjson : String → String → Value) (response : String) where
    abbrev pub stored : Option String → Option Value → Option Value
    stored none old = old
    stored (some qv) old = kept (bang host gjson qv).0 (gjson response (bang host gjson qv).1) old

    lookup-store_found :
        (ds : Datastore) (k j : String) (set_empty : Bool) (v : Value)
        → IsKey k
        → lookup j (store_found host gjson ds k set_empty v).storage
          ≡ (if str_eq k j then kept set_empty v (lookup j ds.storage) else lookup j ds.storage)
    unfolding store_found
    lookup-store_found ds k j true nil h = rw lookup-erase
    lookup-store_found ds k j false nil h = ground arith
    lookup-store_found ds k j set_empty v h = rw (set-IsKey ds k v h, lookup-insert)

    abbrev pub AreKeys : Dict String → Type 0
    AreKeys [] = Unit {0}
    AreKeys ((k, qv) ∷ rest) = IsKey k × (lookup k rest ≡ none) × AreKeys rest

    -- SetWithGjson with plain keys, each once: afterwards every key of the map holds what its path
    -- found, in stored form, and every other key what it held. The order of the map does not show.
    pub lookup-set_with_gjson :
        (ds : Datastore) (paths : Dict String) (j : String)
        → AreKeys paths
        → lookup j (set_with_gjson host gjson ds response paths).storage
          ≡ stored (lookup j paths) (lookup j ds.storage)
    unfolding set_with_gjson lookup
    lookup-set_with_gjson ds [] j h = refl
    lookup-set_with_gjson ds ((k, qv) ∷ rest) j (hk, fresh, h) =
        let (b, path) = bang host gjson qv in
        let next = store_found host gjson ds k b (gjson response path) in
        lookup-set_with_gjson next rest j h
        ∙ ap (stored (lookup j rest)) (lookup-store_found ds k j b (gjson response path) hk)
        ∙ (elim (Bool-cases (str_eq k j)) [
          | inl e ↦
              let gone : lookup j rest ≡ none =
                ap (λ t. lookup t rest) (sym ((eq_iff k j).0 e)) ∙ fresh in
              rw (e, gone)
          | inr e ↦ rw e
        ])
