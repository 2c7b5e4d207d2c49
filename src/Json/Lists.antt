-- ===== src/Json/Lists.antt =====
-- The arrays and objects of a document, to lists and back.
use apitest.Base.{◌≡◌, refl, ap, List, [], ◌∷◌}
use apitest.Base.Dict.{Dict}
use apitest.Json.{Value, items, fields, of_items, of_fields}

pub items-of_items : (xs : List Value) → items (of_items xs) ≡ xs
unfolding items of_items
items-of_items [] = refl
items-of_items (x ∷ xs) = ap (λ ys. x ∷ ys) (items-of_items xs)

pub fields-of_fields : (m : Dict Value) → fields (of_fields m) ≡ m
unfolding fields of_fields
fields-of_fields [] = refl
fields-of_fields ((k, v) ∷ m) = ap (λ n. (k, v) ∷ n) (fields-of_fields m)
