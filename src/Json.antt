-- ===== src/Json.antt =====
-- pkg/lib/jsutil/json.go: the Go values that a decoded JSON document is made of.
pub mod Number
pub mod Lists
use apitest.Base.{Bool, true, false, String, List, [], ◌∷◌, ℕ, str_eq}
use apitest.Base.Int.{ℤ}
use apitest.Base.Dict.{Dict}

-- A float64 is its bit pattern; the operations on it are `Host`'s.
abbrev pub Float : Type 0
Float = ℕ

-- The dynamic types of a Go `any`. `number` is json.Number, the text of a numeric literal; `other`
-- is any type that no case of the program names, with the text that %T prints.
mutual
  pub data Value : Type 0 where
    nil : Value
    object : Fields → Value
    array : Items → Value
    str : String → Value
    number : String → Value
    bool : Bool → Value
    int : ℤ → Value
    int64 : ℤ → Value
    float64 : Float → Value
    other : String → Value

  pub data Items : Type 0 where
    empty : Items
    cons : Value → Items → Items

  pub data Fields : Type 0 where
    end : Fields
    entry : String → Value → Fields → Fields

unfoldable pub items : Items → List Value
items empty = []
items (cons x xs) = x ∷ items xs

unfoldable pub fields : Fields → Dict Value
fields end = []
fields (entry k v fs) = (k, v) ∷ fields fs

unfoldable pub of_items : List Value → Items
of_items [] = empty
of_items (x ∷ xs) = cons x (of_items xs)

unfoldable pub of_fields : Dict Value → Fields
of_fields [] = end
of_fields ((k, v) ∷ fs) = entry k v (of_fields fs)

-- NumberEqual compares the texts of the literals, so `1e1` and `10` differ.
unfoldable pub number_equal : String → String → Bool
number_equal exp got = str_eq exp got
