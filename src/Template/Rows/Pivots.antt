-- ===== src/Template/Rows/Pivots.antt =====
-- The sheet that pivotRows makes.
use apitest.Base.{
  ℕ, zero, suc, ◌≡◌, ◌⊎◌, inl, inr, refl, sym, if_elim, ap, ◌∙◌, Bool, false, ◌||◌, String, Option,
  none, some, List, [], ◌∷◌, length, Outcome, ok, err, str_eq, arith, if◌then◌else◌,
}
use Prim.Native.Nat.{max}
use apitest.Base.Dict.{lookup}
use apitest.Base.Int.{ℤ, pos, negsuc}
use apitest.Json.{Value, Float}
use apitest.Template.Rows.{
  Row, present, get_str, atoi, grow, set_cell, set_cell_if, supported, cell, put_cell, pivot_cell,
  pivot_row, pivot_from, pivot_rows,
}

-- The rows of a sheet of `l` rows, when a key with the number `n` has been met.
abbrev pub taller : ℤ → ℕ → ℕ
taller (pos n) l = max n l
taller (negsuc n) l = l

abbrev pub row_height : Row → ℕ → ℕ
row_height [] l = l
row_height ((k, v) ∷ row) l = row_height row (taller (atoi k) l)

-- A row is passed over if it has no key or no type.
abbrev pub is_skipped : String → String → Row → Bool
is_skipped key typ row =
    str_eq (get_str (lookup key row)) "" || str_eq (get_str (lookup typ row)) ""

abbrev pub height : String → String → List Row → ℕ → ℕ
height key typ [] l = l
height key typ (row ∷ rows) l =
    height key typ rows (if is_skipped key typ row then l else row_height row l)

length-grow : (n : ℕ) (sheet : List Row) → length (grow n sheet) ≡ max n (length sheet)
unfolding grow
length-grow zero sheet = omega arith
length-grow (suc n) [] = omega (arith, length-grow n [])
length-grow (suc n) (r ∷ rs) = omega (arith, length-grow n rs)

length-set_cell_if :
    (n : ℕ) (key : String) (v : Option Value) (sheet : List Row)
    → length (set_cell_if n key v sheet) ≡ length sheet
unfolding set_cell_if set_cell
length-set_cell_if n key none sheet = refl
length-set_cell_if n key (some v) [] = refl
length-set_cell_if zero key (some v) (r ∷ rs) = refl
length-set_cell_if (suc n) key (some v) (r ∷ rs) = ap suc (length-set_cell_if n key (some v) rs)

module _ (unmarshal : String → Option Value) (unmarshal_number : String → Option String)
    (parse_float : String → Float) where
  length-put_cell :
      (key typ : String) (n : ℕ) (v : Option Value) (sheet : List Row)
      → length (put_cell unmarshal unmarshal_number parse_float key typ n v sheet) ≡ length sheet
  unfolding put_cell
  length-put_cell key typ n none sheet = refl
  length-put_cell key typ n (some v) sheet =
      length-set_cell_if n key (cell unmarshal unmarshal_number parse_float typ (get_str (some v)))
        sheet

  length-pivot_cell :
      (key typ : String) (v : Value) (n : ℤ) (sheet : List Row)
      → length (pivot_cell unmarshal unmarshal_number parse_float key typ v n sheet)
        ≡ taller n (length sheet)
  unfolding pivot_cell
  length-pivot_cell key typ v (pos zero) sheet = omega arith
  length-pivot_cell key typ v (pos (suc n)) sheet =
      length-put_cell key typ n (present (some v)) (grow (suc n) sheet) ∙ length-grow (suc n) sheet
  length-pivot_cell key typ v (negsuc n) sheet = refl

  length-pivot_row :
      (key typ : String) (row : Row) (sheet : List Row)
      → length (pivot_row unmarshal unmarshal_number parse_float key typ row sheet)
        ≡ row_height row (length sheet)
  unfolding pivot_row
  length-pivot_row key typ [] sheet = refl
  length-pivot_row key typ ((k, v) ∷ row) sheet =
      length-pivot_row key typ row _
      ∙ ap (row_height row) (length-pivot_cell key typ v (atoi k) sheet)

  -- The type `t` of one of the rows that are not passed over is not supported.
  abbrev pub HasUnsupported : String → String → String → List Row → Type 0
  HasUnsupported key typ t [] = ⊥
  HasUnsupported key typ t (row ∷ rows) =
      ((is_skipped key typ row ≡ false) × (get_str (lookup typ row) ≡ t) × (supported t ≡ false))
      ⊎ HasUnsupported key typ t rows

  abbrev pub Pivoted : String → String → List Row → ℕ → Outcome String (List Row) → Type 0
  Pivoted key typ rows l (ok sheet) = length sheet ≡ height key typ rows l
  Pivoted key typ rows l (err t) = HasUnsupported key typ t rows

  later :
      (key typ : String) (row : Row) (rows : List Row) (l m : ℕ) (r : Outcome String (List Row))
      → (if is_skipped key typ row then l else row_height row l) ≡ m
      → Pivoted key typ rows m r
      → Pivoted key typ (row ∷ rows) l r
  later key typ row rows l m (ok sheet) e h = h ∙ ap (height key typ rows) (sym e)
  later key typ row rows l m (err t) e h = inr h

  pivot_from-Pivoted :
      (key typ : String) (rows sheet : List Row)
      → Pivoted key typ rows
          (length sheet)
          (pivot_from unmarshal unmarshal_number parse_float key typ rows sheet)
  unfolding pivot_from
  pivot_from-Pivoted key typ [] sheet = refl
  pivot_from-Pivoted key typ (row ∷ rows) sheet =
      let sheet_key = get_str (lookup key row) in
      let sheet_type = get_str (lookup typ row) in
      let done = pivot_row unmarshal unmarshal_number parse_float sheet_key sheet_type row sheet in
      if_elim (Pivoted key typ (row ∷ rows) (length sheet)) (is_skipped key typ row) _ _
        (λ e.
          later key typ row rows (length sheet) (length sheet) _ (rw e refl)
            (pivot_from-Pivoted key typ rows sheet))
        (λ e.
          if_elim (Pivoted key typ (row ∷ rows) (length sheet)) (supported sheet_type) _ _
            (λ _.
              later key typ row rows (length sheet) (length done) _
                (rw e (sym (length-pivot_row sheet_key sheet_type row sheet)))
                (pivot_from-Pivoted key typ rows done))
            (λ u. inl (e, refl, u)))

  -- The sheet of pivotRows has as many rows as the greatest number among the keys of the rows that
  -- are not passed over, whatever their order; an error names a type of such a row that is not
  -- supported.
  pub pivot_rows-Pivoted :
      (key typ : String) (rows : List Row)
      → Pivoted key typ rows 0 (pivot_rows unmarshal unmarshal_number parse_float key typ rows)
  unfolding pivot_rows
  pivot_rows-Pivoted key typ rows = pivot_from-Pivoted key typ rows []
