-- ===== src/Csv/Tables.antt =====
-- The rows of a table: how many there are, and when the input has too few.
use apitest.Base.{
  ℕ, suc, ◌+◌, ◌<◌, ◌≡◌, refl, ap, sym, ◌∙◌, Bool, true, false, String, List, [], ◌∷◌, Outcome, ok,
  err, ◌>>=◌, bind_inversion, ok-injective, length, arith, str_eq, if◌then◌else◌,
}
use apitest.Base.Dict.{Dict}
use apitest.Json.{Value}
use apitest.Host.{Host}
use apitest.Csv.{Row, CsvError, reading, extract_header, remove_empty_rows, empty_input, panic}
use apitest.Csv.Cells.{Cell, with_error, each}
use apitest.Csv.Readers.{table, row_map, csv_to_map}

length-each :
    {A B : Type 0} (f : A → Outcome CsvError B) (xs : List A) (ys : List B)
    → each f xs ≡ ok ys
    → length ys ≡ length xs
unfolding each
length-each f [] ys h = ap length (sym (ok-injective h))
length-each f (x ∷ xs) ys h =
    let (y, first, rest) = bind_inversion (f x) (λ b. each f xs >>= λ bs. ok (b ∷ bs)) h in
    let (zs, others, last) = bind_inversion (each f xs) (λ bs. ok (y ∷ bs)) rest in
    ap length (sym (ok-injective last)) ∙ ap suc (length-each f xs zs others)

module _ (host : Host) (render : String → ℕ → Outcome String (List Row))
    (unmarshal : String → Outcome String Value) where
  length-table :
      (rows : List Row) (out : List (Dict Cell))
      → table host render unmarshal rows ≡ ok out
      → length rows ≡ length out + 2
  unfolding table
  length-table [] out h = cc
  length-table (names ∷ []) out h = cc
  length-table (names ∷ formats ∷ rows) out h =
      let (infos, header, cells) =
        bind_inversion (extract_header names formats)
          (λ infos. each (λ v. row_map host render unmarshal infos v []) rows) h in
      omega (arith, length-each (λ v. row_map host render unmarshal infos v []) rows out cells)

  read_table :
      (empty : Bool) (m : Outcome CsvError (List Row)) (records : List Row) {out : List (Dict Cell)}
      → m ≡ ok records
      → (if empty
          then err empty_input
          else (do rows ← m; table host render unmarshal (remove_empty_rows rows)))
        ≡ ok out
      → table host render unmarshal (remove_empty_rows records) ≡ ok out
  read_table true m records r h = cc
  read_table false m records r h = rw r at h

  table_panics : (rows : List Row) → length rows < 2 → table host render unmarshal rows ≡ err panic
  unfolding table
  table_panics [] h = refl
  table_panics (names ∷ []) h = refl
  table_panics (names ∷ formats ∷ rows) h = absurd (omega arith)

  -- A table that is read has one map for each row that is neither a comment nor empty, but for the
  -- two rows of the header.
  pub length-csv_to_map :
      (input : String) (sep : ℕ) (records : List Row) (out : List (Dict Cell))
      → render input sep ≡ ok records
      → csv_to_map host render unmarshal input sep ≡ ok out
      → length (remove_empty_rows records) ≡ length out + 2
  unfolding csv_to_map
  length-csv_to_map input sep records out r h = length-table (remove_empty_rows records) out (
      read_table (str_eq input "") (with_error reading (render input sep)) records
        (ap (with_error reading) r) h)

  -- An input that is not empty, is read, and has fewer than two rows, comments and empty rows aside,
  -- makes the program panic.
  pub csv_to_map_panics :
      (input : String) (sep : ℕ) (records : List Row)
      → str_eq input "" ≡ false
      → render input sep ≡ ok records
      → length (remove_empty_rows records) < 2
      → csv_to_map host render unmarshal input sep ≡ err panic
  unfolding csv_to_map
  csv_to_map_panics input sep records e r h = rw (e, r, table_panics (remove_empty_rows records) h)
