-- ===== src/Template/Groups/Numbered.antt =====
-- group_rows: the groups in the order of their numbers, and what is no group.
use mathlib.Core.List.{append_assoc, append-nil}
use apitest.Base.{
  ℕ, zero, suc, ◌+◌, ◌<◌, Bool, true, false, String, List, [], ◌∷◌, ◌++◌, Outcome, ok, err, ◌>>=◌,
  ◌>>◌, require, Outcome-cases, ltb, ◌==◌, if◌then◌else◌, ◌≡◌, refl, sym, ap, ◌∙◌, arith,
  Bool-cases, inl, inr,
}
use apitest.Base.Dict.{lookup}
use apitest.Template.Rows.{Row}
use apitest.Template.Groups.{
  Fault, panic, RowsInput, slot_index, append_at, fill_slots, empty_slots, filled, max_groups,
  group_rows, get_rows_from_input,
}

abbrev has_index : ℕ → Outcome Fault ℕ → Bool
has_index i (ok n) = n == i
has_index i (err e) = false

put_first :
    (fits fits' : Bool) (s : List Row) (slots : List (List Row))
    → fits ≡ fits'
    → ((if fits then ok slots else err panic) >>= λ slots'. ok (s ∷ slots'))
      ≡ (if fits' then ok (s ∷ slots) else err panic)
put_first true fits' s slots h = rw (sym h) refl
put_first false fits' s slots h = rw (sym h) refl

after_check :
    (m : Outcome Fault (Unit {0})) (slots : List (List Row))
    → ((m >> ok slots) >>= λ slots'. ok (filled slots')) ≡ (m >> ok (filled slots))
after_check (ok u) slots = refl
after_check (err e) slots = refl

module _ (col : String) where
  -- The rows whose value in the column is `i`, which is no group's number if it is 0.
  abbrev pub rows_of : ℕ → List Row → List Row
  rows_of i [] = []
  rows_of i (row ∷ rows) =
      let rest = rows_of i rows in
      if has_index i (slot_index (lookup col row)) then row ∷ rest else rest

  -- The groups with the numbers from `i`, as many as the count.
  unfoldable pub groups : ℕ → ℕ → List Row → List (List Row)
  groups i zero rows = []
  groups i (suc count) rows = rows_of i rows ∷ groups (suc i) count rows

  rows_of-append : (i : ℕ) (xs ys : List Row) → rows_of i (xs ++ ys) ≡ rows_of i xs ++ rows_of i ys
  rows_of-append i [] ys = refl
  rows_of-append i (x ∷ xs) ys = elim (Bool-cases (has_index i (slot_index (lookup col x)))) [
    | inl e ↦ rw e (ap (λ zs. x ∷ zs) (rows_of-append i xs ys))
    | inr ne ↦ rw ne (rows_of-append i xs ys)
  ]

  rows_of-other :
      (i n : ℕ) (done : List Row) (row : Row)
      → slot_index (lookup col row) ≡ ok n
      → (n == i) ≡ false
      → rows_of i (done ++ row ∷ []) ≡ rows_of i done
  rows_of-other i n done row e h =
      rows_of-append i done (row ∷ []) ∙ rw (e, h) (append-nil (rows_of i done))

  rows_of-same :
      (i : ℕ) (done : List Row) (row : Row)
      → slot_index (lookup col row) ≡ ok i
      → rows_of i (done ++ row ∷ []) ≡ rows_of i done ++ row ∷ []
  rows_of-same i done row e =
      let same : (i == i) ≡ true = ground arith in
      rows_of-append i done (row ∷ []) ∙ rw (e, same) refl

  groups-other :
      (i count n : ℕ) (done : List Row) (row : Row)
      → slot_index (lookup col row) ≡ ok n
      → n < i
      → groups i count (done ++ row ∷ []) ≡ groups i count done
  unfolding groups
  groups-other i zero n done row e h = refl
  groups-other i (suc count) n done row e h =
      let differs : (n == i) ≡ false = ground arith in
      let later : n < suc i = omega arith in
      rw (rows_of-other i n done row e differs, groups-other (suc i) count n done row e later) refl

  append_at-groups :
      (i count n : ℕ) (done : List Row) (row : Row)
      → slot_index (lookup col row) ≡ ok (i + n)
      → append_at n row (groups i count done)
        ≡ (if ltb n count then ok (groups i count (done ++ row ∷ [])) else err panic)
  unfolding append_at groups
  append_at-groups i zero n done row e = ground arith
  append_at-groups i (suc count) zero done row e =
      let at_i : slot_index (lookup col row) ≡ ok i = e ∙ ap (λ k. ok k) (omega arith) in
      let later : i < suc i = omega arith in
      let fits : ltb 0 (suc count) ≡ true = ground arith in
      rw (rows_of-same i done row at_i, groups-other (suc i) count i done row at_i later, fits) refl
  append_at-groups i (suc count) (suc n) done row e =
      let at_n : slot_index (lookup col row) ≡ ok (suc i + n) = e ∙ ap (λ k. ok k) (omega arith) in
      let differs : (i + suc n == i) ≡ false = ground arith in
      rw
        (
          append_at-groups (suc i) count n done row at_n,
          rows_of-other i (i + suc n) done row e differs,
        )
        (put_first (ltb n count) (ltb (suc n) (suc count)) _ _ (ground arith))

  -- The numbers of the rows are looked at in the order of the rows, and each has to be below the
  -- count of the groups.
  abbrev pub checked : ℕ → List Row → Outcome Fault (Unit {0})
  checked count [] = ok tt
  checked count (row ∷ rows) = do
    n ← slot_index (lookup col row)
    require (ltb n count) panic
    checked count rows

  fill_slots-groups :
      (count : ℕ) (rows done : List Row)
      → fill_slots col rows (groups 0 count done)
        ≡ (do checked count rows; ok (groups 0 count (done ++ rows)))
  unfolding fill_slots
  fill_slots-groups count [] done = ap (λ rs. ok (groups 0 count rs)) (sym (append-nil done))
  fill_slots-groups count (row ∷ rows) done = elim (Outcome-cases (slot_index (lookup col row))) [
    | inr (e, bad) ↦ rw bad refl
    | inl (n, good) ↦
        rw (good, append_at-groups 0 count n done row (good ∙ ap (λ k. ok k) (omega arith)))
          (elim (Bool-cases (ltb n count)) [
            | inl e ↦ rw e (
                fill_slots-groups count rows (done ++ row ∷ [])
                ∙ ap (λ rs. checked count rows >> ok (groups 0 count rs))
                    (append_assoc done (row ∷ []) rows))
            | inr ne ↦ rw ne refl
          ])
  ]

  empty_slots-groups : (i count : ℕ) → empty_slots count ≡ groups i count []
  unfolding empty_slots groups
  empty_slots-groups i zero = refl
  empty_slots-groups i (suc count) = ap (λ ss. [] ∷ ss) (empty_slots-groups (suc i) count)

  -- group_rows gives the groups of the rows that have the same number in the column, without the
  -- empty ones, in the order of the numbers, and the rows of each in their order, if each row has
  -- a number from 1 to 999 there. Otherwise the first row that has none ends it: with a panic
  -- where its number is greater, and with an error where it has no positive int64.
  pub group_rows-groups :
      (input : RowsInput)
      → group_rows col input ≡ (do
        rows ← get_rows_from_input input
        checked max_groups rows
        ok (filled (groups 0 max_groups rows)))
  unfolding group_rows
  group_rows-groups input = elim (Outcome-cases (get_rows_from_input input)) [
    | inr (e, bad) ↦ rw bad refl
    | inl (rows, good) ↦
        rw (good, empty_slots-groups 0 max_groups, fill_slots-groups max_groups rows [])
          (after_check (checked max_groups rows) (groups 0 max_groups rows))
  ]
