-- ===== src/Conversions/Sheets.antt =====
-- Which sheets of a workbook Xlsx2Json refuses.
use apitest.Base.{
  ℕ, ◌||◌, Bool, true, false, not, if_elim, String, List, Outcome, ok, err, ◌>>=◌, ◌≡◌, refl, ap,
  ◌↔◌, ltb, str_eq, if◌then◌else◌, Bool-cases, inl, inr, arith,
}
use apitest.Base.Int.{ℤ, pos, negsuc, ltb_ℤ, leb_ℤ, sub_ℕ}
use apitest.Host.{Host}
use apitest.Json.{Value}
use apitest.Csv.{Row}
use apitest.Csv.Readers.{generic_csv_to_map}
use apitest.Conversions.{
  Workbook, Parsers, ConversionError, parsing, to_json, into_csv, invalid_sheet, no_sheet,
  parsing_csv, wrapped, sheet_of, xlsx_to_json,
}

-- The sheets are numbered from 0.
abbrev pub is_sheet : ℤ → ℕ → Bool
is_sheet (pos n) count = ltb n count
is_sheet (negsuc n) count = false

-- Whether an error says that the index is out of range, and whether an outcome is one.
abbrev is_range_error : ConversionError → Bool
is_range_error (invalid_sheet idx last) = true
is_range_error _ = false

abbrev is_refused : {A : Type 0} → Outcome ConversionError A → Bool
is_refused (ok a) = false
is_refused (err e) = is_range_error e

bind-is_refused :
    {A B : Type 0} (m : Outcome ConversionError A) (next : A → Outcome ConversionError B)
    → is_refused m ≡ false
    → ((a : A) → is_refused (next a) ≡ false)
    → is_refused (m >>= next) ≡ false
bind-is_refused (ok a) next h k = k a
bind-is_refused (err e) next h k = h

out_of_range :
    (idx : ℤ) (count : ℕ) → (ltb_ℤ idx (pos 0) || leb_ℤ (pos count) idx) ≡ not (is_sheet idx count)
out_of_range (pos n) count = ground arith
out_of_range (negsuc n) count = ground arith

module _ {M : Type 0} (parsers : Parsers M) where
  wrapped-is_refused :
      {E A : Type 0} (f : E → ConversionError) (m : Outcome E A)
      → ((e : E) → is_range_error (f e) ≡ false)
      → is_refused (wrapped parsers f m) ≡ false
  unfolding wrapped
  wrapped-is_refused f (ok a) h = refl
  wrapped-is_refused f (err e) h = h e

  named-is_refused :
      (name : String) (idx : ℤ)
      → is_refused (if str_eq name "" then err (no_sheet idx) else ok name) ≡ false
  named-is_refused name idx =
      if_elim (λ m. is_refused m ≡ false) (str_eq name "") (err (no_sheet idx)) (ok name)
        (λ e. refl) (λ ne. refl)

  sheet_of-is_refused :
      (wb : Workbook) (idx : ℤ)
      → is_sheet idx wb.sheet_count ≡ true
      → is_refused (sheet_of parsers wb idx) ≡ false
  unfolding sheet_of
  sheet_of-is_refused wb idx h =
      rw (out_of_range idx wb.sheet_count, h) (named-is_refused (wb.sheet_name idx) idx)

  module _ (host : Host) (render : String → ℕ → Outcome String (List Row))
      (unmarshal : String → Outcome String Value) where
    opened-is_refused :
        (raw : String) (idx : ℤ) (wb : Workbook)
        → parsers.open_reader raw ≡ ok wb
        → is_sheet idx wb.sheet_count ≡ true
        → is_refused (xlsx_to_json parsers host render unmarshal raw idx) ≡ false
    unfolding xlsx_to_json
    opened-is_refused raw idx wb opened h = rw opened (
        bind-is_refused (sheet_of parsers wb idx) _ (sheet_of-is_refused wb idx h) λ name.
          bind-is_refused (wrapped parsers parsing (wb.rows name)) _
            (wrapped-is_refused parsing (wb.rows name) λ e. refl)
            λ rows.
              bind-is_refused (wrapped parsers into_csv (parsers.write_rows rows)) _
                (wrapped-is_refused into_csv (parsers.write_rows rows) λ e. refl)
                λ csv.
                  bind-is_refused
                    (wrapped parsers parsing_csv
                      (generic_csv_to_map host render unmarshal csv b','))
                    _
                    (wrapped-is_refused parsing_csv
                      (generic_csv_to_map host render unmarshal csv b',') λ e. refl)
                    λ maps. wrapped-is_refused to_json (parsers.marshal maps) λ e. refl)

    -- A workbook that opens is refused with its range exactly if the index is none of its sheets'.
    pub xlsx_to_json-is_sheet :
        (raw : String) (idx : ℤ) (wb : Workbook)
        → parsers.open_reader raw ≡ ok wb
        → (xlsx_to_json parsers host render unmarshal raw idx
            ≡ err (invalid_sheet idx (sub_ℕ wb.sheet_count 1)))
          ↔ (is_sheet idx wb.sheet_count ≡ false)
    unfolding xlsx_to_json sheet_of
    xlsx_to_json-is_sheet raw idx wb opened = (
      λ refused. elim (Bool-cases (is_sheet idx wb.sheet_count)) [
        | inl e ↦
            let fine = opened-is_refused raw idx wb opened e in
            let bad : is_refused (xlsx_to_json parsers host render unmarshal raw idx) ≡ true =
              ap is_refused refused in
            cc
        | inr ne ↦ ne
      ],
      λ ne. rw (opened, out_of_range idx wb.sheet_count, ne) refl,
    )
