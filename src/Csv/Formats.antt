-- ===== src/Csv/Formats.antt =====
-- The formats of a table's columns: what the header accepts, and what getTyped knows.
use apitest.Base.{
  ◌≡◌, refl, ap, sym, ◌∙◌, Bool, true, false, ◌||◌, String, str_eq, mem_str, if◌then◌else◌, arith,
}
use apitest.Csv.{is_valid_format, strip_star, valid_formats}
use apitest.Csv.Cells.{Format, no_format, format_of}

-- getTyped has a case for the format.
abbrev pub is_known : Format → Bool
is_known no_format = false
is_known _ = true

known_if :
    (b : Bool) (x y : Format) {r : Bool}
    → is_known x ≡ true
    → is_known y ≡ r
    → is_known (if b then x else y) ≡ b || r
known_if true x y h k = h
known_if false x y h k = k

-- A Boolean for each format, in the order of the list and in the order of the cases.
reorder :
    (s sa i ia n na f fa b ba j : Bool)
    → (s || (sa || (i || (ia || (n || (na || (f || (fa || (b || (ba || (j || false)))))))))))
      ≡ (s || (i || (n || (f || (b || (sa || (ia || (fa || (ba || (j || false)))))))))) || na
reorder s sa i ia n na f fa b ba j = ground arith

mem_valid_formats :
    (f : String) → mem_str f valid_formats ≡ is_known (format_of f) || str_eq "int,array" f
unfolding format_of
mem_valid_formats f =
    let is = λ (x : String). str_eq x f in
    reorder (is "string") (is "string,array") (is "int64") (is "int64,array") (is "int")
      (is "int,array") (is "float64") (is "float64,array") (is "bool") (is "bool,array") (is "json")
    ∙ ap (λ k. k || str_eq "int,array" f)
        (sym (
          known_if (is "string") _ _ refl (
            known_if (is "int64") _ _ refl (
              known_if (is "int") _ _ refl (
                known_if (is "float64") _ _ refl (
                  known_if (is "bool") _ _ refl (
                    known_if (is "string,array") _ _ refl (
                      known_if (is "int64,array") _ _ refl (
                        known_if (is "float64,array") _ _ refl (
                          known_if (is "bool,array") _ _ refl
                            (known_if (is "json") _ _ refl refl)))))))))))

-- The header accepts exactly the formats, with or without the mark of a pointer, that a cell can
-- have, and int,array, which no cell can have.
pub is_valid_format-known :
    (format : String)
    → is_valid_format format
      ≡ is_known (format_of (strip_star format).1) || str_eq "int,array" (strip_star format).1
unfolding is_valid_format
is_valid_format-known format = mem_valid_formats (strip_star format).1
