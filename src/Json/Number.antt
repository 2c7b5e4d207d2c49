-- ===== src/Json/Number.antt =====
-- json.Number.Int64 and strconv.ParseInt(s, 10, 64), which strconv.Atoi agrees with on 64 bits.
use apitest.Base.{
  ℕ, ◌+◌, ◌-◌, ◌*◌, ◌^◌, Bool, ◌&&◌, String, Option, none, some, code, leb, ◌==◌, if◌then◌else◌,
  ◌≡◌, refl,
}
use apitest.Base.Int.{ℤ, pos, negsuc}

abbrev pub max_int64 : ℕ
max_int64 = 2 ^ 63 - 1

abbrev pub is_digit : ℕ → Bool
is_digit c = leb b'0' c && leb c b'9'

-- The digits behind `acc`; the empty text is handled by the caller.
unfoldable pub digits : ℕ → String → Option ℕ
digits acc String.[] = some acc
digits acc (String.◌∷◌ c s) =
    let rest = digits (acc * 10 + (code c - b'0')) s in if is_digit (code c) then rest else none

-- At least one digit.
unfoldable pub magnitude : String → Option ℕ
magnitude String.[] = none
magnitude (String.◌∷◌ c s) = digits 0 (String.◌∷◌ c s)

unfoldable pub to_positive : Option ℕ → Option ℤ
to_positive none = none
to_positive (some n) = if leb n max_int64 then some (pos n) else none

unfoldable pub to_negative : Option ℕ → Option ℤ
to_negative none = none
to_negative (some n) =
    if n == 0 then some (pos 0) else if leb n (max_int64 + 1) then some (negsuc (n - 1)) else none

unfoldable pub parse_int : String → Option ℤ
unfolding to_positive to_negative magnitude digits
parse_int String.[] = none
parse_int (String.◌∷◌ c s) =
    if code c == b'-'
    then to_negative (magnitude s)
    else if code c == b'+'
    then to_positive (magnitude s)
    else to_positive (magnitude (String.◌∷◌ c s))

parse_int_tests : (parse_int "-12" ≡ some (negsuc 11)) × (parse_int "9223372036854775808" ≡ none)
unfolding parse_int
parse_int_tests = (refl, refl)
