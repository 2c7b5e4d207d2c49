-- ===== src/PathSpec/Parsing.antt =====
-- What a text must be to be read as a reference to a file.
use Prim.Native.String.append
use apitest.Base.{
  ◌≡◌, refl, Bool, true, false, ◌||◌, ◌&&◌, not, String, Option, none, some, ◌>>=◌, str_eq, cut_at,
  has_char, ◌<>◌, arith,
}
use apitest.Base.Int.{ℤ, pos, ltb_ℤ}
use apitest.Json.Number.{parse_int}
use apitest.PathSpec.{cut, number_of_runs, check_spec, parse_path_spec, is_path_spec, is_ok}

cut_at-append :
    (pre path : String)
    → has_char b'@' pre ≡ false
    → cut_at b'@' (pre <> ("@" <> path)) ≡ some (pre, path)
unfolding cut_at has_char
cut_at-append String.[] path h = rw append.nil (rw append.cons (rw append.nil refl))
cut_at-append (String.◌∷◌ c pre) path h =
    let rest : has_char b'@' pre ≡ false = ground (arith, h) in
    rw append.cons (ground (arith, h, cut_at-append pre path rest))

cut_at-none : (s : String) → has_char b'@' s ≡ false → cut_at b'@' s ≡ none
unfolding cut_at has_char
cut_at-none String.[] h = refl
cut_at-none (String.◌∷◌ c s) h =
    let rest : has_char b'@' s ≡ false = ground (arith, h) in ground (arith, h, cut_at-none s rest)

-- A number that is not negative.
abbrev pub is_natural : Option ℤ → Bool
is_natural none = false
is_natural (some n) = not (ltb_ℤ n (pos 0))

accepted :
    (s runs path : String) (n : Option ℤ)
    → is_ok (do
      m ← number_of_runs s runs n
      check_spec s true (record { parallel_runs = m; path = path }))
      ≡ (str_eq runs "" || is_natural n) && not (str_eq path "")
unfolding number_of_runs check_spec
accepted s runs path none = ground arith
accepted s runs path (some n) = ground arith

-- A text with an @ is a reference to a file exactly if a path stands behind the first @, and before
-- it nothing or a number that is not negative; 0 is such a number.
pub is_path_spec-at :
    (runs path : String)
    → has_char b'@' runs ≡ false
    → is_path_spec (runs <> ("@" <> path))
      ≡ (str_eq runs "" || is_natural (parse_int runs)) && not (str_eq path "")
unfolding is_path_spec parse_path_spec cut
is_path_spec-at runs path h =
    rw (cut_at-append runs path h, accepted (runs <> ("@" <> path)) runs path (parse_int runs))

refused :
    (s : String) (n : Option ℤ)
    → is_ok
        (do m ← number_of_runs s s n; check_spec s false (record { parallel_runs = m; path = "" }))
      ≡ false
unfolding number_of_runs check_spec
refused s none = ground arith
refused s (some n) = ground arith

-- A text without an @ is no reference to a file.
pub is_path_spec-plain : (s : String) → has_char b'@' s ≡ false → is_path_spec s ≡ false
unfolding is_path_spec parse_path_spec cut
is_path_spec-plain s h = rw (cut_at-none s h, refused s (parse_int s))
