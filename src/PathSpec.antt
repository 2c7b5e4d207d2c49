-- ===== src/PathSpec.antt =====
-- pkg/lib/util/path_util.go: `[n]@file.json`, a reference to a file with the number of its parallel
-- runs. Loading the file is left out.
pub mod Parsing
use apitest.Base.{
  ℕ, Bool, true, false, not, ◌||◌, String, Option, none, some, Outcome, ok, err, ◌>>=◌, str_eq,
  cut_at, if◌then◌else◌,
}
use apitest.Base.Int.{ℤ, pos, ltb_ℤ}
use apitest.Json.Number.{parse_int}

pub record PathSpec : Type 0 where
  pub parallel_runs : ℤ
  pub path : String

pub data PathError : Type 0 where
  parsing_runs invalid_spec : String → PathError

-- strings.Cut(s, "@")
unfoldable pub cut : String → Option (String × String) → String × (String × Bool)
cut s none = (s, ("", false))
cut s (some (pre, path)) = (pre, (path, true))

unfoldable pub number_of_runs : String → String → Option ℤ → Outcome PathError ℤ
number_of_runs s runs none = if str_eq runs "" then ok (pos 1) else err (parsing_runs s)
number_of_runs s runs (some n) = if str_eq runs "" then ok (pos 1) else ok n

unfoldable pub check_spec : String → Bool → PathSpec → Outcome PathError PathSpec
check_spec s found spec =
    if not found || str_eq spec.path "" || ltb_ℤ spec.parallel_runs (pos 0)
    then err (invalid_spec s)
    else ok spec

unfoldable pub parse_path_spec : String → Outcome PathError PathSpec
unfolding cut number_of_runs check_spec
parse_path_spec s =
    let (runs, (path, found)) = cut s (cut_at b'@' s) in
    do
      n ← number_of_runs s runs (parse_int runs)
      check_spec s found (record { parallel_runs = n; path = path })

abbrev pub is_ok : {A : Type 0} → Outcome PathError A → Bool
is_ok (ok a) = true
is_ok (err e) = false

unfoldable pub is_path_spec : String → Bool
unfolding parse_path_spec
is_path_spec s = is_ok (parse_path_spec s)
