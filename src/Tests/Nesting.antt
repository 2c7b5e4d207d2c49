-- ===== src/Tests/Nesting.antt =====
-- A suite of one test, whose only case refers to a file with one case.
use apitest.Base.{
  ℕ, ◌+◌, ◌≡◌, refl, Bool, true, false, String, Option, some, List, [], ◌∷◌, Outcome, ok, err,
  str_eq, cut_at, arith, ◌≤◌, ◌>>=◌,
}
use apitest.Base.Int.{negsuc}
use apitest.Json.{Value, object, end}
use apitest.Json.Number.{parse_int}
use apitest.PathSpec.{PathSpec, PathError, parse_path_spec, is_path_spec}
use apitest.Suite.Nested.{
  Calls, LoadError, Run, parsing_spec, wrap, load_manifest_data, path_spec_of, run,
}
use apitest.Suite.Nested.Results.{Keeps}
use apitest.Suite.Nested.Passed.{IsSmall, run-Kept}

abbrev cases_of : Bool → List String
cases_of true = "case" ∷ []
cases_of false = "\"x" ∷ []

-- The state counts the cases that were run. The text "[" is that of the file.
abbrev calls : Calls ℕ Bool
calls = record {
  dir = λ p. "";
  join = λ d p. p;
  load_contents = λ d spec. ok "[";
  marshal = λ v. ok "[a";
  render = λ loader raw d s. (ok raw, s);
  unmarshal_list = λ s. ok (cases_of (str_eq s "["));
  unmarshal_raw = λ s. err "no list";
  unmarshal_string = λ s. ok "@b";
  unmarshal_case = λ s. ok false;
  continue_on_failure = λ t. t;
  run_api_test_case = λ file loader index t s. (true, s + 1);
  new_child = λ k s. s;
  leave = λ b s. s;
  set_name = λ file s. s;
  log = λ e s. s;
  log_load = λ e s. s;
}

abbrev tests : List Value
tests = object end ∷ []

one_case-run : run calls 2 "m" (negsuc 0) tests 0 ≡ some (true, 1)
unfolding run parse_path_spec is_path_spec parse_int cut_at
one_case-run = refl

abbrev depth_if : Bool → ℕ
depth_if true = 0
depth_if false = 1

abbrev depth : String → String → ℕ
depth file s = depth_if (str_eq s "[")

abbrev text_of : Outcome LoadError (Option PathSpec × String) → String
text_of (ok (spec, raw)) = raw
text_of (err e) = ""

loaded : (r : Outcome PathError PathSpec) → Outcome LoadError (Option PathSpec × String)
loaded r = do sp ← wrap calls parsing_spec r; text ← ok "["; ok (some sp, text)

calls-Keeps : Keeps calls (λ s. 5 ≤ s)
unfolding apitest.Suite.Nested.ran
calls-Keeps = record {
  render = λ loader raw d s i. i;
  set_name = λ file s i. i;
  new_child = λ k s i. i;
  leave = λ b s i. i;
  passes = λ file loader index t s i e. omega (arith, i);
}

test-IsSmall : IsSmall calls "m" (object end)
unfolding load_manifest_data
test-IsSmall spec raw e = cc

six-run : run calls 2 "m" (negsuc 0) tests 5 ≡ some (true, 6)
unfolding run parse_path_spec is_path_spec parse_int cut_at
six-run = refl

run-Kept_example : 5 ≤ 6
run-Kept_example =
    run-Kept calls (λ s. 5 ≤ s) calls-Keeps 2 "m" (negsuc 0) tests 5 6 (test-IsSmall, tt) six-run
      (omega arith)
