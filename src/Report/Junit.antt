-- ===== src/Report/Junit.antt =====
-- parsing_functions.go: the JUnit report of an aggregated element. The fields Failure and
-- ExecutionTime, which the tree leaves out, are functions of an element.
pub mod Failures
use apitest.Base.{
  ℕ, zero, suc, ◌+◌, ◌-◌, Bool, true, false, not, ◌&&◌, String, Option, none, some, List, [], ◌∷◌,
  ◌++◌, length, is_empty, ltb, code, ◌==◌, str_eq, if◌then◌else◌, ◌<>◌, ◌≡◌, ◌↔◌, refl, ap, ◌∙◌,
  arith,
}
use apitest.Base.Decimal.{decimal}
use apitest.Report.{
  Element, Elements, element, no_elements, more, failures, test_count, sub_tests, get_log, flat,
}
use apitest.Report.Stats.{iterative_digits_count}

pub record Failure : Type 0 where
  pub type : String
  pub message : String

pub record TestCase (D : Type 0) : Type 0 where
  pub id : String
  pub name : String
  pub time : D
  pub failure : Option Failure

pub record TestSuite (D : Type 0) : Type 0 where
  pub id : String
  pub name : String
  pub time : D
  pub failures : ℕ
  pub tests : ℕ
  pub failure : Option Failure
  pub cases : List (TestCase D)

pub record Root (D : Type 0) : Type 0 where
  pub name : String
  pub time : D
  pub failures : ℕ
  pub tests : ℕ
  pub suites : List (TestSuite D)

-- strings.Replace(name, ".", ":", -1)
unfoldable pub colons : String → String
colons String.[] = ""
colons (String.◌∷◌ c s) =
    let rest = colons s in if code c == b'.' then String.◌∷◌ ":" rest else String.◌∷◌ c rest

unfoldable pub name_of : Element → String
name_of (element f t name log subs) = name

unfoldable pub has_subs : Elements → Bool
has_subs no_elements = false
has_subs (more e es) = true

unfoldable pub text_length : String → ℕ
text_length String.[] = 0
text_length (String.◌∷◌ c s) = suc (text_length s)

unfoldable pub pad_zeros : ℕ → String → String
pad_zeros zero s = s
pad_zeros (suc n) s = String.◌∷◌ "0" (pad_zeros n s)

-- "[%0<padding>d] %s"
unfoldable pub case_name : ℕ → ℕ → String → String
unfolding pad_zeros text_length decimal colons
case_name padding ik name =
    "[" <> (pad_zeros (padding - text_length (decimal ik)) (decimal ik) <> ("] " <> colons name))

unfoldable pub message_of : String → List String → String
message_of message [] = message
message_of message (jv ∷ log) = message_of (message <> ("\n\n" <> jv)) log

-- An element that counts a failure, and whose log is not empty.
unfoldable pub case_failure : ℕ → List String → Option Failure
unfolding message_of
case_failure failed log =
    if ltb 0 failed && not (str_eq (message_of "" log) "")
    then some (record { type = "ERROR"; message = message_of "" log })
    else none

unfoldable pub suite_failure : String → Option Failure
suite_failure message =
    if str_eq message "" then none else some (record { type = "ERROR"; message = message })

module _ {D : Type 0} (no_time : D) (seconds : Element → D) (own_failure : Element → String) where
  unfoldable pub junit_case : ℕ → ℕ → Element → TestCase D
  unfolding decimal case_name name_of has_subs case_failure get_log
  junit_case padding ik iv = record {
    id = decimal ik;
    name = case_name padding ik (name_of iv);
    time = if has_subs (sub_tests iv) then no_time else seconds iv;
    failure = case_failure (failures iv) (get_log iv);
  }

  unfoldable pub junit_cases : ℕ → ℕ → List Element → List (TestCase D)
  unfolding junit_case
  junit_cases padding ik [] = []
  junit_cases padding ik (iv ∷ ivs) = junit_case padding ik iv ∷ junit_cases padding (suc ik) ivs

  unfoldable pub junit_suite : ℕ → Element → TestSuite D
  unfolding junit_cases decimal colons name_of suite_failure flat iterative_digits_count
  junit_suite k v =
      let subs = flat (sub_tests v) in
      record {
        id = decimal k;
        name = colons (name_of v);
        time = seconds v;
        failures = failures v;
        tests = test_count v;
        failure = suite_failure (own_failure v);
        cases = junit_cases (iterative_digits_count (length subs)) 0 subs;
      }

  unfoldable pub junit_suites : ℕ → Elements → List (TestSuite D)
  unfolding junit_suite
  junit_suites k no_elements = []
  junit_suites k (more v vs) = junit_suite k v ∷ junit_suites (suc k) vs

  -- The result before it is marshaled; `now` is the time of the report as a text.
  unfoldable pub parse_junit_result : String → Element → Root D
  unfolding junit_suites
  parse_junit_result now base = record {
    name = now;
    time = seconds base;
    failures = failures base;
    tests = test_count base;
    suites = junit_suites 0 (sub_tests base);
  }
