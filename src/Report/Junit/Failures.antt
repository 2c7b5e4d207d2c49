-- ===== src/Report/Junit/Failures.antt =====
-- Which test cases of a JUnit report are failures.
use Prim.Native.String.append
use apitest.Base.{
  ℕ, suc, ◌+◌, ◌≤◌, Bool, not, ◌&&◌, String, Option, none, some, List, [], ◌∷◌, length, is_empty,
  ltb, str_eq, if◌then◌else◌, ◌<>◌, ◌≡◌, refl, ap, ◌∙◌, arith, eq_iff, Bool-cases, inl, inr,
}
use apitest.Report.{Element, failures, sub_tests, get_log, flat}
use apitest.Report.Junit.{
  Failure, TestCase, text_length, message_of, case_failure, junit_case, junit_cases, junit_suite,
}

text_length-append : (s t : String) → text_length (s <> t) ≡ text_length s + text_length t
unfolding text_length
text_length-append String.[] t = rw append.nil (omega arith)
text_length-append (String.◌∷◌ c s) t = rw append.cons (omega (arith, text_length-append s t))

message_of-grows :
    (message : String) (log : List String)
    → text_length message ≤ text_length (message_of message log)
unfolding message_of
message_of-grows message [] = omega arith
message_of-grows message (jv ∷ log) = omega (
  arith,
  text_length-append message ("\n\n" <> jv),
  message_of-grows (message <> ("\n\n" <> jv)) log,
)

message_of-is_empty : (log : List String) → str_eq (message_of "" log) "" ≡ is_empty log
unfolding message_of text_length
message_of-is_empty [] = refl
message_of-is_empty (jv ∷ log) = elim (Bool-cases (str_eq (message_of "" (jv ∷ log)) "")) [
  | inr ne ↦ ne
  | inl e ↦
      let text = "" <> ("\n\n" <> jv) in
      let no_text : text_length (message_of text log) ≡ 0 =
        ap text_length ((eq_iff (message_of "" (jv ∷ log)) "").0 e) in
      absurd (
        omega (
          arith,
          no_text,
          message_of-grows text log,
          text_length-append "" ("\n\n" <> jv),
          text_length-append "\n\n" jv,
        ))
]

-- An element counts a failure that it, or what is below it, has logged.
abbrev pub is_failed : Element → Bool
is_failed e = ltb 0 (failures e) && not (is_empty (get_log e))

abbrev pub count_failed : List Element → ℕ
count_failed [] = 0
count_failed (e ∷ es) = let rest = count_failed es in if is_failed e then suc rest else rest

abbrev add_failure : Option Failure → ℕ → ℕ
add_failure none n = n
add_failure (some f) n = suc n

case_failure-is_failed :
    (failed : ℕ) (log : List String) (n : ℕ)
    → add_failure (case_failure failed log) n
      ≡ (if ltb 0 failed && not (is_empty log) then suc n else n)
unfolding case_failure
case_failure-is_failed failed log n =
    rw (message_of-is_empty log) (elim (Bool-cases (ltb 0 failed && not (is_empty log))) [
      | inl e ↦ rw e refl
      | inr ne ↦ rw ne refl
    ])

module _ {D : Type 0} (no_time : D) (seconds : Element → D) (own_failure : Element → String) where
  abbrev pub failed_cases : List (TestCase D) → ℕ
  failed_cases [] = 0
  failed_cases (c ∷ cs) = add_failure c.failure (failed_cases cs)

  junit_cases-failed_cases :
      (padding ik : ℕ) (es : List Element)
      → failed_cases (junit_cases no_time seconds own_failure padding ik es) ≡ count_failed es
  unfolding junit_cases junit_case
  junit_cases-failed_cases padding ik [] = refl
  junit_cases-failed_cases padding ik (e ∷ es) =
      ap (add_failure (case_failure (failures e) (get_log e)))
        (junit_cases-failed_cases padding (suc ik) es)
      ∙ case_failure-is_failed (failures e) (get_log e) (count_failed es)

  length-junit_cases :
      (padding ik : ℕ) (es : List Element)
      → length (junit_cases no_time seconds own_failure padding ik es) ≡ length es
  unfolding junit_cases
  length-junit_cases padding ik [] = refl
  length-junit_cases padding ik (e ∷ es) = ap suc (length-junit_cases padding (suc ik) es)

  -- A test suite of the JUnit report has a test case for each element below its own, and as many of
  -- them are failures as elements count one and have logged something, or have elements below them
  -- that have.
  pub junit_suite-count_failed :
      (k : ℕ) (v : Element)
      → (length (junit_suite no_time seconds own_failure k v).cases ≡ length (flat (sub_tests v)))
        × (failed_cases (junit_suite no_time seconds own_failure k v).cases
            ≡ count_failed (flat (sub_tests v)))
  unfolding junit_suite
  junit_suite-count_failed k v = (
    length-junit_cases _ 0 (flat (sub_tests v)),
    junit_cases-failed_cases _ 0 (flat (sub_tests v)),
  )
