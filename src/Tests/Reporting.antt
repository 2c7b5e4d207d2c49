-- ===== src/Tests/Reporting.antt =====
-- A report of two cases, of which the second failed.
use apitest.Base.{ℕ, List, none, some, arith, ◌≡◌, refl, true, false, [], ◌∷◌}
use apitest.Report.{
  Element, element, no_elements, more, new_element, new_child, append_element, leave,
  save_to_report_log, set_name, did_fail, flat, get_log,
}
use apitest.Report.Junit.{junit_case, case_name}
use apitest.Report.Totals.{aggregated, did_fail-aggregated}
use apitest.Report.Stats.{
  Timed, StatsElement, parse_json_stats_result, zeros, iterative_digits_count,
}
use apitest.Report.Stats.Balance.{IsSpread}
use apitest.Report.Stats.Groups.{parse_json_stats_result-IsSpread}

abbrev failing_case : Element
failing_case = element 1 1 "second" ("[a] is b" ∷ []) no_elements

abbrev root : Element
root = element 0 0 "" [] (more (element 0 1 "first" [] no_elements) (more failing_case no_elements))

failing_case-built :
    leave false (save_to_report_log "[a] is b" (set_name "second" (new_element ""))) ≡ failing_case
unfolding leave save_to_report_log set_name
failing_case-built = refl

child-built :
    new_child "first" (new_element "") ≡ element 0 0 "" [] (more (new_element "first") no_elements)
unfolding new_child append_element
child-built = refl

did_fail-aggregated_example : did_fail (aggregated 2 root) ≡ true
unfolding flat
did_fail-aggregated_example = did_fail-aggregated 2 root

abbrev timed : List Timed
timed =
    record { name = "a"; start_time = 100; execution_time = 20 }
    ∷ record { name = "b"; start_time = 120; execution_time = 30 }
    ∷ record { name = "c"; start_time = 150; execution_time = 15 }
    ∷ []

two_groups :
    parse_json_stats_result 2 timed
    ≡ some (
      30 ∷ 35 ∷ [],
      record { group = 1; path = "a"; started_at = 100; ended_at = 120; runtime_ms = 0 }
          ∷ record { group = 0; path = "b"; started_at = 120; ended_at = 150; runtime_ms = 0 }
          ∷ record { group = 1; path = "c"; started_at = 150; ended_at = 165; runtime_ms = 0 }
          ∷ [],
    )
unfolding parse_json_stats_result
two_groups = refl

parse_json_stats_result-IsSpread_example :
    (gs : List ℕ) × (ms : List StatsElement) × (parse_json_stats_result 2 timed ≡ some (gs, ms))
    × IsSpread 30 timed (zeros 2) gs
parse_json_stats_result-IsSpread_example =
    parse_json_stats_result-IsSpread 2 30 timed (omega arith)
      (omega arith, (omega arith, (omega arith, tt))) (omega arith)

four_digits : iterative_digits_count 1234 ≡ 4
unfolding iterative_digits_count
four_digits = refl

junit-failure :
    (junit_case {D = ℕ} 0 (λ e. 1) (λ e. "") 1 0 failing_case).failure
    ≡ some (record { type = "ERROR"; message = "\n\n[a] is b" })
unfolding junit_case get_log
junit-failure = refl

silent-failure :
    (junit_case {D = ℕ} 0 (λ e. 1) (λ e. "") 1 0 (element 1 1 "a.b" [] no_elements)).failure ≡ none
unfolding junit_case get_log
silent-failure = refl

case-named : case_name 2 3 "a.b" ≡ "[03] a:b"
unfolding case_name
case-named = refl
