-- ===== src/Tests/Suites.antt =====
-- References to files, and a parallel run of two threads with one test case each.
use apitest.Base.{ℕ, ◌≡◌, ◌↔◌, refl, true, false, List, [], ◌∷◌, ok, cut_at, arith}
use apitest.Base.Int.{pos}
use apitest.Json.Number.{parse_int}
use apitest.PathSpec.{parse_path_spec, is_path_spec}
use apitest.Suite.{
  Thread, State, Steps, starting, running, returned, loads, passes, fails, counts, step, stop,
  then_step, start, run_result,
}
use apitest.Suite.Invariant.{AllPassed, run_result_iff}

five-parsed :
    parse_path_spec "5@bar.json" ≡ ok (record { parallel_runs = pos 5; path = "bar.json" })
unfolding parse_path_spec cut_at parse_int
five-parsed = refl

none-parsed :
    parse_path_spec "0@foobar.json" ≡ ok (record { parallel_runs = pos 0; path = "foobar.json" })
unfolding parse_path_spec cut_at parse_int
none-parsed = refl

negative-refused : is_path_spec "-1@foo.json" ≡ false
unfolding is_path_spec cut_at parse_int
negative-refused = refl

plain-refused : is_path_spec "bar.json" ≡ false
unfolding is_path_spec cut_at parse_int
plain-refused = refl

abbrev both : List ℕ
both = 1 ∷ 1 ∷ []

abbrev state : Thread → Thread → ℕ → State
state s t n = record { threads = s ∷ t ∷ []; success_count = n }

-- The second thread fails at its case while the first goes on.
abbrev one_fails : Steps 5 (start both) (state (returned true) (returned false) 1)
one_fails =
    then_step
      (then_step
        (then_step
          (then_step (then_step stop (step [] (starting 1) (running 1) (starting 1 ∷ []) 0 0 loads))
            (step (running 1 ∷ []) (starting 1) (running 1) [] 0 0 loads))
          (step [] (running 1) (running 0) (running 1 ∷ []) 0 0 passes))
        (step (running 0 ∷ []) (running 1) (returned false) [] 0 0 fails))
      (step [] (running 0) (returned true) (returned false ∷ []) 0 1 counts)

run_result_iff_example :
    (run_result 2 (state (returned true) (returned false) 1) ≡ true)
    ↔ AllPassed (returned true ∷ returned false ∷ [])
run_result_iff_example =
    run_result_iff both 5 (state (returned true) (returned false) 1) (omega arith) one_fails tt
