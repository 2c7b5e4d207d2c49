-- ===== src/Main/Exits.antt =====
-- What the exit code 0 says of the suites.
use apitest.Base.{
  ℕ, ◌+◌, ◌≤◌, ◌<◌, Bool, true, false, not, ◌&&◌, String, Option, List, [], ◌∷◌, map, if◌then◌else◌,
  if_elim, ◌≡◌, refl, ap, ◌∙◌, arith,
}
use apitest.Base.Dict.{Dict}
use apitest.Json.{Value}
use apitest.Host.{Host}
use apitest.Report.{
  Element, Elements, element, no_elements, more, new_element, append_element, leave, flat,
  flat_subs, failures,
}
use apitest.Report.Totals.{sum, sum-append, recorded, did_fail-aggregated}
use apitest.Main.{
  Tree, RunSuite, run_single_test, add_child, run_tests, chosen_tests, exit_code, valid_paths,
  run_api_tests, extract_test_directories, configured_directories,
}

abbrev failing : Element → ℕ
failing e = failures e + sum (map failures (flat_subs e))

flat-append_element :
    (ss : Elements) (e : Element)
    → sum (map failures (flat (append_element ss e))) ≡ sum (map failures (flat ss)) + failing e
unfolding append_element flat
flat-append_element no_elements e =
    let split = sum-append failures (flat_subs e) [] in omega (arith, split)
flat-append_element (more s ss) e =
    let old = sum-append failures (flat_subs s) (flat ss) in
    let new = sum-append failures (flat_subs s) (flat (append_element ss e)) in
    omega (arith, old, new, flat-append_element ss e)

recorded-add_child :
    (root child : Element)
    → recorded failures (add_child root child) ≡ recorded failures root + failing child
unfolding add_child
recorded-add_child (element f t n log subs) child = omega (arith, flat-append_element subs child)

failing-leave : (e : Element) → 0 < failing (leave false e)
unfolding leave
failing-leave (element f t n log subs) = omega arith

-- What follows of one suite and those behind it if the report has no failure.
goes_on :
    (success stop : Bool) (child root m rest : Element)
    → recorded failures (add_child root (leave success child)) ≤ recorded failures rest
    → (if stop && not success then add_child root (leave success child) else rest) ≡ m
    → recorded failures m ≡ 0
    → (success ≡ true) × (recorded failures rest ≡ 0)
goes_on true true child root m rest grows e quiet = (refl, ap (recorded failures) e ∙ quiet)
goes_on true false child root m rest grows e quiet = (refl, ap (recorded failures) e ∙ quiet)
goes_on false true child root m rest grows e quiet =
    let added = recorded-add_child root (leave false child) in
    absurd (omega (arith, added, failing-leave child, ap (recorded failures) e, quiet))
goes_on false false child root m rest grows e quiet =
    let added = recorded-add_child root (leave false child) in
    absurd (omega (arith, added, failing-leave child, ap (recorded failures) e, quiet, grows))

not_one : (b : Bool) (n : ℕ) → (if b then n else 1) ≡ 0 → n ≡ 0
not_one true n h = h
not_one false n h = absurd (omega (arith, h))

root_of_branches :
    {W : Type 0} (b : Bool) (x y : Element × W) → (if b then x.0 else y.0) ≡ (if b then x else y).0
root_of_branches true x y = refl
root_of_branches false x y = refl

module _ (host : Host) (store_init : Dict Value) {W : Type 0} (run : RunSuite W) where
  -- Each suite returns true, in the state that the one before it left.
  abbrev pub AllSucceed : List (String × String) → W → Type 0
  AllSucceed [] w = Unit {0}
  AllSucceed ((name, path) ∷ tests) w =
      let got = run_single_test host store_init run path (new_element name) w in
      (got.0 ≡ true) × AllSucceed tests got.1.1

  run_tests-grows :
      (stop : Bool) (tests : List (String × String)) (root : Element) (w : W)
      → recorded failures root
        ≤ recorded failures (run_tests host store_init run stop tests root w).0
  unfolding run_tests
  run_tests-grows stop [] root w = omega arith
  run_tests-grows stop ((name, path) ∷ tests) root w =
      let got = run_single_test host store_init run path (new_element name) w in
      let root' = add_child root (leave got.0 got.1.0) in
      let added = recorded-add_child root (leave got.0 got.1.0) in
      if_elim (λ (p : Element × W). recorded failures root ≤ recorded failures p.0)
        (stop && not got.0) (root', got.1.1)
        (run_tests host store_init run stop tests root' got.1.1) (λ e. omega (arith, added))
        (λ ne. omega (arith, added, run_tests-grows stop tests root' got.1.1))

  run_tests-AllSucceed :
      (stop : Bool) (tests : List (String × String)) (root : Element) (w : W)
      → recorded failures (run_tests host store_init run stop tests root w).0 ≡ 0
      → AllSucceed tests w
  unfolding run_tests
  run_tests-AllSucceed stop [] root w h = tt
  run_tests-AllSucceed stop ((name, path) ∷ tests) root w h =
      let got = run_single_test host store_init run path (new_element name) w in
      let root' = add_child root (leave got.0 got.1.0) in
      let rest = run_tests host store_init run stop tests root' got.1.1 in
      let (succeeded, quiet) =
        goes_on got.0 stop got.1.0 root _ rest.0 (run_tests-grows stop tests root' got.1.1)
          (root_of_branches (stop && not got.0) (root', got.1.1) rest) h in
      (succeeded, run_tests-AllSucceed stop tests root' got.1.1 quiet)

  exit_code-quiet : (root : Element) → exit_code root ≡ 0 → recorded failures root ≡ 0
  unfolding exit_code
  exit_code-quiet root h = ground (arith, did_fail-aggregated 0 root)

  -- The program exits with 0 only if every suite was run and returned true: those of the single
  -- tests, or of the directories that were found.
  pub run_api_tests-AllSucceed :
      (abs_path : String → String) (join : String → String → String) (exists : String → Bool)
      (fs : String → Option Tree) (stop : Bool) (singles roots : List String) (w : W)
      → run_api_tests host store_init run abs_path join exists fs stop singles roots w ≡ 0
      → AllSucceed
          (chosen_tests abs_path join singles
            (configured_directories (extract_test_directories fs roots)))
          w
  unfolding run_api_tests
  run_api_tests-AllSucceed abs_path join exists fs stop singles roots w h =
      let tests =
        chosen_tests abs_path join singles
          (configured_directories (extract_test_directories fs roots)) in
      run_tests-AllSucceed stop tests (new_element "") w (
        exit_code-quiet (run_tests host store_init run stop tests (new_element "") w).0
          (not_one (valid_paths exists "." roots && valid_paths exists "" singles) _ h))
