-- ===== src/Suite/Nested/Passed.antt =====
-- What a suite that succeeds says of its tests.
use apitest.Base.{
  ℕ, zero, suc, ◌^◌, ◌<◌, ◌≡◌, refl, subst, Bool, true, false, String, some, List, [], ◌∷◌, ok, All,
}
use apitest.Base.Int.{ℤ, pos_part}
use apitest.Json.{Value, str}
use apitest.PathSpec.{PathSpec}
use apitest.Suite.Nested.{
  Calls, Run, if_success, load_manifest_data, parse_and_run_test, run_tests, run, reference,
}
use apitest.Suite.Nested.Results.{Post, then_run-Post, weaken-Post, Keeps}
use apitest.Suite.Nested.Steps.{Kept, run_manifest-Kept}

-- The test asks for less than 2^32 runs, which the counter could not tell from none.
abbrev pub IsSmall : {S T : Type 0} → Calls S T → String → Value → Type 0
IsSmall h file v =
    (spec : PathSpec) (raw : String)
    → load_manifest_data h v (h.dir file) ≡ ok (some spec, raw)
    → pos_part spec.parallel_runs < 2 ^ 32

module _ {S T : Type 0} (h : Calls S T) (I : S → Type 0) (keeps : Keeps h I) where
  anything_occurs :
      (cs : List String) → All (λ c. (t : String) → reference h c ≡ some t → Unit {0}) cs
  anything_occurs [] = tt
  anything_occurs (c ∷ cs) = (λ t e. tt, anything_occurs cs)

  parse_and_run_test-Kept :
      (fuel : ℕ) (v : Value) (file : String) (root : ℤ) (allowed : Bool) (s : S)
      → (allowed ≡ true → IsSmall h file v)
      → Post
          (Unit {0})
          (Kept h (Unit {0}) (Unit {0}) I keeps s)
          (parse_and_run_test h fuel v file root allowed s)
  unfolding parse_and_run_test
  parse_and_run_test-Kept zero v file root allowed s small = tt
  parse_and_run_test-Kept (suc fuel) v file root allowed s small =
      run_manifest-Kept h (Unit {0}) (Unit {0}) I keeps _ (λ file' t. Unit {0})
        (λ t file' loader s' o.
          parse_and_run_test-Kept fuel (str t) file' loader false s'
            (λ a. absurd (let no : false ≡ true = a in cc)))
        file root allowed (load_manifest_data h v (h.dir file)) s
        (λ spec raw e a f. small a spec raw e)
        (λ spec raw e loader rendered s' cs er et. anything_occurs cs)

  run_tests_next :
      (next : S → Run S) (b : Bool) (s s' : S)
      → Kept h (Unit {0}) (Unit {0}) I keeps s b s'
      → ((s'' : S) → Post (Unit {0}) (Kept h (Unit {0}) (Unit {0}) I keeps s'') (next s''))
      → Post (Unit {0}) (Kept h (Unit {0}) (Unit {0}) I keeps s) (if_success next b (h.leave b s'))
  run_tests_next next false s s' k n = λ f e i. absurd (let no : false ≡ true = e in cc)
  run_tests_next next true s s' k n =
      weaken-Post (Unit {0}) _ _ (next (h.leave true s')) (n (h.leave true s'))
        (λ b s'' n' f e i. n' f e (keeps.leave true s' (k f refl i)))

  run_tests-Kept :
      (fuel : ℕ) (manifest : String) (loader : ℤ) (k : ℕ) (vs : List Value) (s : S)
      → All (IsSmall h manifest) vs
      → Post
          (Unit {0})
          (Kept h (Unit {0}) (Unit {0}) I keeps s)
          (run_tests h fuel manifest loader k vs s)
  unfolding run_tests
  run_tests-Kept fuel manifest loader k [] s small = λ f e i. i
  run_tests-Kept fuel manifest loader k (v ∷ vs) s (hv, small) =
      then_run-Post (Unit {0}) (Kept h (Unit {0}) (Unit {0}) I keeps (h.new_child k s)) _
        (parse_and_run_test h fuel v manifest loader true (h.new_child k s)) _
        (parse_and_run_test-Kept fuel v manifest loader true (h.new_child k s) (λ a. hv))
        (λ b s' kept.
          run_tests_next (run_tests h fuel manifest loader (suc k) vs) b s s'
            (λ f e i. kept f e (keeps.new_child k s i))
            (λ s''. run_tests-Kept fuel manifest loader (suc k) vs s'' small))

  -- What every passing test case keeps, one that fails and is allowed to included, and every
  -- rendering and reporting too, holds after a suite that succeeds if it held before, if every test of
  -- the manifest that refers to a file asks for fewer than 2^32 runs, and with the runs of a file one
  -- after the other.
  pub run-Kept :
      (fuel : ℕ) (manifest : String) (loader : ℤ) (tests : List Value) (s s' : S)
      → All (IsSmall h manifest) tests
      → run h fuel manifest loader tests s ≡ some (true, s')
      → I s
      → I s'
  unfolding run
  run-Kept fuel manifest loader tests s s' small ran i =
      let post =
        then_run-Post (Unit {0}) (Kept h (Unit {0}) (Unit {0}) I keeps s)
          (Kept h (Unit {0}) (Unit {0}) I keeps s) (run_tests h fuel manifest loader 0 tests s)
          (λ b s''. some (b, h.leave b s'')) (run_tests-Kept fuel manifest loader 0 tests s small)
          (λ b s'' k f e is. keeps.leave b s'' (k f e is)) in
      subst (Post (Unit {0}) (Kept h (Unit {0}) (Unit {0}) I keeps s)) ran post tt refl i
