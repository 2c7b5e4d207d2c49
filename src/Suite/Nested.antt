-- ===== src/Suite/Nested.antt =====
-- api_testsuite.go: the tests of a suite, the files that they refer to and the test cases in them.
-- The runs of a file stand one after the other, which is one of their interleavings; a reference
-- from a test case has at most one run. `S` is the state of the suite: the store and the report.
pub mod Results
pub mod Steps
pub mod Ends
pub mod Passed
use apitest.Base.{
  ℕ, zero, suc, ◌+◌, ◌*◌, ◌%◌, ◌^◌, Bool, true, false, not, ◌&&◌, ◌||◌, String, Option, none, some,
  List, [], ◌∷◌, Outcome, ok, err, ◌>>=◌, code, ltb, ◌==◌, length, if◌then◌else◌,
}
use apitest.Base.Int.{ℤ, pos, negsuc, pos_part, ltb_ℤ}
use apitest.Json.{Value, str, object, array}
use apitest.PathSpec.{PathSpec, PathError, parse_path_spec, is_path_spec}
use apitest.Suite.{add_one}

pub data LoadError : Type 0 where
  parsing_spec : PathError → LoadError
  loading marshaling : String → LoadError
  no_specification : Value → LoadError

-- What the suite calls: `T` is a test case that was read.
pub record Calls (S T : Type 0) : Type 0 where
  -- filepath.Dir and filepath.Join
  pub dir : String → String
  pub join : String → String → String
  -- PathSpec.LoadContents and jsutil.Marshal
  pub load_contents : String → PathSpec → Outcome String String
  pub marshal : Value → Outcome String String
  -- Loader.Render, of a loader with that index of the parallel run
  pub render : ℤ → String → String → S → Outcome String String × S
  -- jsutil.Unmarshal into a list of raw messages, one raw message, a string and a case
  pub unmarshal_list : String → Outcome String (List String)
  pub unmarshal_raw : String → Outcome String String
  pub unmarshal_string : String → Outcome String String
  pub unmarshal_case : String → Outcome String T
  pub continue_on_failure : T → Bool
  -- runAPITestCase, of the case with that file, loader and index
  pub run_api_test_case : String → ℤ → ℕ → T → S → Bool × S
  -- the report: NewChild, Leave, SetName and SaveToReportLog
  pub new_child : ℕ → S → S
  pub leave : Bool → S → S
  pub set_name : String → S → S
  pub log : String → S → S
  pub log_load : LoadError → S → S

-- The first code that is no white space, 0 if there is none.
unfoldable pub first_json_byte : String → ℕ
first_json_byte String.[] = 0
first_json_byte (String.◌∷◌ c s) =
    let rest = first_json_byte s in
    if code c == b' ' || code c == b'\t' || code c == b'\n' || code c == b'\r' then rest else code c

unfoldable pub build_loader : ℤ → ℕ → ℤ
build_loader root run_idx = if ltb_ℤ root (pos 0) then pos run_idx else root

-- What a run comes to, and the state after it; none where the fuel is used up.
abbrev pub Run : Type 0 → Type 0
Run S = Option (Bool × S)

abbrev pub then_run : {S B : Type 0} → Run S → (Bool → S → Option B) → Option B
then_run none next = none
then_run (some (b, s)) next = next b s

-- A failure ends the loop.
abbrev pub if_success : {S : Type 0} → (S → Run S) → Bool → S → Run S
if_success next true s = next s
if_success next false s = some (false, s)

module _ {S T : Type 0} (h : Calls S T) where
  abbrev pub wrap : {A E : Type 0} → (E → LoadError) → Outcome E A → Outcome LoadError A
  wrap f (ok a) = ok a
  wrap f (err e) = err (f e)

  -- LoadManifestDataAsRawJson of pkg/lib/template/util.go, for a decoded value.
  unfoldable pub load_manifest_data : Value → String → Outcome LoadError (Option PathSpec × String)
  load_manifest_data (str s) d = do
    spec ← wrap parsing_spec (parse_path_spec s)
    raw ← wrap loading (h.load_contents d spec)
    ok (some spec, raw)
  load_manifest_data (object fs) d = do
    raw ← wrap marshaling (h.marshal (object fs))
    ok (none, raw)
  load_manifest_data (array xs) d = do raw ← wrap marshaling (h.marshal (array xs)); ok (none, raw)
  load_manifest_data v d = err (no_specification v)

  unfoldable pub ran : T → Bool × S → Bool × S
  ran t (b, s) = (b || h.continue_on_failure t, s)

  unfoldable pub run_read_case : String → ℤ → ℕ → Outcome String T → S → Bool × S
  unfolding ran
  run_read_case file loader index (err e) s = (false, h.log e s)
  run_read_case file loader index (ok t) s = ran t (h.run_api_test_case file loader index t s)

  unfoldable pub run_literal_test : String → ℤ → ℕ → String → S → Bool × S
  unfolding run_read_case
  run_literal_test file loader index c s =
      run_read_case file loader index (h.unmarshal_case c) (h.set_name file s)

  unfoldable pub path_spec_of : Outcome String String → Option String
  path_spec_of (err e) = none
  path_spec_of (ok t) = if is_path_spec t then some t else none

  -- The reference that a test case is, if it is one.
  unfoldable pub reference : String → Option String
  unfolding first_json_byte path_spec_of
  reference c = if first_json_byte c == b'"' then path_spec_of (h.unmarshal_string c) else none

  unfoldable pub single : Outcome String String → Outcome String (List String)
  single (err e) = err e
  single (ok c) = ok (c ∷ [])

  unfoldable pub test_cases : String → Outcome String (List String)
  unfolding first_json_byte single
  test_cases rendered =
      if first_json_byte rendered == b'['
      then h.unmarshal_list rendered
      else single (h.unmarshal_raw rendered)

  -- `call` runs the file that a test case refers to, for the file it stands in and its loader.
  module _ (call : String → String → ℤ → S → Run S) where
    unfoldable pub run_one : String → ℤ → ℕ → String → Option String → S → Run S
    unfolding run_literal_test
    run_one file loader index c (some t) s = call t file loader s
    run_one file loader index c none s = some (run_literal_test file loader index c s)

    -- The loop over the cases: `index` is the index of the first of them.
    unfoldable pub run_cases : String → ℤ → ℕ → List String → S → Run S
    unfolding run_one reference
    run_cases file loader index [] s = some (true, s)
    run_cases file loader index (c ∷ cs) s =
        then_run (run_one file loader index c (reference c) s)
          (if_success (run_cases file loader (suc index) cs))

    unfoldable pub run_loaded : String → ℤ → ℕ → Outcome String (List String) → S → Run S
    unfolding run_cases
    run_loaded file loader run_idx (err e) s = some (false, h.log e s)
    run_loaded file loader run_idx (ok cs) s = run_cases file loader (run_idx * length cs) cs s

    unfoldable pub run_rendered : String → ℤ → ℕ → Outcome String String × S → Run S
    unfolding run_loaded test_cases
    run_rendered file loader run_idx (err e, s) = some (false, h.log e s)
    run_rendered file loader run_idx (ok rendered, s) =
        run_loaded file loader run_idx (test_cases rendered) s

    -- What is returned is whether the run has counted itself.
    unfoldable pub test_goroutine : String → ℤ → ℕ → String → S → Run S
    unfolding run_rendered build_loader
    test_goroutine file root run_idx raw s =
        let loader = build_loader root run_idx in
        run_rendered file loader run_idx (h.render loader raw (h.dir file) s)

    -- The runs that are left, with the counter.
    unfoldable pub all_runs : String → ℤ → String → ℕ → ℕ → ℕ → S → Option (ℕ × S)
    unfolding test_goroutine
    all_runs file root raw zero run_idx count s = some (count, s)
    all_runs file root raw (suc n) run_idx count s =
        then_run (test_goroutine file root run_idx raw s)
          (λ b s. all_runs file root raw n (suc run_idx) (if b then add_one count else count) s)

    unfoldable pub counted : ℕ → Option (ℕ × S) → Run S
    counted runs none = none
    counted runs (some (count, s)) = some (count == runs % 2 ^ 32, s)

    unfoldable pub start_runs : String → ℤ → Bool → ℕ → String → S → Run S
    unfolding all_runs counted
    start_runs file root allowed runs raw s =
        if ltb 1 runs && not allowed
        then some (false, s)
        else counted runs (all_runs file root raw runs 0 0 s)

    unfoldable pub run_manifest :
        String → ℤ → Bool → Outcome LoadError (Option PathSpec × String) → S → Run S
    unfolding start_runs
    run_manifest file root allowed (err e) s = some (false, h.log_load e s)
    run_manifest file root allowed (ok (none, raw)) s = start_runs file root allowed 1 raw s
    run_manifest file root allowed (ok (some spec, raw)) s =
        start_runs (h.join (h.dir file) spec.path) root allowed (pos_part spec.parallel_runs) raw s

  unfoldable pub parse_and_run_test : ℕ → Value → String → ℤ → Bool → S → Run S
  unfolding run_manifest load_manifest_data
  parse_and_run_test zero v file root allowed s = none
  parse_and_run_test (suc fuel) v file root allowed s =
      run_manifest (λ t file' loader s'. parse_and_run_test fuel (str t) file' loader false s') file
        root allowed (load_manifest_data v (h.dir file)) s

  -- The loop of run, from test `k` on.
  unfoldable pub run_tests : ℕ → String → ℤ → ℕ → List Value → S → Run S
  unfolding parse_and_run_test
  run_tests fuel manifest loader k [] s = some (true, s)
  run_tests fuel manifest loader k (v ∷ vs) s =
      then_run (parse_and_run_test fuel v manifest loader true (h.new_child k s))
        (λ b s'. if_success (run_tests fuel manifest loader (suc k) vs) b (h.leave b s'))

  unfoldable pub run : ℕ → String → ℤ → List Value → S → Run S
  unfolding run_tests
  run fuel manifest loader tests s =
      then_run (run_tests fuel manifest loader 0 tests s) (λ b s'. some (b, h.leave b s'))
