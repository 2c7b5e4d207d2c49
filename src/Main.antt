-- ===== src/Main.antt =====
-- main.go and config.go: which directories are tested, the loop over the suites, and the exit code.
-- A file tree is what afero.Walk finds; the suites are a parameter, and their runs are chained by a
-- state `W`, whatever they share outside of the program. Flags, logging and profiles are left out.
pub mod Directories
pub mod Exits
use apitest.Base.{
  ℕ, Bool, true, false, not, ◌&&◌, ◌||◌, String, Option, none, some, List, [], ◌∷◌, ◌++◌, Outcome,
  ok, err, ◌>>=◌, map, is_empty, str_eq, has_prefix, if◌then◌else◌,
}
use apitest.Base.Dict.{Dict}
use apitest.Json.{Value}
use apitest.Host.{Host}
use apitest.Datastore.{Datastore, new_store, set_map}
use apitest.Report.{
  Element, Elements, element, no_elements, new_element, append_element, leave, did_fail,
}

-- A file, or a directory with the answer whether it has a manifest.json, by their paths.
mutual
  pub data Tree : Type 0 where
    file : String → Tree
    directory : String → Bool → Trees → Tree

  pub data Trees : Type 0 where
    no_trees : Trees
    tree_then : Tree → Trees → Trees

-- strings.Contains
unfoldable pub contains : String → String → Bool
contains part String.[] = str_eq "" part
contains part (String.◌∷◌ c s) = has_prefix (String.◌∷◌ c s) part || contains part s

-- The walk of extractTestDirectories: a path with "/_" is skipped with all that is in it.
unfoldable mutual
  unfolding contains

  pub test_directories : Tree → List String
  test_directories (file path) = []
  test_directories (directory path manifest subs) =
      let below = test_directories_in subs in
      if contains "/_" path then [] else if manifest then path ∷ below else below

  pub test_directories_in : Trees → List String
  test_directories_in no_trees = []
  test_directories_in (tree_then t ts) = test_directories t ++ test_directories_in ts

-- A root directory that is not there is an error before any is walked.
unfoldable pub found_roots : (String → Option Tree) → List String → Outcome String (List Tree)
found_roots fs [] = ok []
found_roots fs (root ∷ roots) = elim (fs root) [
  | none ↦ err root
  | some t ↦ do ts ← found_roots fs roots; ok (t ∷ ts)
]

unfoldable pub all_directories : List Tree → List String
unfolding test_directories
all_directories [] = []
all_directories (t ∷ ts) = test_directories t ++ all_directories ts

unfoldable pub extract_test_directories :
    (String → Option Tree) → List String → Outcome String (List String)
unfolding found_roots all_directories
extract_test_directories fs roots = do ts ← found_roots fs roots; ok (all_directories ts)

-- What is left in the configuration after an error: no directories.
unfoldable pub configured_directories : Outcome String (List String) → List String
configured_directories (ok ds) = ds
configured_directories (err root) = []

-- fillInOAuthClientNames, of clients with the name and the rest of their configuration.
unfoldable pub fill_in_names : {C : Type 0} → Dict (String × C) → Dict (String × C)
fill_in_names [] = []
fill_in_names ((key, (client, c)) ∷ rest) =
    (key, (if str_eq client "" then key else client, c)) ∷ fill_in_names rest

unfoldable pub add_child : Element → Element → Element
unfolding append_element
add_child (element f t n log subs) child = element f t n log (append_element subs child)

-- The name and the path of each test; single tests are run in place of those of the directories.
unfoldable pub chosen_tests :
    (String → String)
    → (String → String → String)
    → List String
    → List String
    → List (String × String)
chosen_tests abs_path join singles directories =
    if is_empty singles
    then map (λ d. (join d "manifest.json", abs_path (join d "manifest.json"))) directories
    else map (λ s. (s, abs_path s)) singles

unfoldable pub exit_code : Element → ℕ
unfolding did_fail
exit_code root = if did_fail root then 1 else 0

-- Every path, but for the one that need not be there, exists.
unfoldable pub valid_paths : (String → Bool) → String → List String → Bool
valid_paths exists free [] = true
valid_paths exists free (p ∷ ps) = (str_eq p free || exists p) && valid_paths exists free ps

-- The suite of a path, in its report element and with a store: newTestSuite and run. An error of
-- the first is the result false.
abbrev pub RunSuite : Type 0 → Type 0
RunSuite W = String → Datastore → Element → W → Bool × (Element × W)

module _ (host : Host) (store_init : Dict Value) where
  unfoldable pub run_single_test :
      {W : Type 0} → RunSuite W → String → Element → W → Bool × (Element × W)
  unfolding set_map
  run_single_test run path e w = run path (set_map host new_store store_init) e w

  -- The loop over the tests: the root of the report and the state behind it. With stopOnFail, the
  -- first failure ends it.
  unfoldable pub run_tests :
      {W : Type 0} → RunSuite W → Bool → List (String × String) → Element → W → Element × W
  unfolding run_single_test add_child leave
  run_tests run stop_on_fail [] root w = (root, w)
  run_tests run stop_on_fail ((name, path) ∷ tests) root w =
      let (success, (child, w')) = run_single_test run path (new_element name) w in
      let root' = add_child root (leave success child) in
      let rest = run_tests run stop_on_fail tests root' w' in
      if stop_on_fail && not success then (root', w') else rest

  -- The exit code. A path that is not there ends the program before a test is run.
  unfoldable pub run_api_tests :
      {W : Type 0}
      → RunSuite W
      → (String → String)
      → (String → String → String)
      → (String → Bool)
      → (String → Option Tree)
      → Bool
      → List String
      → List String
      → W
      → ℕ
  unfolding run_tests chosen_tests exit_code extract_test_directories configured_directories
      valid_paths
  run_api_tests run abs_path join exists fs stop_on_fail singles roots w =
      let directories = configured_directories (extract_test_directories fs roots) in
      if valid_paths exists "." roots && valid_paths exists "" singles
      then exit_code
          (run_tests run stop_on_fail (chosen_tests abs_path join singles directories)
            (new_element "") w).0
      else 1
