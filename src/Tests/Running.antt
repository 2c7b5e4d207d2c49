-- ===== src/Tests/Running.antt =====
-- Two directories of tests, of which one is to be skipped, and a suite that succeeds.
use apitest.Base.{ℕ, ◌≡◌, refl, true, false, String, Option, some, [], ◌∷◌, has_prefix, ◌<>◌}
use apitest.Report.{did_fail, leave, get_test_result, append_element, add_results}
use apitest.Main.{
  Tree, directory, file, no_trees, tree_then, RunSuite, test_directories, run_api_tests,
  fill_in_names,
}
use apitest.Main.Directories.{wanted, test_directories-wanted}
use apitest.Main.Exits.{AllSucceed, run_api_tests-AllSucceed}
use apitest.Tests.Hosts.{whole_host}

abbrev tree : Tree
tree = directory "t" true (
    tree_then (directory "t/_lib" true no_trees)
      (tree_then (directory "t/a" true (tree_then (file "t/a/manifest.json") no_trees)) no_trees))

directories-found : test_directories tree ≡ "t" ∷ "t/a" ∷ []
unfolding test_directories has_prefix
directories-found = refl

names-filled : fill_in_names {C = String} (("c", ("", "s")) ∷ []) ≡ ("c", ("c", "s")) ∷ []
unfolding fill_in_names
names-filled = refl

test_directories-wanted_example : test_directories tree ≡ wanted tree
unfolding has_prefix
test_directories-wanted_example =
    test_directories-wanted tree (refl, tt, (refl, (refl, tt, tt), tt))

abbrev passes : RunSuite ℕ
passes path ds e w = (true, (e, w))

abbrev fs : String → Option Tree
fs root = some (directory root true no_trees)

run_api_tests-AllSucceed_example :
    AllSucceed whole_host [] passes (("./manifest.json", "/./manifest.json") ∷ []) 0
unfolding run_api_tests has_prefix did_fail get_test_result append_element leave add_results
run_api_tests-AllSucceed_example =
    run_api_tests-AllSucceed whole_host [] passes (λ p. "/" <> p) (λ d f. d <> ("/" <> f))
      (λ p. true) fs false [] ("." ∷ []) 0 refl
