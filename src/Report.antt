-- ===== src/Report.antt =====
-- pkg/lib/report/report.go: the tree of report elements, and what is read off it. An element that a
-- method changes through its pointer is returned anew. Times and locks are left out.
pub mod Totals
pub mod Logs
pub mod Stats
pub mod Junit
use apitest.Base.{
  ℕ, zero, suc, ◌+◌, Bool, true, false, String, List, [], ◌∷◌, ◌++◌, ltb, is_empty, if◌then◌else◌,
}

mutual
  pub data Element : Type 0 where
    -- Failures, TestCount, Name, LogStorage and SubTests
    element : ℕ → ℕ → String → List String → Elements → Element

  pub data Elements : Type 0 where
    no_elements : Elements
    more : Element → Elements → Elements

abbrev pub failures : Element → ℕ
failures (element f t n log subs) = f

abbrev pub test_count : Element → ℕ
test_count (element f t n log subs) = t

abbrev pub log_storage : Element → List String
log_storage (element f t n log subs) = log

abbrev pub sub_tests : Element → Elements
sub_tests (element f t n log subs) = subs

abbrev pub new_element : String → Element
new_element name = element 0 0 name [] no_elements

unfoldable pub append_element : Elements → Element → Elements
append_element no_elements e = more e no_elements
append_element (more s ss) e = more s (append_element ss e)

-- The new child stands last; a change of it is a change of the last of the children.
unfoldable pub new_child : String → Element → Element
unfolding append_element
new_child name (element f t n log subs) = element f t n log (append_element subs (new_element name))

unfoldable pub set_name : String → Element → Element
set_name name (element f t n log subs) = element f t name log subs

-- With NoLogTime, or with the time already in the text.
unfoldable pub save_to_report_log : String → Element → Element
save_to_report_log v (element f t n log subs) = element f t n (log ++ v ∷ []) subs

abbrev has_sub_tests : Elements → Bool
has_sub_tests no_elements = false
has_sub_tests (more s ss) = true

unfoldable pub leave : Bool → Element → Element
leave result (element f t n log subs) =
    element (if result then f else suc f) (if has_sub_tests subs then t else suc t) n log subs

-- What the sub tests count, added to the element's own counts.
unfoldable pub add_results : Elements → Element → Element
add_results no_elements e = e
add_results (more s ss) (element f t n log subs) =
    add_results ss (element (f + failures s) (t + test_count s) n log subs)

unfoldable mutual
  -- The sub tests are aggregated first, all of them.
  pub get_test_result : Element → Element
  get_test_result (element f t n log subs) =
      let subs' = all_results subs in add_results subs' (element f t n log subs')

  pub all_results : Elements → Elements
  all_results no_elements = no_elements
  all_results (more s ss) = more (get_test_result s) (all_results ss)

unfoldable pub did_fail : Element → Bool
unfolding get_test_result
did_fail root = ltb 0 (failures (get_test_result root))

unfoldable mutual
  pub get_log : Element → List String
  get_log (element f t n log subs) = log ++ all_logs subs

  pub all_logs : Elements → List String
  all_logs no_elements = []
  all_logs (more s ss) = get_log s ++ all_logs ss

unfoldable mutual
  -- `Flat`, and the part of it that stands for one element.
  pub flat : Elements → List Element
  flat no_elements = []
  flat (more s ss) = s ∷ (flat_subs s ++ flat ss)

  pub flat_subs : Element → List Element
  flat_subs (element f t n log subs) = flat subs
