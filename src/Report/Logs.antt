-- ===== src/Report/Logs.antt =====
-- The log of a report, and what recording adds to it and to the counts.
use mathlib.Core.List.{append_assoc}
use apitest.Base.{◌≡◌, refl, ap, ◌∙◌, sym, String, List, [], ◌∷◌, ◌++◌}
use apitest.Report.{
  Element, Elements, element, no_elements, more, sub_tests, log_storage, get_log, all_logs, flat,
  flat_subs,
}

abbrev pub logs_of : List Element → List String
logs_of [] = []
logs_of (e ∷ es) = log_storage e ++ logs_of es

logs_of-append : (xs ys : List Element) → logs_of (xs ++ ys) ≡ logs_of xs ++ logs_of ys
logs_of-append [] ys = refl
logs_of-append (x ∷ xs) ys =
    ap (λ l. log_storage x ++ l) (logs_of-append xs ys)
    ∙ sym (append_assoc (log_storage x) (logs_of xs) (logs_of ys))

mutual
  unfolding get_log flat

  get_log_same : (e : Element) → get_log e ≡ log_storage e ++ logs_of (flat_subs e)
  get_log_same (element f t n log subs) = ap (λ l. log ++ l) (all_logs_same subs)

  all_logs_same : (ss : Elements) → all_logs ss ≡ logs_of (flat ss)
  all_logs_same no_elements = refl
  all_logs_same (more s ss) = rw (
    get_log_same s,
    all_logs_same ss,
    logs_of-append (flat_subs s) (flat ss),
    append_assoc (log_storage s) (logs_of (flat_subs s)) (logs_of (flat ss)),
  )

-- GetLog, which walks the tree, lists the entries of the elements in the order of Flat, which the
-- statistics use: the element's own first, then those of the elements below it.
pub get_log-flat : (e : Element) → get_log e ≡ log_storage e ++ logs_of (flat (sub_tests e))
unfolding flat
get_log-flat (element f t n log subs) = get_log_same (element f t n log subs)
