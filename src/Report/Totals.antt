-- ===== src/Report/Totals.antt =====
-- What the counts of an aggregated report are, and what DidFail makes of them.
use apitest.Base.{ℕ, zero, suc, ◌+◌, ◌≤◌, ◌≡◌, refl, ap, ◌∙◌, List, [], ◌∷◌, ◌++◌, map, ltb, arith}
use apitest.Report.{
  Element, Elements, element, no_elements, more, failures, test_count, sub_tests, get_test_result,
  all_results, add_results, did_fail, flat, flat_subs,
}

abbrev pub sum : List ℕ → ℕ
sum [] = 0
sum (n ∷ ns) = n + sum ns

pub sum-append :
    (f : Element → ℕ) (xs ys : List Element)
    → sum (map f (xs ++ ys)) ≡ sum (map f xs) + sum (map f ys)
sum-append f [] ys = omega arith
sum-append f (x ∷ xs) ys = omega (arith, sum-append f xs ys)

-- The element's own count with those of all the elements below it, as they were recorded.
abbrev pub recorded : (Element → ℕ) → Element → ℕ
recorded f e = f e + sum (map f (flat (sub_tests e)))

direct : (Element → ℕ) → Elements → ℕ
direct f no_elements = 0
direct f (more s ss) = f s + direct f ss

failures-add_results :
    (ss : Elements) (e : Element) → failures (add_results ss e) ≡ failures e + direct failures ss
unfolding add_results direct
failures-add_results no_elements e = omega arith
failures-add_results (more s ss) (element f t n log subs) =
    let ih = failures-add_results ss (element (f + failures s) (t + test_count s) n log subs) in
    omega (arith, ih)

test_count-add_results :
    (ss : Elements) (e : Element)
    → test_count (add_results ss e) ≡ test_count e + direct test_count ss
unfolding add_results direct
test_count-add_results no_elements e = omega arith
test_count-add_results (more s ss) (element f t n log subs) =
    let ih = test_count-add_results ss (element (f + failures s) (t + test_count s) n log subs) in
    omega (arith, ih)

sub_tests-add_results : (ss : Elements) (e : Element) → sub_tests (add_results ss e) ≡ sub_tests e
unfolding add_results
sub_tests-add_results no_elements e = refl
sub_tests-add_results (more s ss) (element f t n log subs) =
    sub_tests-add_results ss (element (f + failures s) (t + test_count s) n log subs)

mutual
  unfolding get_test_result flat direct

  failures_result : (e : Element) → failures (get_test_result e) ≡ recorded failures e
  failures_result (element f t n log subs) =
      let added = failures-add_results (all_results subs) (element f t n log (all_results subs)) in
      omega (arith, added, failures_results subs)

  failures_results :
      (ss : Elements) → direct failures (all_results ss) ≡ sum (map failures (flat ss))
  failures_results no_elements = refl
  failures_results (more (element f t n log subs) ss) = omega (
    arith,
    failures_result (element f t n log subs),
    failures_results ss,
    sum-append failures (flat subs) (flat ss),
  )

mutual
  unfolding get_test_result flat direct

  test_count_result : (e : Element) → test_count (get_test_result e) ≡ recorded test_count e
  test_count_result (element f t n log subs) =
      let added =
        test_count-add_results (all_results subs) (element f t n log (all_results subs)) in
      omega (arith, added, test_count_results subs)

  test_count_results :
      (ss : Elements) → direct test_count (all_results ss) ≡ sum (map test_count (flat ss))
  test_count_results no_elements = refl
  test_count_results (more (element f t n log subs) ss) = omega (
    arith,
    test_count_result (element f t n log subs),
    test_count_results ss,
    sum-append test_count (flat subs) (flat ss),
  )

-- The counts of an aggregated report are the sums of what its elements recorded, over the element
-- itself and the flat list of the elements below it.
pub get_test_result-recorded :
    (e : Element)
    → (failures (get_test_result e) ≡ recorded failures e)
      × (test_count (get_test_result e) ≡ recorded test_count e)
get_test_result-recorded e = (failures_result e, test_count_result e)

flat_subs-sub_tests : (e : Element) → flat_subs e ≡ flat (sub_tests e)
unfolding flat_subs
flat_subs-sub_tests (element f t n log subs) = refl

mutual
  unfolding get_test_result flat

  -- Aggregating a tree without a failure leaves none.
  quiet_result :
      (e : Element)
      → recorded failures e ≡ 0
      → sum (map failures (flat (sub_tests (get_test_result e)))) ≡ 0
  quiet_result (element f t n log subs) h =
      ap (λ ss. sum (map failures (flat ss)))
        (sub_tests-add_results (all_results subs) (element f t n log (all_results subs)))
      ∙ quiet_results subs (omega (arith, h))

  quiet_results :
      (ss : Elements)
      → sum (map failures (flat ss)) ≡ 0
      → sum (map failures (flat (all_results ss))) ≡ 0
  quiet_results no_elements h = refl
  quiet_results (more e ss) h =
      let split = sum-append failures (flat_subs (get_test_result e)) (flat (all_results ss)) in
      let below = ap (λ es. sum (map failures es)) (flat_subs-sub_tests (get_test_result e)) in
      let old = sum-append failures (flat_subs e) (flat ss) in
      let own = ap (λ es. sum (map failures es)) (flat_subs-sub_tests e) in
      omega (
        arith,
        split,
        below,
        failures_result e,
        old,
        h,
        quiet_result e (omega (arith, old, own, h)),
        quiet_results ss (omega (arith, old, h)),
      )

abbrev pub aggregated : ℕ → Element → Element
aggregated zero e = e
aggregated (suc n) e = aggregated n (get_test_result e)

aggregated_failing :
    (n : ℕ) (e : Element) → ltb 0 (recorded failures (aggregated n e)) ≡ ltb 0 (recorded failures e)
aggregated_failing zero e = refl
aggregated_failing (suc n) e =
    aggregated_failing n (get_test_result e) ∙ ground (arith, failures_result e, quiet_result e)

-- DidFail says whether any element of the report recorded a failure, however often the report has
-- been aggregated, as writing it to a file does, before it is asked.
pub did_fail-aggregated :
    (n : ℕ) (root : Element) → did_fail (aggregated n root) ≡ ltb 0 (recorded failures root)
unfolding did_fail
did_fail-aggregated n root =
    ap (ltb 0) (failures_result (aggregated n root)) ∙ aggregated_failing n root

again_results :
    (ss : Elements) → sum (map failures (flat ss)) ≤ sum (map failures (flat (all_results ss)))
unfolding flat all_results
again_results no_elements = omega arith
again_results (more e ss) =
    let own = ap (λ es. sum (map failures es)) (flat_subs-sub_tests e) in
    let old = sum-append failures (flat_subs e) (flat ss) in
    let new = sum-append failures (flat_subs (get_test_result e)) (flat (all_results ss)) in
    omega (arith, own, old, new, failures_result e, again_results ss)

sub_tests-get_test_result :
    (e : Element) → sub_tests (get_test_result e) ≡ all_results (sub_tests e)
unfolding get_test_result
sub_tests-get_test_result (element f t n log subs) =
    sub_tests-add_results (all_results subs) (element f t n log (all_results subs))

-- A report that is aggregated a second time counts every failure below its root at least twice.
pub get_test_result-again :
    (root : Element)
    → recorded failures root + sum (map failures (flat (sub_tests root)))
      ≤ failures (get_test_result (get_test_result root))
get_test_result-again root =
    let subs = ap (λ ss. sum (map failures (flat ss))) (sub_tests-get_test_result root) in
    omega (
      arith,
      failures_result (get_test_result root),
      failures_result root,
      subs,
      again_results (sub_tests root),
    )
