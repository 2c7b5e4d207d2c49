-- ===== src/Report/Stats.antt =====
-- pkg/lib/report/parsing_functions.go: the statistics, which spread the tests over groups of about
-- the same runtime, and the digits of a number. Durations and times are in ns.
pub mod Groups
pub mod Balance
pub mod Digits
use apitest.Base.{
  ℕ, zero, suc, ◌+◌, ◌*◌, ◌/◌, Bool, String, Option, none, some, List, [], ◌∷◌, ◌++◌, ltb, leb,
  ◌==◌, not, if◌then◌else◌,
}

-- The fields of a ReportElement that the statistics read.
pub record Timed : Type 0 where
  pub name : String
  pub start_time : ℕ
  pub execution_time : ℕ

pub record StatsElement : Type 0 where
  pub group : ℕ
  pub path : String
  pub started_at : ℕ
  pub ended_at : ℕ
  pub runtime_ms : ℕ

-- 9999 * time.Hour
abbrev pub longest : ℕ
longest = 9999 * 3600 * 1000 * 1000 * 1000

-- The loop over the groups from index `i` on.
unfoldable pub lowest_from : ℕ → ℕ → ℕ → List ℕ → ℕ
lowest_from i group lowest [] = group
lowest_from i group lowest (g ∷ gs) =
    let here = lowest_from (suc i) i g gs in
    let on = lowest_from (suc i) group lowest gs in if ltb g lowest then here else on

-- There is a panic where there is no group.
unfoldable pub get_lowest_runtime_group : List ℕ → Option ℕ
unfolding lowest_from
get_lowest_runtime_group [] = none
get_lowest_runtime_group (g ∷ gs) = some (lowest_from 0 0 longest (g ∷ gs))

unfoldable pub add_runtime : ℕ → ℕ → List ℕ → List ℕ
add_runtime k e [] = []
add_runtime zero e (g ∷ gs) = (g + e) ∷ gs
add_runtime (suc k) e (g ∷ gs) = g ∷ add_runtime k e gs

unfoldable pub stats_element : ℕ → Timed → StatsElement
stats_element k t = record {
  group = k;
  path = t.name;
  started_at = t.start_time;
  ended_at = t.start_time + t.execution_time;
  runtime_ms = t.execution_time / (1000 * 1000);
}

unfoldable pub put_first :
    StatsElement → Option (List ℕ × List StatsElement) → Option (List ℕ × List StatsElement)
put_first m none = none
put_first m (some (gs, ms)) = some (gs, m ∷ ms)

unfoldable pub with_group : {B : Type 0} → Option ℕ → (ℕ → Option B) → Option B
with_group none next = none
with_group (some k) next = next k

-- The loop over the sorted tests, for the groups' runtimes.
unfoldable pub distribute : List Timed → List ℕ → Option (List ℕ × List StatsElement)
unfolding get_lowest_runtime_group add_runtime stats_element put_first with_group
distribute [] gs = some (gs, [])
distribute (t ∷ ts) gs =
    with_group (get_lowest_runtime_group gs)
      (λ k. put_first (stats_element k t) (distribute ts (add_runtime k t.execution_time gs)))

-- sort.SliceStable: `before x y` is the function that is given to it.
module _ {A : Type 0} (before : A → A → Bool) where
  unfoldable pub insert_sorted : A → List A → List A
  insert_sorted x [] = x ∷ []
  insert_sorted x (y ∷ ys) =
      let rest = insert_sorted x ys in if before y x then y ∷ rest else x ∷ y ∷ ys

  unfoldable pub slice_stable : List A → List A
  unfolding insert_sorted
  slice_stable [] = []
  slice_stable (x ∷ xs) = insert_sorted x (slice_stable xs)

unfoldable pub zeros : ℕ → List ℕ
zeros zero = []
zeros (suc n) = 0 ∷ zeros n

unfoldable pub sorted_stats :
    Option (List ℕ × List StatsElement) → Option (List ℕ × List StatsElement)
unfolding slice_stable
sorted_stats none = none
sorted_stats (some (gs, ms)) = some (gs, slice_stable (λ x y. ltb x.started_at y.started_at) ms)

-- parseJSONStatsResult: the groups' runtimes and the manifests.
unfoldable pub parse_json_stats_result : ℕ → List Timed → Option (List ℕ × List StatsElement)
unfolding distribute slice_stable zeros sorted_stats
parse_json_stats_result groups ts =
    sorted_stats
      (distribute (slice_stable (λ x y. ltb y.execution_time x.execution_time) ts) (zeros groups))

-- iterativeDigitsCount, on fuel.
unfoldable pub digits_count : ℕ → ℕ → ℕ → ℕ
digits_count zero count n = count
digits_count (suc fuel) count n =
    let rest = digits_count fuel (suc count) (n / 10) in if n == 0 then count else rest

unfoldable pub iterative_digits_count : ℕ → ℕ
unfolding digits_count
iterative_digits_count n = digits_count n 0 n
