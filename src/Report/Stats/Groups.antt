-- ===== src/Report/Stats/Groups.antt =====
-- The groups of the statistics report.
use apitest.Base.{
  ℕ, zero, suc, ◌+◌, ◌≤◌, ◌<◌, ◌≡◌, refl, ap, Bool, true, false, some, List, [], ◌∷◌, ltb, length,
  All, arith, if◌then◌else◌,
}
use apitest.Report.Stats.{
  Timed, StatsElement, longest, zeros, insert_sorted, slice_stable, sorted_stats,
  parse_json_stats_result,
}
use apitest.Report.Stats.Balance.{total, sum, IsSpread, distribute-IsSpread}

module _ (before : Timed → Timed → Bool) (bound : ℕ) where
  -- The tests are short, and take `n` together.
  abbrev Takes : ℕ → List Timed → Type 0
  Takes n ts = (total ts ≡ n) × All (λ t. t.execution_time ≤ bound) ts

  if_Takes :
      (n : ℕ) (b : Bool) (xs ys : List Timed)
      → Takes n xs
      → Takes n ys
      → Takes n (if b then xs else ys)
  if_Takes n true xs ys h k = h
  if_Takes n false xs ys h k = k

  insert_sorted-Takes :
      (n : ℕ) (x : Timed) (ts : List Timed)
      → x.execution_time ≤ bound
      → Takes n ts
      → Takes (x.execution_time + n) (insert_sorted before x ts)
  unfolding insert_sorted
  insert_sorted-Takes n x [] hx (e, a) = (omega (arith, e), (hx, tt))
  insert_sorted-Takes n x (y ∷ ys) hx (e, (hy, a)) =
      let (e', a') = insert_sorted-Takes (total ys) x ys hx (refl, a) in
      if_Takes (x.execution_time + n) (before y x) _ _ (omega (arith, e, e'), (hy, a'))
        (omega (arith, e), (hx, (hy, a)))

  slice_stable-Takes :
      (ts : List Timed)
      → All (λ t. t.execution_time ≤ bound) ts
      → Takes (total ts) (slice_stable before ts)
  unfolding slice_stable
  slice_stable-Takes [] a = (refl, tt)
  slice_stable-Takes (t ∷ ts) (h, a) =
      insert_sorted-Takes (total ts) t (slice_stable before ts) h (slice_stable-Takes ts a)

zeros_start :
    (bound rest n : ℕ)
    → rest < longest
    → (length (zeros n) ≡ n)
      × (sum (zeros n) ≡ 0)
      × All (λ g. g + rest < longest) (zeros n)
      × All (λ g. (0 ≤ g) × (g ≤ 0 + bound)) (zeros n)
unfolding zeros
zeros_start bound rest zero h = (refl, refl, tt, tt)
zeros_start bound rest (suc n) h =
    let (c, s, below, b) = zeros_start bound rest n h in
    (ap suc c, omega (arith, s), (omega (arith, h), below), ((omega arith, omega arith), b))

-- With at least one group, and tests that take less than 9999 hours together and at most `bound`
-- each, the statistics have as many groups as are asked for, whose runtimes add up to the time of
-- all the tests and differ from one another by at most `bound`.
pub parse_json_stats_result-IsSpread :
    (groups bound : ℕ) (ts : List Timed)
    → 0 < groups
    → All (λ t. t.execution_time ≤ bound) ts
    → total ts < longest
    → (gs : List ℕ) × (ms : List StatsElement) × (parse_json_stats_result groups ts ≡ some (gs, ms))
      × IsSpread bound ts (zeros groups) gs
unfolding parse_json_stats_result sorted_stats
parse_json_stats_result-IsSpread groups bound ts some_group short below =
    let (same, short') =
      slice_stable-Takes (λ x y. ltb y.execution_time x.execution_time) bound ts short in
    let sorted = slice_stable (λ x y. ltb y.execution_time x.execution_time) ts in
    let (count, sums, under, b) =
      zeros_start bound (total sorted) groups (omega (arith, same, below)) in
    let (gs, ms, run, spread) =
      distribute-IsSpread bound 0 sorted (zeros groups) (omega (arith, count, some_group)) short'
        under b in
    (
      gs,
      slice_stable (λ x y. ltb x.started_at y.started_at) ms,
      ap sorted_stats run,
      record {
        count = spread.count;
        sums = omega (arith, spread.sums, same);
        least = spread.least;
        balanced = spread.balanced;
      },
    )
