-- ===== src/Compare/Arrays.antt =====
-- arrayComparison and ArrayEqualWithControl.
pub mod Consistent
pub mod Longer
pub mod Ordered
pub mod Unordered
pub mod Same
use apitest.Base.{
  ℕ, zero, suc, ◌+◌, Bool, true, false, ◌&&◌, ◌||◌, not, String, Option, none, some, List, [], ◌∷◌,
  ◌++◌, Outcome, ok, err, ◌>>=◌, ltb, ◌==◌, str_eq, ◌<>◌, if◌then◌else◌, length, map,
}
use apitest.Base.Int.{ℤ, pos, negsuc, ◌+ℤ◌, ltb_ℤ, leb_ℤ}
use apitest.Base.Decimal.{decimal}
use apitest.Json.{Value}
use apitest.Host.{Host}
use apitest.Compare.Types.{
  Failure, CompareResult, Context, no_control, Comparer, Part, Error, marshal_expected,
  marshal_actual, equal_result, failed, too_long, extra_in_array, not_in_order,
}

abbrev pub mem : ℕ → List ℕ → Bool
mem n [] = false
mem n (m ∷ ms) = m == n || mem n ms

-- Failures are appended; one failure makes the result unequal.
abbrev pub add_failures : List Failure → CompareResult → CompareResult
add_failures fs r = record { equal = false; failures = r.failures ++ fs }

-- "[%d]"
abbrev pub index_key : ℕ → String
index_key lk = "[" <> (decimal lk <> "]")

-- `next` is `nextControl`, `rk` the position of the head in the right array. `from` is
-- `lastPositionFromLeftInRight + 1`: what stands before it is skipped.
unfoldable pub scan_ordered : Comparer → Context → ℕ → ℕ → List Value → Outcome Error (Option ℕ)
scan_ordered cmp next from rk [] = ok none
scan_ordered cmp next from rk (rv ∷ rvs) =
    let rest = scan_ordered cmp next from (suc rk) rvs in
    if ltb rk from then rest else do tmp ← cmp rv next; if tmp.equal then ok (some rk) else rest

pub data Scan : Type 0 where
  found_at : ℕ → Scan
  -- with `allTmpFailures`
  nowhere : List Failure → Scan

unfoldable pub scan_unordered :
    Comparer → Context → List ℕ → ℕ → List Value → List Failure → Outcome Error Scan
scan_unordered cmp next taken rk [] fs = ok (nowhere fs)
scan_unordered cmp next taken rk (rv ∷ rvs) fs =
    let rest = λ (gs : List Failure). scan_unordered cmp next taken (suc rk) rvs gs in
    if mem rk taken
    then rest fs
    else do tmp ← cmp rv next; if tmp.equal then ok (found_at rk) else rest (fs ++ tmp.failures)

-- What the loop over the left array carries.
pub record ArrayState : Type 0 where
  pub res : CompareResult
  pub taken : List ℕ
  pub from : ℕ

unfoldable pub note_ordered : ℕ → Option ℕ → ArrayState → ArrayState
note_ordered lk none s = s
note_ordered lk (some rk) s = record s { taken = lk ∷ s.taken; from = suc rk }

-- The set is asked for the left position, as the source does.
unfoldable pub close_ordered : ℕ → Value → ArrayState → ArrayState
close_ordered lk lv s = if mem lk s.taken then s else record s {
  res = add_failures (record { key = index_key lk; message = not_in_order lv } ∷ []) s.res;
}

abbrev pub element_failure : ℕ → Failure → Failure
element_failure lk f = record {
  key = if str_eq f.key "" then index_key lk else index_key lk <> ("." <> f.key);
  message = f.message;
}

unfoldable pub note_unordered : ℕ → Scan → ArrayState → ArrayState
note_unordered lk (found_at rk) s = record s { taken = rk ∷ s.taken }
note_unordered lk (nowhere fs) s = record s {
  res = add_failures (map (element_failure lk) fs) s.res;
}

module _ (curr next : Context) (right : List Value) where
  -- One round of `for lk, lv := range left`.
  unfoldable pub array_step : ℕ → Part → ArrayState → Outcome Error ArrayState
  unfolding note_ordered close_ordered note_unordered
  array_step lk (lv, cmp) s =
      if curr.order_matters
      then (do
        at ← scan_ordered cmp next s.from 0 right
        ok (close_ordered lk lv (note_ordered lk at s)))
      else (do at ← scan_unordered cmp next s.taken 0 right []; ok (note_unordered lk at s))

  unfoldable pub array_loop : ℕ → List Part → ArrayState → Outcome Error ArrayState
  array_loop lk [] s = ok s
  array_loop lk (p ∷ ps) s = do s' ← array_step lk p s; array_loop (suc lk) ps s'

-- `for k := range right { if !takenInRight[k] { … } }`
unfoldable pub any_untaken : ℕ → List Value → List ℕ → Bool
any_untaken k [] taken = false
any_untaken k (v ∷ vs) taken = not (mem k taken) || any_untaken (suc k) vs taken

unfoldable pub close_extra : Bool → List Value → ArrayState → CompareResult
unfolding any_untaken
close_extra no_extra right s =
    if no_extra && any_untaken 0 right s.taken
    then add_failures (record { key = ""; message = extra_in_array } ∷ []) s.res
    else s.res

abbrev pub array_start : ArrayState
array_start = record { res = equal_result; taken = []; from = 0 }

abbrev pub or_error : Error → Option String → Outcome Error String
or_error e none = err e
or_error e (some s) = ok s

abbrev pub part_value : Part → Value
part_value (v, cmp) = v

module _ (host : Host) where
  unfoldable pub compare_lengths : List Part → List Value → Outcome Error CompareResult
  compare_lengths left right = do
    l ← or_error marshal_expected (host.marshal_indent (map part_value left))
    r ← or_error marshal_actual (host.marshal_indent right)
    ok (failed "" (too_long (length left) (length right) l r))

  unfoldable pub array_comparison :
      List Part → List Value → Context → Context → Outcome Error CompareResult
  unfolding compare_lengths array_loop array_step close_extra
  array_comparison left right curr next =
      if ltb (length right) (length left) then compare_lengths left right else (do
        s ← array_loop curr next right 0 left array_start
        ok (close_extra curr.no_extra right s))

  -- nextControl.depth, where -9999 means that nothing is handed down.
  unfoldable pub next_depth : ℤ → ℤ
  next_depth d =
      if leb_ℤ (negsuc 0) d
      then (if ltb_ℤ (pos 0) d then d +ℤ negsuc 0 else if ltb_ℤ d (pos 0) then d else negsuc 9998)
      else negsuc 9998

  unfoldable pub next_control : Context → Context
  unfolding next_depth
  next_control c =
      let d = next_depth c.depth in
      if leb_ℤ (negsuc 0) d
      then record no_control {
        depth = d;
        no_extra = c.element_no_extra || c.no_extra;
        order_matters = c.order_matters;
      }
      else record no_control { depth = d; no_extra = c.element_no_extra }

  unfoldable pub array_equal_with_control :
      List Part → List Value → Context → Outcome Error CompareResult
  unfolding array_comparison next_control
  array_equal_with_control left right c = array_comparison left right c (next_control c)
