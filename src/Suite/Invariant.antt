-- ===== src/Suite/Invariant.antt =====
-- The counter of a parallel run counts the threads that came to their end.
use apitest.Base.{
  ℕ, suc, ◌+◌, ◌^◌, ◌≡◌, ◌↔◌, ◌≤◌, ◌<◌, refl, ap, sym, true, false, List, [], ◌∷◌, ◌++◌, map,
  length, length-append, arith,
}
use apitest.Suite.{
  Thread, ThreadStep, State, Step, Steps, starting, running, returned, load_fails, loads, passes,
  fails, counts, step, stop, then_step, start, AllReturned, run_result,
}

-- 1 for a thread that counted itself.
abbrev pub counted : Thread → ℕ
counted (returned true) = 1
counted _ = 0

abbrev pub all_counted : List Thread → ℕ
all_counted [] = 0
all_counted (t ∷ ts) = counted t + all_counted ts

all_counted-append :
    (xs ys : List Thread) → all_counted (xs ++ ys) ≡ all_counted xs + all_counted ys
all_counted-append [] ys = omega arith
all_counted-append (x ∷ xs) ys = omega (arith, all_counted-append xs ys)

all_counted-length : (xs : List Thread) → all_counted xs ≤ length xs
all_counted-length [] = omega arith
all_counted-length (returned true ∷ xs) = omega (arith, all_counted-length xs)
all_counted-length (returned false ∷ xs) = omega (arith, all_counted-length xs)
all_counted-length (starting k ∷ xs) = omega (arith, all_counted-length xs)
all_counted-length (running k ∷ xs) = omega (arith, all_counted-length xs)

-- The counter, and the number of the threads.
pub record IsCounted (runs : ℕ) (st : State) : Type 0 where
  pub count : st.success_count ≡ all_counted st.threads
  pub total : length st.threads ≡ runs

thread_counts :
    (t t' : Thread) (n n' : ℕ)
    → ThreadStep t n t' n'
    → n + 1 < 2 ^ 32
    → n' + counted t ≡ n + counted t'
thread_counts _ _ n n' load_fails h = refl
thread_counts _ _ n n' loads h = refl
thread_counts _ _ n n' passes h = refl
thread_counts _ _ n n' fails h = refl
thread_counts _ _ n n' counts h = omega arith

Step-IsCounted :
    (runs : ℕ) (st st' : State)
    → runs + 1 < 2 ^ 32
    → IsCounted runs st
    → Step st st'
    → IsCounted runs st'
Step-IsCounted runs _ _ small h (step xs t t' ys n n' s) =
    let before = all_counted-append xs (t ∷ ys) in
    let after = all_counted-append xs (t' ∷ ys) in
    let bound = all_counted-length (xs ++ t ∷ ys) in
    let moved = thread_counts t t' n n' s (omega (arith, h.count, h.total, bound, small)) in
    record {
      count = omega (arith, before, after, h.count, moved);
      total = omega (arith, h.total, length-append xs (t ∷ ys), length-append xs (t' ∷ ys));
    }

start_counted : (ks : List ℕ) → all_counted (map starting ks) ≡ 0
start_counted [] = refl
start_counted (k ∷ ks) = omega (arith, start_counted ks)

start_total : (ks : List ℕ) → length (map starting ks) ≡ length ks
start_total [] = refl
start_total (k ∷ ks) = ap suc (start_total ks)

steps-IsCounted :
    (runs m : ℕ) (st st' : State)
    → runs + 1 < 2 ^ 32
    → IsCounted runs st
    → Steps m st st'
    → IsCounted runs st'
steps-IsCounted runs _ st _ small h stop = h
steps-IsCounted runs _ st st'' small h (then_step {st' = st'} before s) =
    Step-IsCounted runs st' st'' small (steps-IsCounted runs _ st st' small h before) s

-- Every thread came to the end of its test cases.
abbrev pub AllPassed : List Thread → Type 0
AllPassed [] = Unit {0}
AllPassed (returned true ∷ ts) = AllPassed ts
AllPassed (_ ∷ ts) = ⊥

all_passed : (ts : List Thread) → AllReturned ts → (all_counted ts ≡ length ts) ↔ AllPassed ts
all_passed [] r = (λ h. tt, λ h. refl)
all_passed (returned true ∷ ts) r =
    let (to, from) = all_passed ts r in (λ h. to (omega (arith, h)), λ h. omega (arith, from h))
all_passed (returned false ∷ ts) r =
    (λ h. absurd (omega (arith, h, all_counted-length ts)), λ h. absurd h)
all_passed (starting k ∷ ts) r = absurd r
all_passed (running k ∷ ts) r = absurd r

-- When all the threads of a parallel run have returned, the run counts as a success exactly if
-- every one of them came to the end of its test cases, in whatever order they took their steps. The
-- number of the runs is below that of the values of the counter by at least two.
pub run_result_iff :
    (ks : List ℕ) (m : ℕ) (st : State)
    → length ks + 1 < 2 ^ 32
    → Steps m (start ks) st
    → AllReturned st.threads
    → (run_result (length ks) st ≡ true) ↔ AllPassed st.threads
run_result_iff ks m st small steps done =
    let begin : IsCounted (length ks) (start ks) = record {
      count = sym (start_counted ks);
      total = start_total ks;
    } in
    let h = steps-IsCounted (length ks) m (start ks) st small begin steps in
    let (to, from) = all_passed st.threads done in
    (
      λ e. to (ground (arith, e, h.count, h.total, small)),
      λ p. ground (arith, from p, h.count, h.total, small),
    )
