-- ===== src/Suite/Progress.antt =====
-- The threads of a parallel run all return, after a bounded number of steps.
use apitest.Base.{
  ℕ, zero, suc, ◌+◌, ◌≡◌, ◌≤◌, ◌<◌, ◌⊎◌, inl, inr, refl, ap, sym, subst, Bool, true, List, [], ◌∷◌,
  ◌++◌, map, arith,
}
use apitest.Suite.{
  Thread, ThreadStep, State, Step, Steps, starting, running, returned, load_fails, loads, passes,
  fails, counts, step, stop, then_step, start, AllReturned, add_one,
}

-- The most steps that a thread can still take.
abbrev pub left : Thread → ℕ
left (starting k) = k + 2
left (running k) = k + 1
left (returned b) = 0

abbrev pub all_left : List Thread → ℕ
all_left [] = 0
all_left (t ∷ ts) = left t + all_left ts

all_left-append : (xs ys : List Thread) → all_left (xs ++ ys) ≡ all_left xs + all_left ys
all_left-append [] ys = omega arith
all_left-append (x ∷ xs) ys = omega (arith, all_left-append xs ys)

thread_left : (t t' : Thread) (n n' : ℕ) → ThreadStep t n t' n' → left t' < left t
thread_left _ _ n n' load_fails = omega arith
thread_left _ _ n n' loads = omega arith
thread_left _ _ n n' passes = omega arith
thread_left _ _ n n' fails = omega arith
thread_left _ _ n n' counts = omega arith

Step-left : (st st' : State) → Step st st' → all_left st'.threads < all_left st.threads
Step-left _ _ (step xs t t' ys n n' s) =
    omega
      (arith, all_left-append xs (t ∷ ys), all_left-append xs (t' ∷ ys), thread_left t t' n n' s)

steps_left :
    (m : ℕ) (st st' : State) → Steps m st st' → m + all_left st'.threads ≤ all_left st.threads
steps_left _ st _ stop = omega arith
steps_left _ st st'' (then_step {m = m} {st' = st'} before s) =
    omega (arith, steps_left m st st' before, Step-left st' st'' s)

-- A parallel run of files with the given numbers of test cases takes at most two steps for each run
-- and one for each case.
pub steps_bound :
    (ks : List ℕ) (m : ℕ) (st : State) → Steps m (start ks) st → m ≤ all_left (map starting ks)
steps_bound ks m st steps = omega (arith, steps_left m (start ks) st steps)

-- The first thread that has not returned, with a step that it can take.
abbrev Enabled : List Thread → ℕ → Type 0
Enabled ts n =
    (xs : List Thread) × (t t' : Thread) × (ys : List Thread) × (n' : ℕ) × (ts ≡ xs ++ t ∷ ys)
    × ThreadStep t n t' n'

Enabled-later : (b : Bool) (ts : List Thread) (n : ℕ) → Enabled ts n → Enabled (returned b ∷ ts) n
Enabled-later b ts n (xs, t, t', ys, n', e, s) =
    (returned b ∷ xs, t, t', ys, n', ap (λ us. returned b ∷ us) e, s)

find-Enabled : (ts : List Thread) (n : ℕ) → AllReturned ts ⊎ Enabled ts n
find-Enabled [] n = inl tt
find-Enabled (starting k ∷ ts) n = inr ([], starting k, running k, ts, n, refl, loads)
find-Enabled (running zero ∷ ts) n =
    inr ([], running zero, returned true, ts, add_one n, refl, counts)
find-Enabled (running (suc k) ∷ ts) n = inr ([], running (suc k), running k, ts, n, refl, passes)
find-Enabled (returned b ∷ ts) n = elim (find-Enabled ts n) [
  | inl r ↦ inl r
  | inr e ↦ inr (Enabled-later b ts n e)
]

-- The wait for the threads of a parallel run is no deadlock: in every state all have returned, or
-- one of them can take a step.
pub no_deadlock : (st : State) → AllReturned st.threads ⊎ ((st' : State) × Step st st')
no_deadlock st = elim (find-Enabled st.threads st.success_count) [
  | inl r ↦ inl r
  | inr (xs, t, t', ys, n', e, s) ↦ inr (
    record { threads = xs ++ t' ∷ ys; success_count = n' },
    subst
        (λ ts.
          Step (record { threads = ts; success_count = st.success_count })
            (record { threads = xs ++ t' ∷ ys; success_count = n' }))
        (sym e) (step xs t t' ys st.success_count n' s),
  )
]
