-- ===== src/Suite.antt =====
-- api_testsuite.go: the parallel runs of one file of tests. The goroutines of parseAndRunTest are
-- threads that interleave at the ends of their tests; what a test does is left open, so a thread may
-- go on or return at each. The counter is a uint32.
pub mod Invariant
pub mod Progress
pub mod Nested
pub mod Loading
use apitest.Base.{
  ℕ, zero, suc, ◌+◌, ◌*◌, ◌%◌, ◌^◌, Bool, true, false, not, ◌&&◌, List, [], ◌∷◌, ◌++◌, map, ◌==◌,
  ltb, length, if◌then◌else◌,
}

-- A goroutine with the number of its test cases: not begun, in its loop with the cases that are
-- left, or returned, with or without having counted itself.
pub data Thread : Type 0 where
  starting : ℕ → Thread
  running : ℕ → Thread
  returned : Bool → Thread

-- successCount.Add(1)
abbrev pub add_one : ℕ → ℕ
add_one count = (count + 1) % 2 ^ 32

-- What a goroutine does next, with the counter before and after.
pub data ThreadStep : Thread → ℕ → Thread → ℕ → Type 0 where
  -- the template does not render, or its text is no JSON
  load_fails : {k n : ℕ} → ThreadStep (starting k) n (returned false) n
  loads : {k n : ℕ} → ThreadStep (starting k) n (running k) n
  passes : {k n : ℕ} → ThreadStep (running (suc k)) n (running k) n
  fails : {k n : ℕ} → ThreadStep (running (suc k)) n (returned false) n
  counts : {n : ℕ} → ThreadStep (running zero) n (returned true) (add_one n)

pub record State : Type 0 where
  pub threads : List Thread
  pub success_count : ℕ

pub data Step : State → State → Type 0 where
  step :
      (xs : List Thread) (t t' : Thread) (ys : List Thread) (n n' : ℕ)
      → ThreadStep t n t' n'
      → Step
          (record { threads = xs ++ t ∷ ys; success_count = n })
          (record { threads = xs ++ t' ∷ ys; success_count = n' })

-- A number of steps, one after the other.
pub data Steps : ℕ → State → State → Type 0 where
  stop : {st : State} → Steps zero st st
  then_step : {m : ℕ} {st st' st'' : State} → Steps m st st' → Step st' st'' → Steps (suc m) st st''

-- `for runIdx := range parallelRuns`, with the number of cases that each run will find.
abbrev pub start : List ℕ → State
start ks = record { threads = map starting ks; success_count = 0 }

-- waitGroup.Wait() returns.
abbrev pub AllReturned : List Thread → Type 0
AllReturned [] = Unit {0}
AllReturned (returned b ∷ ts) = AllReturned ts
AllReturned (_ ∷ ts) = ⊥

-- `successCount.Load() == uint32(parallelRuns)`
abbrev pub run_result : ℕ → State → Bool
run_result runs st = st.success_count == runs % 2 ^ 32
