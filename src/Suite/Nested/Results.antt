-- ===== src/Suite/Nested/Results.antt =====
-- A rule for each way in which the steps of a suite are put together: what is said of their results.
use apitest.Base.{ℕ, ◌≡◌, Bool, true, String, Option, none, some}
use apitest.Base.Int.{ℤ}
use apitest.Suite.Nested.{Calls, Run, then_run, ran}

-- `P` is said of a result, and `E` of a run that is out of fuel.
abbrev pub Post : {S B : Type 0} → Type 0 → (B → S → Type 0) → Option (B × S) → Type 0
Post E P none = E
Post E P (some (b, s)) = P b s

pub then_run-Post :
    {S B : Type 0} (E : Type 0) (P : Bool → S → Type 0) (Q : B → S → Type 0) (m : Run S)
    (next : Bool → S → Option (B × S))
    → Post E P m
    → ((b : Bool) (s : S) → P b s → Post E Q (next b s))
    → Post E Q (then_run m next)
then_run-Post E P Q none next h k = h
then_run-Post E P Q (some (b, s)) next h k = k b s h

pub weaken-Post :
    {S B : Type 0} (E : Type 0) (P Q : B → S → Type 0) (m : Option (B × S))
    → Post E P m
    → ((b : B) (s : S) → P b s → Q b s)
    → Post E Q m
weaken-Post E P Q none h k = h
weaken-Post E P Q (some (b, s)) h k = k b s h

-- Where every step of a passing test keeps `I`.
pub record Keeps {S T : Type 0} (h : Calls S T) (I : S → Type 0) : Type 0 where
  pub render : (loader : ℤ) (raw d : String) (s : S) → I s → I (h.render loader raw d s).1
  pub set_name : (file : String) (s : S) → I s → I (h.set_name file s)
  pub new_child : (k : ℕ) (s : S) → I s → I (h.new_child k s)
  pub leave : (b : Bool) (s : S) → I s → I (h.leave b s)
  pub passes :
      (file : String) (loader : ℤ) (index : ℕ) (t : T) (s : S)
      → I s
      → (ran h t (h.run_api_test_case file loader index t s)).0 ≡ true
      → I (ran h t (h.run_api_test_case file loader index t s)).1
