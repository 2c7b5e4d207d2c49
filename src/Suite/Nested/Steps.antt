-- ===== src/Suite/Nested/Steps.antt =====
-- The steps of a suite keep what every passing test keeps.
use apitest.Base.{
  ℕ, zero, suc, ◌+◌, ◌*◌, ◌^◌, ◌<◌, ◌≤◌, ◌≡◌, refl, subst, Bool, true, false, not, ◌&&◌, String,
  Option, none, some, List, [], ◌∷◌, Outcome, ok, err, All, length, ltb, arith, if_elim,
  if◌then◌else◌,
}
use apitest.Base.Int.{ℤ, pos_part}
use apitest.PathSpec.{PathSpec}
use apitest.Suite.{add_one}
use apitest.Suite.Nested.{
  LoadError, Calls, Run, if_success, run_read_case, run_literal_test, reference, run_one, run_cases,
  test_cases, run_loaded, run_rendered, build_loader, test_goroutine, all_runs, counted, start_runs,
  run_manifest,
}
use apitest.Suite.Nested.Results.{Post, then_run-Post, weaken-Post, Keeps}

module _ {S T : Type 0} (h : Calls S T) where
  -- The file that a test stands in: the one that it refers to, or that of the reference.
  abbrev pub file_of : String → Option PathSpec → String
  file_of file none = file
  file_of file (some spec) = h.join (h.dir file) spec.path

  -- What the test cases refer to that `raw` is rendered to in the directory `d` occurs.
  abbrev pub Fills : (String → Type 0) → String → String → Type 0
  Fills Occurs d raw =
      (loader : ℤ) (rendered : String) (s : S) (cs : List String)
      → (h.render loader raw d s).0 ≡ ok rendered
      → test_cases h rendered ≡ ok cs
      → All (λ c. (t : String) → reference h c ≡ some t → Occurs t) cs

module _ {S T : Type 0} (h : Calls S T) (E Fits : Type 0) (I : S → Type 0) (keeps : Keeps h I) where
  -- A success keeps `I`, if `Fits`.
  abbrev pub Kept : S → Bool → S → Type 0
  Kept s b s' = Fits → b ≡ true → I s → I s'

  refused : (s s' : S) → Kept s false s'
  refused s s' = λ f e i. absurd (let no : false ≡ true = e in cc)

  run_literal_test-Kept :
      (file : String) (loader : ℤ) (index : ℕ) (c : String) (s : S)
      → Kept s
          (run_literal_test h file loader index c s).0
          (run_literal_test h file loader index c s).1
  unfolding run_literal_test run_read_case
  run_literal_test-Kept file loader index c s =
      elim (h.unmarshal_case c)
        as (λ r.
          Kept s (run_read_case h file loader index r (h.set_name file s)).0
            (run_read_case h file loader index r (h.set_name file s)).1) [
              | err e ↦ refused s (h.log e (h.set_name file s))
              | ok t ↦ λ f e i.
                  keeps.passes file loader index t (h.set_name file s) (keeps.set_name file s i) e
            ]

  module _ (call : String → String → ℤ → S → Run S) (Occurs : String → Type 0) (file : String)
      (called : (t : String) (loader : ℤ) (s : S)
        → Occurs t
        → Post E (Kept s) (call t file loader s)) where
    run_one-Kept :
        (loader : ℤ) (index : ℕ) (c : String) (r : Option String) (s : S)
        → ((t : String) → r ≡ some t → Occurs t)
        → Post E (Kept s) (run_one h call file loader index c r s)
    unfolding run_one
    run_one-Kept loader index c none s o = run_literal_test-Kept file loader index c s
    run_one-Kept loader index c (some t) s o = called t loader s (o t refl)

    next_cases :
        (next : S → Run S) (s s' : S) (b : Bool)
        → Kept s b s'
        → Post E (Kept s') (next s')
        → Post E (Kept s) (if_success next b s')
    next_cases next s s' false k n = refused s s'
    next_cases next s s' true k n =
        weaken-Post E (Kept s') (Kept s) (next s') n (λ b s'' n' f e i. n' f e (k f refl i))

    run_cases-Kept :
        (loader : ℤ) (index : ℕ) (cs : List String) (s : S)
        → All (λ c. (t : String) → reference h c ≡ some t → Occurs t) cs
        → Post E (Kept s) (run_cases h call file loader index cs s)
    unfolding run_cases
    run_cases-Kept loader index [] s o = λ f e i. i
    run_cases-Kept loader index (c ∷ cs) s (oc, o) =
        then_run-Post E (Kept s) (Kept s) (run_one h call file loader index c (reference h c) s) _
          (run_one-Kept loader index c (reference h c) s oc)
          (λ b s' k.
            next_cases (run_cases h call file loader (suc index) cs) s s' b k
              (run_cases-Kept loader (suc index) cs s' o))

    run_loaded-Kept :
        (loader : ℤ) (run_idx : ℕ) (r : Outcome String (List String)) (s : S)
        → ((cs : List String)
            → r ≡ ok cs
            → All (λ c. (t : String) → reference h c ≡ some t → Occurs t) cs)
        → Post E (Kept s) (run_loaded h call file loader run_idx r s)
    unfolding run_loaded
    run_loaded-Kept loader run_idx (err e) s o = refused s (h.log e s)
    run_loaded-Kept loader run_idx (ok cs) s o =
        run_cases-Kept loader (run_idx * length cs) cs s (o cs refl)

    run_rendered-Kept :
        (loader : ℤ) (run_idx : ℕ) (r : Outcome String String × S) (s : S)
        → (I s → I r.1)
        → ((rendered : String) (cs : List String)
            → r.0 ≡ ok rendered
            → test_cases h rendered ≡ ok cs
            → All (λ c. (t : String) → reference h c ≡ some t → Occurs t) cs)
        → Post E (Kept s) (run_rendered h call file loader run_idx r)
    unfolding run_rendered
    run_rendered-Kept loader run_idx (err e, s') s i o = refused s (h.log e s')
    run_rendered-Kept loader run_idx (ok rendered, s') s i o =
        weaken-Post E (Kept s') (Kept s)
          (run_loaded h call file loader run_idx (test_cases h rendered) s')
          (run_loaded-Kept loader run_idx (test_cases h rendered) s' (λ cs. o rendered cs refl))
          (λ b s'' k f e is. k f e (i is))

    test_goroutine-Kept :
        (root : ℤ) (run_idx : ℕ) (raw : String) (s : S)
        → Fills h Occurs (h.dir file) raw
        → Post E (Kept s) (test_goroutine h call file root run_idx raw s)
    unfolding test_goroutine
    test_goroutine-Kept root run_idx raw s o =
        let loader = build_loader root run_idx in
        run_rendered-Kept loader run_idx (h.render loader raw (h.dir file) s) s
          (keeps.render loader raw (h.dir file) s) (λ rendered cs. o loader rendered s cs)

    -- Of `count` runs that have counted themselves among `k`, `count'` among `m`: if these are all, so
    -- were the others, and `I` is kept.
    abbrev Complete : ℕ → ℕ → ℕ → S → ℕ → S → Type 0
    Complete count k m s count' s' =
        Fits → count ≤ k → m < 2 ^ 32 → (count' ≤ m) × (count' ≡ m → (count ≡ k) × (I s → I s'))

    all_runs_next :
        (root : ℤ) (raw : String) (n run_idx count k : ℕ) (s s' : S) (b : Bool)
        → Kept s b s'
        → Post E
            (Complete (if b then add_one count else count) (suc k) (suc k + n) s')
            (all_runs h call file root raw n (suc run_idx) (if b then add_one count else count) s')
        → Post E
            (Complete count k (k + suc n) s)
            (all_runs h call file root raw n (suc run_idx) (if b then add_one count else count) s')
    all_runs_next root raw n run_idx count k s s' true kept rest =
        weaken-Post E _ (Complete count k (k + suc n) s)
          (all_runs h call file root raw n (suc run_idx) (add_one count) s') rest
          (λ count' s'' c f few small.
            let (less, all) = c f (omega (arith, few, small)) (omega (arith, small)) in
            (
              omega (arith, less),
              λ full.
                  let (counted_all, i) = all (omega (arith, full)) in
                  (omega (arith, counted_all, few, small), λ is. i (kept f refl is)),
            ))
    all_runs_next root raw n run_idx count k s s' false kept rest =
        weaken-Post E _ (Complete count k (k + suc n) s)
          (all_runs h call file root raw n (suc run_idx) count s') rest
          (λ count' s'' c f few small.
            let (less, all) = c f (omega (arith, few)) (omega (arith, small)) in
            (
              omega (arith, less),
              λ full.
                  let (counted_all, i) = all (omega (arith, full)) in
                  absurd (omega (arith, counted_all, few)),
            ))

    all_runs-Complete :
        (root : ℤ) (raw : String) (n run_idx count k : ℕ) (s : S)
        → Fills h Occurs (h.dir file) raw
        → Post E (Complete count k (k + n) s) (all_runs h call file root raw n run_idx count s)
    unfolding all_runs
    all_runs-Complete root raw zero run_idx count k s o =
        λ f few small. (omega (arith, few), λ full. (omega (arith, full), λ i. i))
    all_runs-Complete root raw (suc n) run_idx count k s o =
        then_run-Post E (Kept s) (Complete count k (k + suc n) s)
          (test_goroutine h call file root run_idx raw s) _
          (test_goroutine-Kept root run_idx raw s o)
          (λ b s' kept. all_runs_next root raw n run_idx count k s s' b kept (
            all_runs-Complete root raw n (suc run_idx) (if b then add_one count else count) (suc k)
              s' o))

    counted-Kept :
        (runs : ℕ) (s : S) (m : Option (ℕ × S))
        → (Fits → runs < 2 ^ 32)
        → Post E (Complete 0 0 runs s) m
        → Post E (Kept s) (counted h call runs m)
    unfolding counted
    counted-Kept runs s none small c = c
    counted-Kept runs s (some (count, s')) small c = λ f e is.
        let (less, all) = c f (omega arith) (small f) in (all (ground (arith, e, small f))).1 is

    runs_small :
        (allowed : Bool) (runs : ℕ)
        → ltb 1 runs && not allowed ≡ false
        → (allowed ≡ true → Fits → runs < 2 ^ 32)
        → Fits
        → runs < 2 ^ 32
    runs_small true runs e small f = small refl f
    runs_small false runs e small f = ground (arith, e)

    start_runs-Kept :
        (root : ℤ) (allowed : Bool) (runs : ℕ) (raw : String) (s : S)
        → (allowed ≡ true → Fits → runs < 2 ^ 32)
        → Fills h Occurs (h.dir file) raw
        → Post E (Kept s) (start_runs h call file root allowed runs raw s)
    unfolding start_runs
    start_runs-Kept root allowed runs raw s small o =
        if_elim (Post E (Kept s)) (ltb 1 runs && not allowed) _ _ (λ e. refused s s)
          (λ e.
            let all : 0 + runs ≡ runs = omega arith in
            counted-Kept runs s (all_runs h call file root raw runs 0 0 s)
              (runs_small allowed runs e small)
              (subst (λ m. Post E (Complete 0 0 m s) (all_runs h call file root raw runs 0 0 s)) all
                (all_runs-Complete root raw runs 0 0 0 s o)))

  pub run_manifest-Kept :
      (call : String → String → ℤ → S → Run S) (Occurs : String → String → Type 0)
      → ((t file : String) (loader : ℤ) (s : S)
          → Occurs file t
          → Post E (Kept s) (call t file loader s))
      → (file : String) (root : ℤ) (allowed : Bool)
        (r : Outcome LoadError (Option PathSpec × String)) (s : S)
      → ((spec : PathSpec) (raw : String)
          → r ≡ ok (some spec, raw)
          → allowed ≡ true
          → Fits
          → pos_part spec.parallel_runs < 2 ^ 32)
      → ((spec : Option PathSpec) (raw : String)
          → r ≡ ok (spec, raw)
          → Fills h (Occurs (file_of h file spec)) (h.dir (file_of h file spec)) raw)
      → Post E (Kept s) (run_manifest h call file root allowed r s)
  unfolding run_manifest
  run_manifest-Kept call Occurs called file root allowed (err e) s small fills =
      refused s (h.log_load e s)
  run_manifest-Kept call Occurs called file root allowed (ok (none, raw)) s small fills =
      start_runs-Kept call (Occurs file) file (λ t. called t file) root allowed 1 raw s
        (λ a f. omega arith) (fills none raw refl)
  run_manifest-Kept call Occurs called file root allowed (ok (some spec, raw)) s small fills =
      let target = h.join (h.dir file) spec.path in
      start_runs-Kept call (Occurs target) target (λ t. called t target) root allowed
        (pos_part spec.parallel_runs) raw s (small spec raw refl) (fills (some spec) raw refl)
