-- ===== src/Compare/Arrays/Unordered.antt =====
-- arrayComparison where the order does not matter: every part gets an element of its own.
use apitest.Base.{
  ℕ, suc, ◌+◌, ◌≤◌, ◌<◌, ◌≡◌, refl, sym, true, false, ◌⊎◌, inl, inr, List, [], ◌∷◌, ◌++◌, ok, ap,
  ◌∙◌, some, arith, length, get_elem?, Bool-cases, ltb, le→ltb, ltb→lt, ltb→le,
}
use native.Mathlib.Nat.{zero-add}
use apitest.Json.{Value}
use apitest.Host.{Host}
use apitest.Compare.Types.{Failure, CompareResult, Context, Part}
use apitest.Compare.Arrays.Longer.{ArePrintable, longer_fails}
use apitest.Compare.Arrays.{
  mem, scan_unordered, Scan, found_at, nowhere, ArrayState, array_step, array_loop, close_extra,
  array_start, array_comparison, note_unordered,
}
use apitest.Compare.Arrays.Ordered.{Says, AllDecide, Decides, close_extra-equal}
use apitest.Compare.Arrays.Consistent.{untaken_of_short}

-- The part fits the element at position `i`.
abbrev pub FitsAt : Context → List Value → Part → ℕ → Type 0
FitsAt next vs p i = (v : Value) × (get_elem? vs i ≡ some v) × Says next p v true

-- Each part in turn fits the element at a position that no part before it has.
abbrev pub Assigned : Context → List Value → List ℕ → List Part → Type 0
Assigned next right taken [] = Unit {0}
Assigned next right taken (p ∷ ps) =
    (i : ℕ) × (mem i taken ≡ false) × FitsAt next right p i × Assigned next right (i ∷ taken) ps

abbrev Hit : Context → Part → List ℕ → ℕ → List Value → List Failure → Type 0
Hit next p taken rk vs fs =
    (i : ℕ) × (scan_unordered p.1 next taken rk vs fs ≡ ok (found_at (rk + i)))
    × (mem (rk + i) taken ≡ false)
    × FitsAt next vs p i

abbrev Miss : Context → Part → List ℕ → ℕ → List Value → List Failure → Type 0
Miss next p taken rk vs fs =
    (gs : List Failure) × (scan_unordered p.1 next taken rk vs fs ≡ ok (nowhere gs))

module _ (next : Context) (p : Part) (taken : List ℕ) where
  pub scan_skip :
      (rk : ℕ) (v : Value) (vs : List Value) (fs : List Failure)
      → mem rk taken ≡ true
      → scan_unordered p.1 next taken rk (v ∷ vs) fs ≡ scan_unordered p.1 next taken (suc rk) vs fs
  unfolding scan_unordered
  scan_skip rk v vs fs e = rw e

  pub scan_fit :
      (rk : ℕ) (v : Value) (vs : List Value) (fs : List Failure)
      → mem rk taken ≡ false
      → Says next p v true
      → scan_unordered p.1 next taken rk (v ∷ vs) fs ≡ ok (found_at rk)
  unfolding scan_unordered
  scan_fit rk v vs fs e (res, f, g) = rw (e, f, g)

  scan_misfit :
      (rk : ℕ) (v : Value) (vs : List Value) (fs : List Failure)
      → mem rk taken ≡ false
      → (s : Says next p v false)
      → scan_unordered p.1 next taken rk (v ∷ vs) fs
        ≡ scan_unordered p.1 next taken (suc rk) vs (fs ++ s.0.failures)
  unfolding scan_unordered
  scan_misfit rk v vs fs e (res, f, g) = rw (e, f, g)

  -- What is found, or not, behind the head is found, or not, with the head.
  scan_shift :
      (rk : ℕ) (v : Value) (vs : List Value) (fs gs : List Failure)
      → scan_unordered p.1 next taken rk (v ∷ vs) fs ≡ scan_unordered p.1 next taken (suc rk) vs gs
      → Hit next p taken (suc rk) vs gs ⊎ Miss next p taken (suc rk) vs gs
      → Hit next p taken rk (v ∷ vs) fs ⊎ Miss next p taken rk (v ∷ vs) fs
  scan_shift rk v vs fs gs e (inl (i, run, free, fit)) = inl (
    suc i,
    e ∙ run ∙ ap (λ n. ok (found_at n)) (omega arith),
    ap (λ n. mem n taken) (omega arith) ∙ free,
    fit,
  )
  scan_shift rk v vs fs gs e (inr (hs, run)) = inr (hs, e ∙ run)

  scan_cases :
      (rk : ℕ) (vs : List Value) (fs : List Failure)
      → Decides next p vs
      → Hit next p taken rk vs fs ⊎ Miss next p taken rk vs fs
  scan_cases rk [] fs d = inr (fs, unfold scan_unordered in refl)
  scan_cases rk (v ∷ vs) fs ((true, s), ds) = elim (Bool-cases (mem rk taken)) [
    | inl e ↦ scan_shift rk v vs fs fs (scan_skip rk v vs fs e) (scan_cases (suc rk) vs fs ds)
    | inr e ↦ inl (
      0,
      scan_fit rk v vs fs e s ∙ ap (λ n. ok (found_at n)) (omega arith),
      ap (λ n. mem n taken) (omega arith) ∙ e,
      (v, refl, s),
    )
  ]
  scan_cases rk (v ∷ vs) fs ((false, s), ds) = elim (Bool-cases (mem rk taken)) [
    | inl e ↦ scan_shift rk v vs fs fs (scan_skip rk v vs fs e) (scan_cases (suc rk) vs fs ds)
    | inr e ↦
        scan_shift rk v vs fs (fs ++ s.0.failures) (scan_misfit rk v vs fs e s)
          (scan_cases (suc rk) vs (fs ++ s.0.failures) ds)
  ]

module _ (curr next : Context) (right : List Value) (unordered : curr.order_matters ≡ false) where
  pub array_step-eq :
      (lk : ℕ) (p : Part) (at : Scan) (s : ArrayState)
      → scan_unordered p.1 next s.taken 0 right [] ≡ ok at
      → array_step curr next right lk p s ≡ ok (note_unordered lk at s)
  unfolding array_step
  array_step-eq lk (lv, cmp) at s e = rw (unordered, e)

  -- The loop ends; if the result is still equal, all parts from here on were assigned.
  abbrev Assigns : ℕ → List Part → ArrayState → Type 0
  Assigns lk ps s =
      (t : ArrayState) × (array_loop curr next right lk ps s ≡ ok t)
      × (length t.taken ≤ length s.taken + length ps)
      × (t.res.equal ≡ true → (s.res.equal ≡ true) × Assigned next right s.taken ps)

  loop-Hit :
      (lk : ℕ) (p : Part) (ps : List Part) (s : ArrayState)
      → (h : Hit next p s.taken 0 right [])
      → Assigns (suc lk) ps (record s { taken = (0 + h.0) ∷ s.taken })
      → Assigns lk (p ∷ ps) s
  unfolding array_loop note_unordered
  loop-Hit lk p ps s (i, run, free, fit) (t, go, few, spec) = (
    t,
    rw (array_step-eq lk p (found_at (0 + i)) s run) go,
    omega arith,
    λ e. ((spec e).0, (0 + i, free, rw zero-add fit, (spec e).1)),
  )

  loop-Miss :
      (lk : ℕ) (p : Part) (ps : List Part) (s : ArrayState)
      → (m : Miss next p s.taken 0 right [])
      → Assigns (suc lk) ps (note_unordered lk (nowhere m.0) s)
      → Assigns lk (p ∷ ps) s
  unfolding array_loop note_unordered
  loop-Miss lk p ps s (gs, run) (t, go, few, spec) =
      (t, rw (array_step-eq lk p (nowhere gs) s run) go, omega arith, λ e. cc (spec e).0)

  array_loop-Assigns :
      (lk : ℕ) (ps : List Part) (s : ArrayState) → AllDecide next ps right → Assigns lk ps s
  unfolding array_loop
  array_loop-Assigns lk [] s d = (s, refl, omega arith, λ e. (e, tt))
  array_loop-Assigns lk (p ∷ ps) s d = elim (scan_cases next p s.taken 0 right [] d.0) [
    | inl h ↦
        loop-Hit lk p ps s h
          (array_loop-Assigns (suc lk) ps (record s { taken = (0 + h.0) ∷ s.taken }) d.1)
    | inr m ↦
        loop-Miss lk p ps s m
          (array_loop-Assigns (suc lk) ps (note_unordered lk (nowhere m.0) s) d.1)
  ]

  not_longer-Assigned :
      (host : Host) (left : List Part)
      → length left ≤ length right
      → AllDecide next left right
      → (res : CompareResult) × (array_comparison host left right curr next ≡ ok res)
        × (res.equal ≡ true
            → Assigned next right [] left × (curr.no_extra ≡ true → length left ≡ length right))
  unfolding array_comparison
  not_longer-Assigned host left le d =
      let (t, run, few, spec) = array_loop-Assigns 0 left array_start d in
      let verdict = close_extra-equal curr.no_extra right t in
      (
        close_extra curr.no_extra right t,
        rw (le→ltb (length right) (length left) le, run),
        λ h.
            let te : t.res.equal ≡ true = ground (arith, verdict) in
            (
              (spec te).1,
              λ ne. elim (Bool-cases (ltb (length left) (length right))) [
                | inl lt ↦ ground (
                  arith,
                  verdict,
                  untaken_of_short right t.taken (omega (arith, few, ltb→lt _ _ lt)),
                )
                | inr ge ↦ omega (arith, ltb→le _ _ ge)
              ],
            ),
      )

  -- Where the order does not matter, every comparison of a part with an element returns, and a
  -- longer expected array can be printed with the actual one, the comparison returns; if it is equal,
  -- then each part fits an element of its own, and with `no_extra` the arrays have the same length.
  pub array_comparison-Assigned :
      (host : Host) (left : List Part)
      → (length right < length left → ArePrintable host left right)
      → AllDecide next left right
      → (res : CompareResult) × (array_comparison host left right curr next ≡ ok res)
        × (res.equal ≡ true
            → Assigned next right [] left × (curr.no_extra ≡ true → length left ≡ length right))
  array_comparison-Assigned host left printable d =
      elim (Bool-cases (ltb (length right) (length left))) [
        | inl lt ↦
            let longer = ltb→lt _ _ lt in
            let (res, run, e) = longer_fails host left right curr next longer (printable longer) in
            (res, run, λ h. absurd (let no : true ≡ false = sym h ∙ e in cc))
        | inr ge ↦ not_longer-Assigned host left (ltb→le _ _ ge) d
      ]
