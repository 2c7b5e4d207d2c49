-- ===== src/Compare/Arrays/Same.antt =====
-- arrayComparison of an array whose parts fit position by position: both searches find them there.
use apitest.Base.{
  ℕ, suc, ◌+◌, ◌<◌, ◌≡◌, refl, Bool, true, false, inl, inr, List, [], ◌∷◌, ◌++◌, ok, sym, ap, subst,
  ◌∙◌, some, arith, length, Bool-cases, ltb, if◌then◌else◌, le→ltb, lt→ltb, length-append,
}
use mathlib.Core.List.{append_assoc}
use apitest.Json.{Value}
use apitest.Host.{Host}
use apitest.Compare.Types.{Failure, Context, Part, equal_result}
use apitest.Compare.Arrays.{
  mem, scan_unordered, scan_ordered, found_at, ArrayState, array_step, array_loop, any_untaken,
  close_extra, array_start, array_comparison, note_unordered,
}
use apitest.Compare.Arrays.Ordered.{Says, scan_past, scan_hit, array_step-hit, any_untaken-all}
use apitest.Compare.Arrays.Unordered.{scan_skip, scan_fit, array_step-eq}

-- Part and element at the same position fit, and the lists are equally long.
abbrev pub Pointwise : Context → List Part → List Value → Type 0
Pointwise next [] [] = Unit {0}
Pointwise next (p ∷ ps) (v ∷ vs) = Says next p v true × Pointwise next ps vs
Pointwise next _ _ = ⊥

length-Pointwise :
    (next : Context) (ps : List Part) (vs : List Value)
    → Pointwise next ps vs
    → length ps ≡ length vs
length-Pointwise next [] [] h = refl
length-Pointwise next [] (v ∷ vs) h = absurd h
length-Pointwise next (p ∷ ps) [] h = absurd h
length-Pointwise next (p ∷ ps) (v ∷ vs) h = ap suc (length-Pointwise next ps vs h.1)

scan_taken :
    (next : Context) (p : Part) (taken : List ℕ) (rk : ℕ) (us vs : List Value) (fs : List Failure)
    → ((j : ℕ) → j < rk + length us → mem j taken ≡ true)
    → scan_unordered p.1 next taken rk (us ++ vs) fs
      ≡ scan_unordered p.1 next taken (rk + length us) vs fs
scan_taken next p taken rk [] vs fs h =
    ap (λ n. scan_unordered p.1 next taken n vs fs) (omega arith)
scan_taken next p taken rk (u ∷ us) vs fs h =
    scan_skip next p taken rk u (us ++ vs) fs (h rk (omega arith))
    ∙ scan_taken next p taken (suc rk) us vs fs (λ j lt. h j (omega arith))
    ∙ ap (λ n. scan_unordered p.1 next taken n vs fs) (omega arith)

-- The state after a round that finds the part at its own position.
abbrev advance : Bool → ℕ → ArrayState → ArrayState
advance ordered lk s = record s { taken = lk ∷ s.taken; from = if ordered then suc lk else s.from }

record IsAt (ordered : Bool) (lk : ℕ) (s : ArrayState) : Type 0 where
  taken : (j : ℕ) → mem j s.taken ≡ ltb j lk
  at : ordered ≡ true → s.from ≡ lk

advance-IsAt :
    (ordered : Bool) (lk : ℕ) (s : ArrayState)
    → IsAt ordered lk s
    → IsAt ordered (suc lk) (advance ordered lk s)
advance-IsAt ordered lk s k = record { taken = λ j. ground (arith, k.taken j); at = λ e. rw e }

module _ (curr next : Context) (right : List Value) where
  step_ordered :
      (lk : ℕ) (pre : List Value) (p : Part) (v : Value) (rest : List Value) (s : ArrayState)
      → right ≡ pre ++ v ∷ rest
      → lk ≡ length pre
      → curr.order_matters ≡ true
      → s.from ≡ lk
      → Says next p v true
      → array_step curr next right lk p s ≡ ok (advance true lk s)
  step_ordered lk pre p v rest s split len e at fit =
      let found : scan_ordered p.1 next s.from 0 right ≡ ok (some lk) =
        rw (split, at)
          (scan_past next p lk 0 pre (v ∷ rest) (omega arith)
            ∙ scan_hit next p lk lk v rest (omega arith) fit) in
      array_step-hit curr next right e lk p lk s found

  step_unordered :
      (lk : ℕ) (pre : List Value) (p : Part) (v : Value) (rest : List Value) (s : ArrayState)
      → right ≡ pre ++ v ∷ rest
      → lk ≡ length pre
      → curr.order_matters ≡ false
      → ((j : ℕ) → mem j s.taken ≡ ltb j lk)
      → Says next p v true
      → array_step curr next right lk p s ≡ ok (advance false lk s)
  unfolding note_unordered
  step_unordered lk pre p v rest s split len e taken fit =
      let found : scan_unordered p.1 next s.taken 0 right [] ≡ ok (found_at lk) = rw split (
        scan_taken next p s.taken 0 pre (v ∷ rest) [] (λ j lt. taken j ∙ lt→ltb j lk (omega arith))
        ∙ ap (λ n. scan_unordered p.1 next s.taken n (v ∷ rest) []) (omega arith)
        ∙ scan_fit next p s.taken lk v rest [] (taken lk ∙ le→ltb lk lk (omega arith)) fit) in
      array_step-eq curr next right e lk p (found_at lk) s found

  array_step-advance :
      (lk : ℕ) (pre : List Value) (p : Part) (v : Value) (rest : List Value) (s : ArrayState)
      → right ≡ pre ++ v ∷ rest
      → lk ≡ length pre
      → IsAt curr.order_matters lk s
      → Says next p v true
      → array_step curr next right lk p s ≡ ok (advance curr.order_matters lk s)
  array_step-advance lk pre p v rest s split len k fit = elim (Bool-cases curr.order_matters) [
    | inl e ↦
        step_ordered lk pre p v rest s split len e (k.at e) fit
        ∙ ap (λ b. ok (advance b lk s)) (sym e)
    | inr e ↦
        step_unordered lk pre p v rest s split len e k.taken fit
        ∙ ap (λ b. ok (advance b lk s)) (sym e)
  ]

  array_loop-Pointwise :
      (lk : ℕ) (pre : List Value) (ps : List Part) (rest : List Value) (s : ArrayState)
      → right ≡ pre ++ rest
      → lk ≡ length pre
      → IsAt curr.order_matters lk s
      → Pointwise next ps rest
      → (t : ArrayState) × (array_loop curr next right lk ps s ≡ ok t)
        × (t.res ≡ s.res)
        × IsAt curr.order_matters (lk + length ps) t
  unfolding array_loop
  array_loop-Pointwise lk pre [] rest s split len k h =
      (s, refl, refl, subst (λ n. IsAt curr.order_matters n s) (omega arith) k)
  array_loop-Pointwise lk pre (p ∷ ps) [] s split len k h = absurd h
  array_loop-Pointwise lk pre (p ∷ ps) (v ∷ rest) s split len k h =
      let b = curr.order_matters in
      let (t, run, res, at) =
        array_loop-Pointwise (suc lk) (pre ++ v ∷ []) ps rest (advance b lk s)
          (split ∙ sym (append_assoc pre (v ∷ []) rest)) (omega (arith, length-append pre (v ∷ [])))
          (advance-IsAt b lk s k) h.1 in
      (
        t,
        rw (array_step-advance lk pre p v rest s split len k h.0) run,
        res,
        subst (λ n. IsAt b n t) (omega arith) at,
      )

  -- An array compared with one that fits it position by position is equal, whatever the control.
  pub array_comparison-Pointwise :
      (host : Host) (left : List Part)
      → Pointwise next left right
      → array_comparison host left right curr next ≡ ok equal_result
  unfolding array_comparison close_extra
  array_comparison-Pointwise host left h =
      let start : IsAt curr.order_matters 0 array_start = record {
        taken = λ j. sym (le→ltb j 0 (omega arith));
        at = λ e. refl;
      } in
      let len = length-Pointwise next left right h in
      let (t, run, res, at) = array_loop-Pointwise 0 [] left right array_start refl refl start h in
      let none_left : any_untaken 0 right t.taken ≡ false =
        any_untaken-all (length left) 0 right t.taken (omega arith)
          (λ j le. at.taken j ∙ le→ltb _ _ (omega arith))
          (λ j lt. at.taken j ∙ lt→ltb _ _ (omega arith))
        ∙ le→ltb _ _ (omega arith) in
      rw (le→ltb (length right) (length left) (omega arith), run, none_left) (ground (arith, res))
