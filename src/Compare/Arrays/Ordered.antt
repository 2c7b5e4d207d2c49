-- ===== src/Compare/Arrays/Ordered.antt =====
-- arrayComparison where the order matters: the greedy search against embeddings of lists.
use apitest.Base.{
  ℕ, suc, ◌+◌, ◌≤◌, ◌<◌, ◌≡◌, refl, Bool, true, false, ◌⊎◌, inl, inr, List, [], ◌∷◌, ◌++◌, ◌↔◌, ok,
  ok-injective, sym, ap, subst, ◌∙◌, none, some, arith, length, ◌==◌, Bool-cases, ltb, All,
  All-append_right, length-append, ◌&&◌, not, le→ltb, lt→ltb, ltb→lt, ltb→le,
}
use mathlib.Core.List.{append_assoc}
use apitest.Json.{Value}
use apitest.Host.{Host}
use apitest.Compare.Types.{CompareResult, Context, Part, not_in_order}
use apitest.Compare.Arrays.Longer.{ArePrintable, longer_fails}
use apitest.Compare.Arrays.{
  mem, index_key, scan_ordered, ArrayState, array_step, array_loop, any_untaken, close_extra,
  array_start, array_comparison, note_ordered, close_ordered, add_failures,
}

-- The comparison of `p` with `v` returns, with the verdict `b`.
abbrev pub Says : Context → Part → Value → Bool → Type 0
Says next p v b = (res : CompareResult) × (p.1 v next ≡ ok res) × (res.equal ≡ b)

-- Every comparison of a part of `ps` with an element of `vs` returns.
abbrev pub AllDecide : Context → List Part → List Value → Type 0
AllDecide next ps vs = All (λ (p : Part). All (λ v. (b : Bool) × Says next p v b) vs) ps

-- The parts, in order, fit elements of the list, in order.
pub data Embeds (next : Context) : List Part → List Value → Type 0 where
  done : {vs : List Value} → Embeds next [] vs
  skip :
      {ps : List Part} {v : Value} {vs : List Value} → Embeds next ps vs → Embeds next ps (v ∷ vs)
  take :
      {p : Part} {ps : List Part} {v : Value} {vs : List Value}
      → Says next p v true
      → Embeds next ps vs
      → Embeds next (p ∷ ps) (v ∷ vs)

pub Says-functional :
    (next : Context) (p : Part) (v : Value) → Says next p v true → Says next p v false → ⊥
Says-functional next p v (r, e, f) (s, g, h) =
    let same : r ≡ s = ok-injective (sym e ∙ g) in
    let b : true ≡ false = sym f ∙ ap (λ (x : CompareResult). x.equal) same ∙ h in cc

abbrev Misfits : Context → Part → List Value → Type 0
Misfits next p = All (λ v. Says next p v false)

Embeds-inversion :
    (next : Context) (p : Part) (ps : List Part) (v : Value) (vs : List Value)
    → Embeds next (p ∷ ps) (v ∷ vs)
    → (Says next p v true × Embeds next ps vs) ⊎ Embeds next (p ∷ ps) vs
Embeds-inversion next p ps v vs (skip e) = inr e
Embeds-inversion next p ps v vs (take s e) = inl (s, e)

Embeds-nil : (next : Context) (p : Part) (ps : List Part) → Embeds next (p ∷ ps) [] → ⊥
Embeds-nil next p ps e = elim e [ ]

-- A part less embeds too.
Embeds-tail :
    (next : Context) (p : Part) (ps : List Part) (vs : List Value)
    → Embeds next (p ∷ ps) vs
    → Embeds next ps vs
Embeds-tail next p ps [] e = absurd (Embeds-nil next p ps e)
Embeds-tail next p ps (v ∷ vs) e = elim (Embeds-inversion next p ps v vs e) [
  | inl (s, e') ↦ skip e'
  | inr e' ↦ skip (Embeds-tail next p ps vs e')
]

Embeds-skip :
    (next : Context) (ps : List Part) (us vs : List Value)
    → Embeds next ps vs
    → Embeds next ps (us ++ vs)
Embeds-skip next ps [] vs e = e
Embeds-skip next ps (u ∷ us) vs e = skip (Embeds-skip next ps us vs e)

-- Behind misfits and a fit, the first part may take the fit.
Embeds-greedy :
    (next : Context) (p : Part) (ps : List Part) (us : List Value) (v : Value) (vs : List Value)
    → Misfits next p us
    → Embeds next (p ∷ ps) (us ++ v ∷ vs)
    → Embeds next ps vs
Embeds-greedy next p ps [] v vs m e = elim (Embeds-inversion next p ps v vs e) [
  | inl (s, e') ↦ e'
  | inr e' ↦ Embeds-tail next p ps vs e'
]
Embeds-greedy next p ps (u ∷ us) v vs m e = elim (Embeds-inversion next p ps u (us ++ v ∷ vs) e) [
  | inl (s, e') ↦ absurd (Says-functional next p u s m.0)
  | inr e' ↦ Embeds-greedy next p ps us v vs m.1 e'
]

Embeds-of_Misfits :
    (next : Context) (p : Part) (ps : List Part) (vs : List Value)
    → Misfits next p vs
    → Embeds next (p ∷ ps) vs
    → ⊥
Embeds-of_Misfits next p ps [] m e = Embeds-nil next p ps e
Embeds-of_Misfits next p ps (v ∷ vs) m e = elim (Embeds-inversion next p ps v vs e) [
  | inl (s, e') ↦ Says-functional next p v s m.0
  | inr e' ↦ Embeds-of_Misfits next p ps vs m.1 e'
]

-- The search past the positions below `from`: it stops at the first fit.
abbrev Found : Context → Part → ℕ → ℕ → List Value → Type 0
Found next p from rk vs =
    (us : List Value) × (v : Value) × (rest : List Value) × (vs ≡ us ++ v ∷ rest)
    × Misfits next p us
    × Says next p v true
    × (scan_ordered p.1 next from rk vs ≡ ok (some (rk + length us)))

abbrev Missed : Context → Part → ℕ → ℕ → List Value → Type 0
Missed next p from rk vs = Misfits next p vs × (scan_ordered p.1 next from rk vs ≡ ok none)

abbrev pub Decides : Context → Part → List Value → Type 0
Decides next p = All (λ v. (b : Bool) × Says next p v b)

pub scan_hit :
    (next : Context) (p : Part) (from rk : ℕ) (v : Value) (vs : List Value)
    → from ≤ rk
    → Says next p v true
    → scan_ordered p.1 next from rk (v ∷ vs) ≡ ok (some rk)
unfolding scan_ordered
scan_hit next (lv, cmp) from rk v vs le (res, e, f) = rw (le→ltb _ _ le, e, f)

scan_miss :
    (next : Context) (p : Part) (from rk : ℕ) (v : Value) (vs : List Value)
    → from ≤ rk
    → Says next p v false
    → scan_ordered p.1 next from rk (v ∷ vs) ≡ scan_ordered p.1 next from (suc rk) vs
unfolding scan_ordered
scan_miss next (lv, cmp) from rk v vs le (res, e, f) = rw (le→ltb _ _ le, e, f)

scan_cases :
    (next : Context) (p : Part) (from rk : ℕ) (vs : List Value)
    → from ≤ rk
    → Decides next p vs
    → Found next p from rk vs ⊎ Missed next p from rk vs
scan_cases next p from rk [] le d = inr (tt, unfold scan_ordered in refl)
scan_cases next p from rk (v ∷ vs) le ((true, s), ds) = inl (
  [],
  v,
  vs,
  refl,
  tt,
  s,
  scan_hit next p from rk v vs le s ∙ ap (λ n. ok (some n)) (omega arith),
)
scan_cases next p from rk (v ∷ vs) le ((false, s), ds) =
    elim (scan_cases next p from (suc rk) vs (omega arith) ds) [
      | inl (us, w, rest, e, m, t, g) ↦ inl (
        v ∷ us,
        w,
        rest,
        ap (λ xs. v ∷ xs) e,
        (s, m),
        t,
        scan_miss next p from rk v vs le s ∙ g ∙ ap (λ n. ok (some n)) (omega arith),
      )
      | inr (m, g) ↦ inr ((s, m), scan_miss next p from rk v vs le s ∙ g)
    ]

pub scan_past :
    (next : Context) (p : Part) (from rk : ℕ) (us vs : List Value)
    → from ≡ rk + length us
    → scan_ordered p.1 next from rk (us ++ vs) ≡ scan_ordered p.1 next from from vs
unfolding scan_ordered
scan_past next p from rk [] vs e = ap (λ n. scan_ordered p.1 next from n vs) (omega arith)
scan_past next p from rk (u ∷ us) vs e =
    rw (lt→ltb rk from (omega arith), scan_ordered)
      (scan_past next p from (suc rk) us vs (omega arith))

abbrev pub hit : ℕ → ℕ → ArrayState → ArrayState
hit lk i s = record s { taken = lk ∷ s.taken; from = suc i }

abbrev missed : ℕ → Value → ArrayState → ArrayState
missed lk lv s = record s {
  res = add_failures (record { key = index_key lk; message = not_in_order lv } ∷ []) s.res;
}

-- The left positions taken so far: none from `lk` on, and all below if nothing has failed.
record IsTaken (lk : ℕ) (s : ArrayState) : Type 0 where
  none_above : (j : ℕ) → lk ≤ j → mem j s.taken ≡ false
  all_below : s.res.equal ≡ true → (j : ℕ) → j < lk → mem j s.taken ≡ true

hit-IsTaken : (lk i : ℕ) (s : ArrayState) → IsTaken lk s → IsTaken (suc lk) (hit lk i s)
hit-IsTaken lk i s k = record {
  none_above = λ j le. ground (arith, k.none_above j (omega arith));
  all_below = λ e j lt. elim (Bool-cases (lk == j)) [
    | inl same ↦ rw same
    | inr other ↦ rw other (k.all_below e j (ground arith))
  ];
}

missed-IsTaken :
    (lk : ℕ) (lv : Value) (s : ArrayState) → IsTaken lk s → IsTaken (suc lk) (missed lk lv s)
missed-IsTaken lk lv s k = record {
  none_above = λ j le. k.none_above j (omega arith);
  all_below = λ e j lt. cc;
}

regroup :
    (xs ys : List Value) (v : Value) (zs : List Value)
    → xs ++ (ys ++ v ∷ zs) ≡ (xs ++ (ys ++ v ∷ [])) ++ zs
regroup xs ys v zs = simp append_assoc

-- With all left positions taken, an element is left over exactly if the right list is longer.
pub any_untaken-all :
    (n k : ℕ) (vs : List Value) (taken : List ℕ)
    → k ≤ n
    → ((j : ℕ) → n ≤ j → mem j taken ≡ false)
    → ((j : ℕ) → j < n → mem j taken ≡ true)
    → any_untaken k vs taken ≡ ltb n (k + length vs)
unfolding any_untaken
any_untaken-all n k [] taken le above below = ground arith
any_untaken-all n k (v ∷ vs) taken le above below = elim (Bool-cases (ltb k n)) [
  | inl lt ↦
      rw (below k (ltb→lt k n lt))
        (any_untaken-all n (suc k) vs taken (ltb→lt k n lt) above below ∙ ap (ltb n) (omega arith))
  | inr ge ↦ rw (above k (ltb→le k n ge)) (sym (lt→ltb _ _ (ground arith)))
]

pub close_extra-equal :
    (no_extra : Bool) (right : List Value) (t : ArrayState)
    → (close_extra no_extra right t).equal
      ≡ (t.res.equal && not (no_extra && any_untaken 0 right t.taken))
unfolding close_extra
close_extra-equal no_extra right t = ground arith

module _ (curr next : Context) (right : List Value) (ordered : curr.order_matters ≡ true) where
  pub array_step-hit :
      (lk : ℕ) (p : Part) (i : ℕ) (s : ArrayState)
      → scan_ordered p.1 next s.from 0 right ≡ ok (some i)
      → array_step curr next right lk p s ≡ ok (hit lk i s)
  unfolding array_step note_ordered close_ordered
  array_step-hit lk (lv, cmp) i s e = rw (ordered, e) (ground arith)

  array_step-missed :
      (lk : ℕ) (p : Part) (s : ArrayState)
      → IsTaken lk s
      → scan_ordered p.1 next s.from 0 right ≡ ok none
      → array_step curr next right lk p s ≡ ok (missed lk p.0 s)
  unfolding array_step note_ordered close_ordered
  array_step-missed lk (lv, cmp) s k e = rw (ordered, e, k.none_above lk (omega arith))

  -- What the loop reaches from round `lk` on, where `rest` is not yet passed.
  abbrev Reaches : ℕ → List Part → List Value → ArrayState → Type 0
  Reaches lk ps rest s =
      (t : ArrayState) × (array_loop curr next right lk ps s ≡ ok t)
      × IsTaken (lk + length ps) t
      × ((t.res.equal ≡ true) ↔ ((s.res.equal ≡ true) × Embeds next ps rest))

  loop_hit :
      (lk : ℕ) (p : Part) (ps : List Part) (us : List Value) (v : Value) (rest : List Value) (i : ℕ)
      (s : ArrayState)
      → Misfits next p us
      → Says next p v true
      → scan_ordered p.1 next s.from 0 right ≡ ok (some i)
      → Reaches (suc lk) ps rest (hit lk i s)
      → Reaches lk (p ∷ ps) (us ++ v ∷ rest) s
  unfolding array_loop
  loop_hit lk p ps us v rest i s m fits e (t, run, taken, iff) = (
    t,
    rw (array_step-hit lk p i s e) run,
    subst (λ n. IsTaken n t) (omega arith) taken,
    (
      λ h. ((iff.0 h).0, Embeds-skip next (p ∷ ps) us (v ∷ rest) (take fits (iff.0 h).1)),
      λ h. iff.1 (h.0, Embeds-greedy next p ps us v rest m h.1),
    ),
  )

  loop_missed :
      (lk : ℕ) (p : Part) (ps : List Part) (rest : List Value) (s : ArrayState)
      → IsTaken lk s
      → Misfits next p rest
      → scan_ordered p.1 next s.from 0 right ≡ ok none
      → Reaches (suc lk) ps rest (missed lk p.0 s)
      → Reaches lk (p ∷ ps) rest s
  unfolding array_loop
  loop_missed lk p ps rest s k m e (t, run, taken, iff) = (
    t,
    rw (array_step-missed lk p s k e) run,
    subst (λ n. IsTaken n t) (omega arith) taken,
    (λ h. cc (iff.0 h).0, λ h. absurd (Embeds-of_Misfits next p ps rest m h.1)),
  )

  array_loop-Reaches :
      (lk : ℕ) (ps : List Part) (pre rest : List Value) (s : ArrayState)
      → right ≡ pre ++ rest
      → s.from ≡ length pre
      → IsTaken lk s
      → AllDecide next ps right
      → Reaches lk ps rest s
  unfolding array_loop
  array_loop-Reaches lk [] pre rest s split at k d =
      (s, refl, subst (λ n. IsTaken n s) (omega arith) k, (λ h. (h, done), λ h. h.0))
  array_loop-Reaches lk (p ∷ ps) pre rest s split at k d =
      let past : scan_ordered p.1 next s.from 0 right ≡ scan_ordered p.1 next s.from s.from rest =
        rw split (scan_past next p s.from 0 pre rest (omega arith)) in
      let ds : Decides next p rest =
        All-append_right _ pre rest (subst (Decides next p) split d.0) in
      elim (scan_cases next p s.from s.from rest (omega arith) ds) [
        | inl (us, v, r, e, m, fits, g) ↦
            let i = s.from + length us in
            subst (λ xs. Reaches lk (p ∷ ps) xs s) (sym e)
              (loop_hit lk p ps us v r i s m fits (past ∙ g) (
                array_loop-Reaches (suc lk) ps (pre ++ (us ++ v ∷ [])) r (hit lk i s)
                  (split ∙ ap (λ xs. pre ++ xs) e ∙ regroup pre us v r)
                  (omega (arith, length-append pre (us ++ v ∷ []), length-append us (v ∷ [])))
                  (hit-IsTaken lk i s k) d.1))
        | inr (m, g) ↦ loop_missed lk p ps rest s k m (past ∙ g) (
            array_loop-Reaches (suc lk) ps pre rest (missed lk p.0 s) split at
              (missed-IsTaken lk p.0 s k) d.1)
      ]

  not_longer-Embeds :
      (host : Host) (left : List Part)
      → length left ≤ length right
      → AllDecide next left right
      → (res : CompareResult) × (array_comparison host left right curr next ≡ ok res)
        × ((res.equal ≡ true)
            ↔ (Embeds next left right × (curr.no_extra ≡ true → length left ≡ length right)))
  unfolding array_comparison
  not_longer-Embeds host left le d =
      let start : IsTaken 0 array_start = record {
        none_above = λ j _. refl;
        all_below = λ e j lt. absurd (omega arith);
      } in
      let (t, run, taken, iff) = array_loop-Reaches 0 left [] right array_start refl refl start d in
      let extra : t.res.equal ≡ true
          → any_untaken 0 right t.taken ≡ ltb (length left) (length right) =
        λ e.
          any_untaken-all (length left) 0 right t.taken (omega arith)
            (λ j le'. taken.none_above j (omega arith)) (λ j lt. taken.all_below e j (omega arith))
          ∙ ap (ltb (length left)) (omega arith) in
      let verdict = close_extra-equal curr.no_extra right t in
      (
        close_extra curr.no_extra right t,
        rw (le→ltb (length right) (length left) le, run),
        (
          λ h.
              let te : t.res.equal ≡ true = ground (arith, verdict) in
              ((iff.0 te).1, λ ne. ground (arith, verdict, extra te)),
          λ h.
              let te = iff.1 (refl, h.0) in
              elim (Bool-cases curr.no_extra) [
                | inl ne ↦ ground (arith, verdict, extra te, h.1 ne)
                | inr no' ↦ ground (arith, verdict)
              ],
        ),
      )

  Embeds-length :
      (left : List Part) (vs : List Value) → Embeds next left vs → length left ≤ length vs
  Embeds-length [] vs e = omega arith
  Embeds-length (p ∷ ps) [] e = elim e [ ]
  Embeds-length (p ∷ ps) (v ∷ vs) (skip e) = omega (arith, Embeds-length (p ∷ ps) vs e)
  Embeds-length (p ∷ ps) (v ∷ vs) (take s e) = omega (arith, Embeds-length ps vs e)

  -- Where the order matters, every comparison of a part with an element returns, and a longer
  -- expected array can be printed with the actual one, the comparison returns, and it is equal
  -- exactly if the parts embed, in order, into the actual array and, with `no_extra`, the arrays have
  -- the same length.
  pub array_comparison-Embeds :
      (host : Host) (left : List Part)
      → (length right < length left → ArePrintable host left right)
      → AllDecide next left right
      → (res : CompareResult) × (array_comparison host left right curr next ≡ ok res)
        × ((res.equal ≡ true)
            ↔ (Embeds next left right × (curr.no_extra ≡ true → length left ≡ length right)))
  array_comparison-Embeds host left printable d =
      elim (Bool-cases (ltb (length right) (length left))) [
        | inl lt ↦
            let longer = ltb→lt _ _ lt in
            let (res, run, e) = longer_fails host left right curr next longer (printable longer) in
            (
              res,
              run,
              (
                λ h. absurd (let no : true ≡ false = sym h ∙ e in cc),
                λ h. absurd (omega (arith, longer, Embeds-length left right h.0)),
              ),
            )
        | inr ge ↦ not_longer-Embeds host left (ltb→le _ _ ge) d
      ]
