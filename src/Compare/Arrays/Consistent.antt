-- ===== src/Compare/Arrays/Consistent.antt =====
-- A result of arrayComparison is equal exactly when it lists no failure.
use apitest.Base.{
  ℕ, zero, suc, ◌+◌, ◌≤◌, ◌<◌, ◌≡◌, refl, Bool, true, false, ◌⊎◌, inl, inr, List, [], ◌∷◌, ◌++◌, ok,
  bind_inversion, Outcome-cases, ok-injective, sym, ap, subst, ◌∙◌, none, some, arith, length,
  is_empty, map, ◌==◌, Bool-cases, ltb, All, if◌then◌else◌, is_empty-append, is_empty-map, Option,
}
use apitest.Json.{Value}
use apitest.Host.{Host}
use apitest.Compare.Types.{Failure, CompareResult, Context, Comparer, Part}
use apitest.Compare.Arrays.{
  mem, scan_ordered, scan_unordered, Scan, found_at, nowhere, ArrayState, array_step, array_loop,
  any_untaken, close_extra, array_start, array_comparison, note_ordered, close_ordered,
  note_unordered, element_failure, add_failures, compare_lengths,
}

abbrev pub IsConsistent : CompareResult → Type 0
IsConsistent r = r.equal ≡ is_empty r.failures

-- A comparer that returns only consistent results.
abbrev pub IsSound : Comparer → Type 0
IsSound cmp = (r : Value) (c : Context) (res : CompareResult) → cmp r c ≡ ok res → IsConsistent res

abbrev pub AreSound : List Part → Type 0
AreSound = All (λ (p : Part). IsSound p.1)

-- `remove n` drops the first `n`.
remove : ℕ → List ℕ → List ℕ
remove n [] = []
remove n (m ∷ ms) = if m == n then ms else m ∷ remove n ms

length-remove : (n : ℕ) (ms : List ℕ) → mem n ms ≡ true → suc (length (remove n ms)) ≤ length ms
unfolding remove
length-remove n [] h = cc
length-remove n (m ∷ ms) h = ground (arith, length-remove n ms)

mem-remove : (n k : ℕ) (ms : List ℕ) → k < n → mem k ms ≡ true → mem k (remove n ms) ≡ true
unfolding remove
mem-remove n k [] lt h = cc
mem-remove n k (m ∷ ms) lt h = ground (arith, mem-remove n k ms lt)

-- A list with every number below `n` has at least `n` elements.
pigeonhole : (n : ℕ) (ms : List ℕ) → ((k : ℕ) → k < n → mem k ms ≡ true) → n ≤ length ms
pigeonhole zero ms h = omega arith
pigeonhole (suc n) ms h =
    let below = pigeonhole n (remove n ms) (λ k lt. mem-remove n k ms lt (h k (omega arith))) in
    omega (arith, below, length-remove n ms (h n (omega arith)))

none_untaken :
    (k : ℕ) (vs : List Value) (taken : List ℕ) (i : ℕ)
    → any_untaken k vs taken ≡ false
    → k ≤ i
    → i < k + length vs
    → mem i taken ≡ true
unfolding any_untaken
none_untaken k [] taken i h le lt = absurd (omega arith)
none_untaken k (v ∷ vs) taken i h le lt = elim (Bool-cases (i == k)) [
  | inl e ↦ ground arith
  | inr ne ↦ none_untaken (suc k) vs taken i (ground arith) (ground arith) (omega arith)
]

pub untaken_of_short :
    (vs : List Value) (taken : List ℕ) → length taken < length vs → any_untaken 0 vs taken ≡ true
untaken_of_short vs taken lt = elim (Bool-cases (any_untaken 0 vs taken)) [
  | inl yes' ↦ yes'
  | inr no' ↦ absurd (
      omega (
        arith,
        pigeonhole (length vs) taken
            (λ k lt'. none_untaken 0 vs taken k no' (omega arith) (omega arith)),
      ))
]

-- Of an untaken element that does not fit, the failures are kept.
scan_unordered-keeps :
    (cmp : Comparer) (next : Context) (taken : List ℕ) (rk : ℕ) (vs : List Value)
    (fs gs : List Failure)
    → IsSound cmp
    → scan_unordered cmp next taken rk vs fs ≡ ok (nowhere gs)
    → (is_empty fs ≡ false) ⊎ (any_untaken rk vs taken ≡ true)
    → is_empty gs ≡ false
unfolding scan_unordered any_untaken
scan_unordered-keeps cmp next taken rk [] fs gs sound h c = ground arith
scan_unordered-keeps cmp next taken rk (v ∷ vs) fs gs sound h c =
    elim (Outcome-cases (cmp v next)) [
      | inl (tmp, e) ↦ ground (
        arith,
        sound v next tmp e,
        scan_unordered-keeps cmp next taken (suc rk) vs fs gs sound,
        scan_unordered-keeps cmp next taken (suc rk) vs (fs ++ tmp.failures) gs sound,
        is_empty-append fs tmp.failures,
      )
      | inr (x, e) ↦ ground (arith, scan_unordered-keeps cmp next taken (suc rk) vs fs gs sound)
    ]

-- What holds before round `lk` of the loop.
record IsKept (lk : ℕ) (s : ArrayState) : Type 0 where
  consistent : IsConsistent s.res
  few : length s.taken ≤ lk

pub add_failures-IsConsistent :
    (fs : List Failure) (r : CompareResult) → is_empty fs ≡ false → IsConsistent (add_failures fs r)
add_failures-IsConsistent fs r h = sym (is_empty-append r.failures fs h)

close_ordered-IsKept :
    (n lk : ℕ) (lv : Value) (s : ArrayState) → IsKept n s → IsKept n (close_ordered lk lv s)
unfolding close_ordered
close_ordered-IsKept n lk lv s k = elim (Bool-cases (mem lk s.taken)) [
  | inl e ↦ rw e k
  | inr e ↦
      rw e (record { consistent = add_failures-IsConsistent (_ ∷ []) s.res refl; few = k.few })
]

ordered-IsKept :
    (lk : ℕ) (lv : Value) (at : Option ℕ) (s : ArrayState)
    → IsKept lk s
    → IsKept (suc lk) (close_ordered lk lv (note_ordered lk at s))
unfolding note_ordered
ordered-IsKept lk lv none s k =
    close_ordered-IsKept (suc lk) lk lv s (record { consistent = k.consistent; few = omega arith })
ordered-IsKept lk lv (some rk) s k =
    close_ordered-IsKept (suc lk) lk lv (note_ordered lk (some rk) s)
      (record { consistent = k.consistent; few = omega arith })

unordered-IsKept :
    (lk : ℕ) (at : Scan) (s : ArrayState)
    → IsKept lk s
    → ((gs : List Failure) → at ≡ nowhere gs → is_empty gs ≡ false)
    → IsKept (suc lk) (note_unordered lk at s)
unfolding note_unordered
unordered-IsKept lk (found_at rk) s k h = record { consistent = k.consistent; few = omega arith }
unordered-IsKept lk (nowhere gs) s k h = record {
  consistent =
      add_failures-IsConsistent (map (element_failure lk) gs) s.res
        (is_empty-map (element_failure lk) gs ∙ h gs refl);
  few = omega arith;
}

module _ (curr next : Context) (right : List Value) where
  array_step-IsKept :
      (lk : ℕ) (p : Part) (s t : ArrayState)
      → IsSound p.1
      → lk < length right
      → IsKept lk s
      → array_step curr next right lk p s ≡ ok t
      → IsKept (suc lk) t
  unfolding array_step
  array_step-IsKept lk (lv, cmp) s t sound lt k h = elim (Bool-cases curr.order_matters) [
    | inl e ↦
        let (at, f, g) =
          bind_inversion (scan_ordered cmp next s.from 0 right)
            (λ at. ok (close_ordered lk lv (note_ordered lk at s))) (rw e at h) in
        subst (IsKept (suc lk)) (ok-injective g) (ordered-IsKept lk lv at s k)
    | inr e ↦
        let (at, f, g) =
          bind_inversion (scan_unordered cmp next s.taken 0 right [])
            (λ at. ok (note_unordered lk at s)) (rw e at h) in
        subst (IsKept (suc lk)) (ok-injective g) (
          unordered-IsKept lk at s k (λ gs p.
            scan_unordered-keeps cmp next s.taken 0 right [] gs sound (f ∙ ap ok p)
              (inr (untaken_of_short right s.taken (omega arith)))))
  ]

  array_loop-IsKept :
      (lk : ℕ) (ps : List Part) (s t : ArrayState)
      → AreSound ps
      → lk + length ps ≤ length right
      → IsKept lk s
      → array_loop curr next right lk ps s ≡ ok t
      → IsConsistent t.res
  unfolding array_loop
  array_loop-IsKept lk [] s t sound le k h =
      subst (λ (u : ArrayState). IsConsistent u.res) (ok-injective h) k.consistent
  array_loop-IsKept lk (p ∷ ps) s t sound le k h =
      let (u, e, h') =
        bind_inversion (array_step curr next right lk p s)
          (λ u. array_loop curr next right (suc lk) ps u) h in
      array_loop-IsKept (suc lk) ps u t sound.1 (omega arith)
        (array_step-IsKept lk p s u sound.0 (omega arith) k e) h'

close_extra-IsConsistent :
    (no_extra : Bool) (right : List Value) (s : ArrayState)
    → IsConsistent s.res
    → IsConsistent (close_extra no_extra right s)
unfolding close_extra
close_extra-IsConsistent no_extra right s k =
    ground (arith, λ (f : Failure). add_failures-IsConsistent (f ∷ []) s.res refl)

compare_lengths-IsConsistent :
    (host : Host) (left : List Part) (right : List Value) (res : CompareResult)
    → compare_lengths host left right ≡ ok res
    → IsConsistent res
unfolding compare_lengths
compare_lengths-IsConsistent host left right res h = ground arith

pub array_comparison-IsConsistent :
    (host : Host) (left : List Part) (right : List Value) (curr next : Context)
    (res : CompareResult)
    → AreSound left
    → array_comparison host left right curr next ≡ ok res
    → IsConsistent res
unfolding array_comparison
array_comparison-IsConsistent host left right curr next res sound h =
    elim (Bool-cases (ltb (length right) (length left))) [
      | inl e ↦ compare_lengths-IsConsistent host left right res (rw e at h)
      | inr e ↦
          let (s, f, g) =
            bind_inversion (array_loop curr next right 0 left array_start)
              (λ s. ok (close_extra curr.no_extra right s)) (rw e at h) in
          subst IsConsistent (ok-injective g) (
            close_extra-IsConsistent curr.no_extra right s (
              array_loop-IsKept curr next right 0 left array_start s sound (ground arith)
                (record { consistent = refl; few = omega arith }) f))
    ]
