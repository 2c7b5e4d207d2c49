-- ===== src/Report/Stats/Balance.antt =====
-- The groups of the statistics are of about the same runtime.
use apitest.Base.{
  ℕ, zero, suc, ◌+◌, ◌≤◌, ◌<◌, ◌≡◌, refl, ◌⊎◌, inl, inr, some, List, [], ◌∷◌, ltb, get_elem?,
  length, All, if_elim, arith, ap, ◌∙◌, subst,
}
use apitest.Report.Stats.{
  Timed, StatsElement, longest, lowest_from, get_lowest_runtime_group, add_runtime, stats_element,
  put_first, distribute, with_group,
}

abbrev pub total : List Timed → ℕ
total [] = 0
total (t ∷ ts) = t.execution_time + total ts

-- The group at `r` has a runtime that is lowest among the groups `gs` from index `i` on.
pub record IsLowest (i : ℕ) (gs : List ℕ) (r v : ℕ) : Type 0 where
  pub place : ℕ
  pub at : r ≡ i + place
  pub has : get_elem? gs place ≡ some v
  pub lowest : All (λ g. v ≤ g) gs

-- What the loop returns: the group that it has, or one with a runtime below `low`.
abbrev Found : ℕ → ℕ → ℕ → List ℕ → ℕ → Type 0
Found i group low gs r =
    ((r ≡ group) × All (λ g. low ≤ g) gs) ⊎ ((v : ℕ) × (v < low) × IsLowest i gs r v)

further :
    (i g : ℕ) (gs : List ℕ) (r v : ℕ) → v ≤ g → IsLowest (suc i) gs r v → IsLowest i (g ∷ gs) r v
further i g gs r v h l = record {
  place = suc l.place;
  at = omega (arith, l.at);
  has = l.has;
  lowest = (h, l.lowest);
}

Found-here :
    (i group low g : ℕ) (gs : List ℕ) (r : ℕ)
    → g < low
    → Found (suc i) i g gs r
    → Found i group low (g ∷ gs) r
Found-here i group low g gs r h (inl (e, a)) =
    inr (g, h, record { place = 0; at = omega (arith, e); has = refl; lowest = (omega arith, a) })
Found-here i group low g gs r h (inr (v, b, l)) =
    inr (v, omega (arith, h, b), further i g gs r v (omega (arith, b)) l)

Found-on :
    (i group low g : ℕ) (gs : List ℕ) (r : ℕ)
    → low ≤ g
    → Found (suc i) group low gs r
    → Found i group low (g ∷ gs) r
Found-on i group low g gs r h (inl (e, a)) = inl (e, (h, a))
Found-on i group low g gs r h (inr (v, b, l)) =
    inr (v, b, further i g gs r v (omega (arith, h, b)) l)

lowest_from-Found :
    (i group low : ℕ) (gs : List ℕ) → Found i group low gs (lowest_from i group low gs)
unfolding lowest_from
lowest_from-Found i group low [] = inl (refl, tt)
lowest_from-Found i group low (g ∷ gs) =
    if_elim (Found i group low (g ∷ gs)) (ltb g low) _ _
      (λ e. Found-here i group low g gs _ (ground (arith, e)) (lowest_from-Found (suc i) i g gs))
      (λ e.
        Found-on i group low g gs _ (ground (arith, e)) (lowest_from-Found (suc i) group low gs))

-- The group that is taken has a runtime that is lowest.
pub get_lowest_runtime_group-IsLowest :
    (g : ℕ) (gs : List ℕ)
    → g < longest
    → (k v : ℕ) × (get_lowest_runtime_group (g ∷ gs) ≡ some k) × IsLowest 0 (g ∷ gs) k v
unfolding get_lowest_runtime_group
get_lowest_runtime_group-IsLowest g gs h = elim (lowest_from-Found 0 0 longest (g ∷ gs)) [
  | inl (e, (a, b)) ↦ absurd (omega (arith, a, h))
  | inr (v, b, l) ↦ (lowest_from 0 0 longest (g ∷ gs), v, refl, l)
]

get_elem?-IsLowest : (gs : List ℕ) (k v : ℕ) → IsLowest 0 gs k v → get_elem? gs k ≡ some v
get_elem?-IsLowest gs k v l =
    let e : l.place ≡ k = omega (arith, l.at) in subst (λ p. get_elem? gs p ≡ some v) e l.has

-- From `m` on, by at most `bound`.
abbrev Between : ℕ → ℕ → List ℕ → Type 0
Between m bound gs = All (λ g. (m ≤ g) × (g ≤ m + bound)) gs

-- The runtimes stay below the duration that the search begins with.
abbrev Below : ℕ → List ℕ → Type 0
Below rest gs = All (λ g. g + rest < longest) gs

get_elem?-Between :
    (m bound v k : ℕ) (gs : List ℕ) → get_elem? gs k ≡ some v → Between m bound gs → m ≤ v
get_elem?-Between m bound v k [] at b = cc
get_elem?-Between m bound v zero (g ∷ gs) at ((b1, b2), b) =
    let same : g ≡ v = cc in omega (arith, same, b1)
get_elem?-Between m bound v (suc k) (g ∷ gs) at (h, b) = get_elem?-Between m bound v k gs at b

raise :
    (m bound v : ℕ) (gs : List ℕ)
    → m ≤ v
    → All (λ g. v ≤ g) gs
    → Between m bound gs
    → Between v bound gs
raise m bound v [] hm low b = tt
raise m bound v (g ∷ gs) hm (hv, low) ((b1, b2), b) =
    ((hv, omega (arith, hm, b2)), raise m bound v gs hm low b)

add_runtime-Between :
    (m bound e v k : ℕ) (gs : List ℕ)
    → e ≤ bound
    → m ≤ v
    → All (λ g. v ≤ g) gs
    → get_elem? gs k ≡ some v
    → Between m bound gs
    → Between v bound (add_runtime k e gs)
unfolding add_runtime
add_runtime-Between m bound e v k [] he hm low at b = tt
add_runtime-Between m bound e v zero (g ∷ gs) he hm (hv, low) at ((b1, b2), b) =
    let same : g ≡ v = cc in
    ((omega (arith, hv), omega (arith, same, he)), raise m bound v gs hm low b)
add_runtime-Between m bound e v (suc k) (g ∷ gs) he hm (hv, low) at ((b1, b2), b) =
    ((hv, omega (arith, hm, b2)), add_runtime-Between m bound e v k gs he hm low at b)

less_Below : (e rest : ℕ) (gs : List ℕ) → Below (e + rest) gs → Below rest gs
less_Below e rest [] b = tt
less_Below e rest (g ∷ gs) (h, b) = (omega (arith, h), less_Below e rest gs b)

add_runtime-Below :
    (e rest k : ℕ) (gs : List ℕ) → Below (e + rest) gs → Below rest (add_runtime k e gs)
unfolding add_runtime
add_runtime-Below e rest k [] b = tt
add_runtime-Below e rest zero (g ∷ gs) (h, b) = (omega (arith, h), less_Below e rest gs b)
add_runtime-Below e rest (suc k) (g ∷ gs) (h, b) =
    (omega (arith, h), add_runtime-Below e rest k gs b)

abbrev pub sum : List ℕ → ℕ
sum [] = 0
sum (g ∷ gs) = g + sum gs

sum-add_runtime :
    (k e v : ℕ) (gs : List ℕ) → get_elem? gs k ≡ some v → sum (add_runtime k e gs) ≡ sum gs + e
unfolding add_runtime
sum-add_runtime k e v [] at = cc
sum-add_runtime zero e v (g ∷ gs) at = omega arith
sum-add_runtime (suc k) e v (g ∷ gs) at = omega (arith, sum-add_runtime k e v gs at)

length-add_runtime : (k e : ℕ) (gs : List ℕ) → length (add_runtime k e gs) ≡ length gs
unfolding add_runtime
length-add_runtime k e [] = refl
length-add_runtime zero e (g ∷ gs) = refl
length-add_runtime (suc k) e (g ∷ gs) = ap suc (length-add_runtime k e gs)

-- What the groups are after the tests `ts` have been added to `gs`.
pub record IsSpread (bound : ℕ) (ts : List Timed) (gs gs' : List ℕ) : Type 0 where
  pub count : length gs' ≡ length gs
  pub sums : sum gs' ≡ sum gs + total ts
  pub least : ℕ
  pub balanced : All (λ g. (least ≤ g) × (g ≤ least + bound)) gs'

distribute_cons :
    (t : Timed) (ts : List Timed) (gs gs' : List ℕ) (ms : List StatsElement) (k : ℕ)
    → get_lowest_runtime_group gs ≡ some k
    → distribute ts (add_runtime k t.execution_time gs) ≡ some (gs', ms)
    → distribute (t ∷ ts) gs ≡ some (gs', stats_element k t ∷ ms)
unfolding distribute put_first with_group
distribute_cons t ts gs gs' ms k lowest run =
    ap
      (λ o.
        with_group o
          (λ k. put_first (stats_element k t) (distribute ts (add_runtime k t.execution_time gs))))
      lowest
    ∙ ap (put_first (stats_element k t)) run

pub distribute-IsSpread :
    (bound m : ℕ) (ts : List Timed) (gs : List ℕ)
    → 0 < length gs
    → All (λ t. t.execution_time ≤ bound) ts
    → Below (total ts) gs
    → Between m bound gs
    → (gs' : List ℕ) × (ms : List StatsElement) × (distribute ts gs ≡ some (gs', ms))
      × IsSpread bound ts gs gs'
unfolding distribute
distribute-IsSpread bound m [] gs some_group short below b =
    (gs, [], refl, record { count = refl; sums = omega arith; least = m; balanced = b })
distribute-IsSpread bound m (t ∷ ts) [] some_group short below b =
    absurd (omega (arith, some_group))
distribute-IsSpread bound m (t ∷ ts) (g ∷ gs) some_group (ht, short) below b =
    let (k, v, lowest, l) = get_lowest_runtime_group-IsLowest g gs (omega (arith, below.0)) in
    let has : get_elem? (g ∷ gs) k ≡ some v = get_elem?-IsLowest (g ∷ gs) k v l in
    let next = add_runtime k t.execution_time (g ∷ gs) in
    let (gs', ms, run, spread) =
      distribute-IsSpread bound v ts next
        (omega (arith, length-add_runtime k t.execution_time (g ∷ gs))) short
        (add_runtime-Below t.execution_time (total ts) k (g ∷ gs) below)
        (add_runtime-Between m bound t.execution_time v k (g ∷ gs) ht
          (get_elem?-Between m bound v k (g ∷ gs) has b) l.lowest has b) in
    (
      gs',
      stats_element k t ∷ ms,
      distribute_cons t ts (g ∷ gs) gs' ms k lowest run,
      record {
        count = spread.count ∙ length-add_runtime k t.execution_time (g ∷ gs);
        sums = omega (arith, spread.sums, sum-add_runtime k t.execution_time v (g ∷ gs) has);
        least = spread.least;
        balanced = spread.balanced;
      },
    )
