-- ===== src/Compare/Objects/Plain.antt =====
-- objectComparison where the expected object has no control keys: every key is looked up once, and
-- the iteration order does not show.
use apitest.Base.{
  ◌≡◌, refl, Bool, true, false, ◌⊎◌, inl, inr, String, List, [], ◌∷◌, ◌&&◌, ◌||◌, ◌↔◌, ok, arith,
  subst, none, some, sym, ap, ◌∙◌, Bool-cases, All, has_suffix, mem_str, ◌<>◌, str_eq, eq_iff,
  has_suffix-append, require,
}
use mathlib.Core.Option.{some-injective}
use apitest.Base.Dict.{Dict, lookup}
use apitest.Json.{Value, nil}
use apitest.Host.{Host}
use apitest.Compare.Types.{CompareResult, Context, no_control, Part, not_found, check}
use apitest.Compare.Checks.{key_checks, check_not_null}
use apitest.Compare.Arrays.{add_failures}
use apitest.Compare.Arrays.Ordered.{Says, Says-functional}
use apitest.Compare.Objects.{
  suffix, ObjectState, object_start, left_at, take_key, merge, or_nil, is_some, after_checks,
  side_control, normal_step, object_step, object_loop, any_extra, close_object, object_comparison,
  check_and_compare,
}

-- The control of a key that the expected object gives a value to, and nothing else.
abbrev pub strict : Context
strict = record no_control { must_exist = true }

check_not_null-false : (v : Value) → check_not_null v false ≡ ok tt
unfolding check_not_null
check_not_null-false nil = refl
check_not_null-false _ = refl

pub key_checks-strict :
    (host : Host) (v : Value) (r_ok : Bool) → key_checks host v r_ok strict ≡ require r_ok not_found
unfolding key_checks
key_checks-strict host v true = rw (check_not_null-false v)
key_checks-strict host v false = refl

module _ {V : Type 0} where
  -- No key of the object is a control key.
  abbrev pub NoControls : Dict V → Type 0
  NoControls = All (λ (kv : String × V). has_suffix kv.0 suffix ≡ false)

  abbrev pub Fresh : String → Dict V → Type 0
  Fresh k = All (λ (kv : String × V). str_eq kv.0 k ≡ false)

  -- The keys of a Go map are different.
  abbrev pub Distinct : Dict V → Type 0
  Distinct [] = Unit {0}
  Distinct ((k, v) ∷ rest) = Fresh k rest × Distinct rest

lookup-control :
    (k : String) (left : Dict Part) → NoControls left → lookup (k <> suffix) left ≡ none
unfolding lookup
lookup-control k [] h = refl
lookup-control k ((j, p) ∷ rest) h = elim (Bool-cases (str_eq j (k <> suffix))) [
  | inl e ↦
      let same : has_suffix j suffix ≡ true =
        ap (λ t. has_suffix t suffix) ((eq_iff j (k <> suffix)).0 e) ∙ has_suffix-append k suffix in
      let no' = h.0 in cc
  | inr ne ↦ rw ne (lookup-control k rest h.1)
]

-- A right value is found for `p` under `k`, and its comparison returns with the verdict `b`.
abbrev pub Matches : Dict Value → String → Part → Bool → Type 0
Matches right k p b = (v : Value) × (lookup k right ≡ some v) × Says strict p v b

-- The actual object has no value under `k`, or its comparison returns.
abbrev pub KeyDecides : Dict Value → String × Part → Type 0
KeyDecides right (k, p) = (lookup k right ≡ none) ⊎ ((b : Bool) × Matches right k p b)

-- Every key of the expected object has a value in the actual one that fits.
abbrev pub Covers : Dict Part → Dict Value → Type 0
Covers left right = All (λ (kp : String × Part). Matches right kp.0 kp.1 true) left

-- Every key of the actual object is one of the expected object.
abbrev pub NoExtra : Dict Part → Dict Value → Type 0
NoExtra left right = All (λ (kv : String × Value). is_some (lookup kv.0 left) ≡ true) right

-- The state after a key without controls.
record IsNext (right : Dict Value) (k : String) (p : Part) (s t : ObjectState) : Type 0 where
  taken_right : t.taken_right ≡ k ∷ s.taken_right
  taken_left : t.taken_left ≡ k ∷ s.taken_left
  removed : t.removed ≡ s.removed
  verdict : (t.res.equal ≡ true) ↔ ((s.res.equal ≡ true) × Matches right k p true)

Matches-functional :
    (right : Dict Value) (k : String) (p : Part)
    → Matches right k p true
    → Matches right k p false
    → ⊥
Matches-functional right k p (v, e, s) (w, f, t) =
    let same : v ≡ w = some-injective _ _ (sym e ∙ f) in
    Says-functional strict p w (subst (λ u. Says strict p u true) same s) t

-- The state with `k` marked and its value looked up.
abbrev seen : Dict Value → String → ObjectState → ObjectState
seen right k s = record s {
  taken_right = k ∷ s.taken_right;
  taken_left = k ∷ s.taken_left;
  right_value = or_nil (lookup k right);
  right_ok = is_some (lookup k right);
}

take_key-new :
    (right : Dict Value) (k : String) (s : ObjectState)
    → mem_str k s.taken_right ≡ false
    → take_key right k s ≡ seen right k s
unfolding take_key
take_key-new right k s new = rw new

left_at-control :
    (left : Dict Part) (s : ObjectState) (k : String)
    → NoControls left
    → left_at left s (k <> suffix) ≡ none
unfolding left_at
left_at-control left s k plain = elim (Bool-cases (mem_str (k <> suffix) s.removed)) [
  | inl e ↦ rw e
  | inr e ↦ rw e (lookup-control k left plain)
]

pub str_eq_comm : (a b : String) → str_eq a b ≡ str_eq b a
str_eq_comm a b = ground (arith, eq_iff a b, eq_iff b a)

-- The remaining keys are marked in neither set.
abbrev Unseen : ObjectState → Dict Part → Type 0
Unseen s = All (λ (kp : String × Part).
    (mem_str kp.0 s.taken_right ≡ false) × (mem_str kp.0 s.taken_left ≡ false))

Unseen-next :
    (right : Dict Value) (k : String) (p : Part) (s t : ObjectState) (rest : Dict Part)
    → IsNext right k p s t
    → Fresh k rest
    → Unseen s rest
    → Unseen t rest
Unseen-next right k p s t [] next fresh new = tt
Unseen-next right k p s t ((j, q) ∷ rest) next fresh new =
    let ne = str_eq_comm k j ∙ fresh.0 in
    (
      (rw (next.taken_right, ne) new.0.0, rw (next.taken_left, ne) new.0.1),
      Unseen-next right k p s t rest next fresh.1 new.1,
    )

Unseen-start : (rest : Dict Part) → Unseen object_start rest
Unseen-start [] = tt
Unseen-start (kp ∷ rest) = ((refl, refl), Unseen-start rest)

any_extra-NoExtra :
    (left : Dict Part) (right : Dict Value) (taken : List String)
    → ((j : String) → mem_str j taken ≡ (false || is_some (lookup j left)))
    → (any_extra right taken ≡ false) ↔ NoExtra left right
unfolding any_extra
any_extra-NoExtra left [] taken h = (λ _. tt, λ _. refl)
any_extra-NoExtra left ((k, v) ∷ right) taken h =
    let (to, from') = any_extra-NoExtra left right taken h in
    (λ e. (ground (arith, h k), to (ground arith)), λ n. rw (h k, n.0) (from' n.1))

module _ (host : Host) (left : Dict Part) (right : Dict Value) (plain : NoControls left) where
  normal_step-plain :
      (k : String) (p : Part) (s : ObjectState)
      → mem_str k s.taken_right ≡ false
      → normal_step host left right k p s
        ≡ after_checks k
            (some p)
            strict
            (require (is_some (lookup k right)) not_found)
            (seen right k s)
  unfolding normal_step check_and_compare side_control
  normal_step-plain k p s new = rw (
    take_key-new right k s new,
    left_at-control left (seen right k s) k plain,
    key_checks-strict host (or_nil (lookup k right)) (is_some (lookup k right)),
  )

  normal_step-missing :
      (k : String) (p : Part) (s : ObjectState)
      → mem_str k s.taken_right ≡ false
      → lookup k right ≡ none
      → (t : ObjectState) × (normal_step host left right k p s ≡ ok t) × IsNext right k p s t
  unfolding after_checks
  normal_step-missing k p s new missing = (
    record (seen right k s) {
      res = add_failures (record { key = k; message = check not_found } ∷ []) s.res;
    },
    normal_step-plain k p s new ∙ rw missing,
    record {
      taken_right = refl;
      taken_left = refl;
      removed = refl;
      verdict = (λ h. cc, λ h. let e = sym missing ∙ h.1.1 in cc);
    },
  )

  normal_step-found :
      (k : String) (p : Part) (s : ObjectState) (b : Bool)
      → mem_str k s.taken_right ≡ false
      → Matches right k p b
      → (t : ObjectState) × (normal_step host left right k p s ≡ ok t) × IsNext right k p s t
  unfolding after_checks merge
  normal_step-found k p s b new (v, e, (res, f, g)) = (
    record (seen right k s) { res = merge k s.res res },
    normal_step-plain k p s new ∙ rw (e, f),
    record {
      taken_right = refl;
      taken_left = refl;
      removed = refl;
      verdict = (
        λ h. (ground arith, (v, e, (res, f, ground arith))),
        λ h. found_verdict b (v, e, (res, f, g)) h.0 h.1,
      );
    },
  )
    where
      found_verdict :
          (c : Bool)
          → (m : Matches right k p c) → s.res.equal ≡ true
          → Matches right k p true
          → (s.res.equal && m.2.0.equal) ≡ true
      found_verdict true m h n = ground arith
      found_verdict false m h n = absurd (Matches-functional right k p n m)

  normal_step-IsNext :
      (k : String) (p : Part) (s : ObjectState)
      → mem_str k s.taken_right ≡ false
      → KeyDecides right (k, p)
      → (t : ObjectState) × (normal_step host left right k p s ≡ ok t) × IsNext right k p s t
  normal_step-IsNext k p s new (inl missing) = normal_step-missing k p s new missing
  normal_step-IsNext k p s new (inr (b, m)) = normal_step-found k p s b new m

  object_step-plain :
      (k : String) (p : Part) (s : ObjectState)
      → has_suffix k suffix ≡ false
      → s.removed ≡ []
      → mem_str k s.taken_left ≡ false
      → object_step host left right k p s ≡ normal_step host left right k p s
  unfolding object_step
  object_step-plain k p s nc none' new = rw (none', new, nc)

  -- The loop from a state to which the remaining keys are new.
  abbrev Loops : Dict Part → ObjectState → Type 0
  Loops rest s =
      (t : ObjectState) × (object_loop host left right rest s ≡ ok t)
      × ((j : String)
          → mem_str j t.taken_right ≡ (mem_str j s.taken_right || is_some (lookup j rest)))
      × ((t.res.equal ≡ true) ↔ ((s.res.equal ≡ true) × Covers rest right))

  object_loop-cons :
      (k : String) (p : Part) (rest : Dict Part) (s u : ObjectState)
      → object_step host left right k p s ≡ ok u
      → IsNext right k p s u
      → Loops rest u
      → Loops ((k, p) ∷ rest) s
  unfolding object_loop lookup
  object_loop-cons k p rest s u step next (t, run, taken, iff) = (
    t,
    rw step run,
    λ j. taken j ∙ rw next.taken_right (ground arith),
    (
      λ h. let (a, c) = iff.0 h in let (b, m) = next.verdict.0 a in (b, (m, c)),
      λ h. iff.1 (next.verdict.1 (h.0, h.1.0), h.1.1),
    ),
  )

  object_loop-Loops :
      (rest : Dict Part) (s : ObjectState)
      → NoControls rest
      → Distinct rest
      → Unseen s rest
      → s.removed ≡ []
      → All (KeyDecides right) rest
      → Loops rest s
  unfolding object_loop lookup
  object_loop-Loops [] s nc dist new none' d =
      (s, refl, λ j. ground arith, (λ h. (h, tt), λ h. h.0))
  object_loop-Loops ((k, p) ∷ rest) s nc dist new none' d =
      let (u, step, next) = normal_step-IsNext k p s new.0.0 d.0 in
      object_loop-cons k p rest s u (object_step-plain k p s nc.0 none' new.0.1 ∙ step) next (
        object_loop-Loops rest u nc.1 dist.1 (Unseen-next right k p s u rest next dist.0 new.1)
          (next.removed ∙ none') d.1)

  -- Where the expected object has no control keys of its own and every comparison of a value with
  -- the one under the same key returns, the comparison returns, and it is equal exactly if every expected key has a fitting
  -- value and, with `no_extra`, every actual key is expected.
  pub object_comparison-Covers :
      (no_extra : Bool)
      → Distinct left
      → All (KeyDecides right) left
      → (res : CompareResult) × (object_comparison host left right no_extra ≡ ok res)
        × ((res.equal ≡ true) ↔ (Covers left right × (no_extra ≡ true → NoExtra left right)))
  unfolding object_comparison close_object
  object_comparison-Covers no_extra dist d =
      let (t, run, taken, iff) =
        object_loop-Loops left object_start plain dist (Unseen-start left) refl d in
      let extra = any_extra-NoExtra left right t.taken_right taken in
      (
        close_object no_extra right t,
        rw run,
        (
          λ h. ((iff.0 (ground arith)).1, λ ne. extra.0 (ground arith)),
          λ h. closes no_extra t (iff.1 (refl, h.0)) (λ ne. extra.1 (h.1 ne)),
        ),
      )
    where
      closes :
          (b : Bool) (t : ObjectState)
          → t.res.equal ≡ true
          → (b ≡ true → any_extra right t.taken_right ≡ false)
          → (close_object b right t).equal ≡ true
      closes true t e h = rw (h refl) e
      closes false t e h = e
