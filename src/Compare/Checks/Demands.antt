-- ===== src/Compare/Checks/Demands.antt =====
-- What keyChecks accepts, written as one demand for each setting of the control.
use apitest.Base.{
  ◌≡◌, ◌≢◌, ◌↔◌, ◌⊎◌, refl, Bool, true, false, not, String, Option, none, some, ok, err, ◌>>=◌,
  ◌>>◌, require, arith, length, has_prefix, has_suffix, str_eq, sym, ap, subst, eq_iff, ◌∙◌,
}
use mathlib.Core.Option.{some-injective}
use apitest.Base.Int.{ℤ, pos, eq_ℤ}
use apitest.Json.{
  Value, Items, Float, nil, array, str, number, bool, int, float64, items, number_equal,
}
use apitest.Host.{Host}
use apitest.Compare.Types.{
  Context, object_type, array_type, string_type, number_type, json_number_type, bool_type,
  CheckError, is_equal, no_match, does_match, not_greater_equal, not_greater, not_less_equal,
  not_less,
}
use apitest.Compare.Control.{json_type}
use apitest.Compare.Checks.{
  Check, check_type, check_exists, check_length, check_count, check_prefix, check_suffix,
  check_not_null, as_float64, or_no_number, check_bound, check_range, check_ranges, match_text,
  regex_outcome, check_match, check_not_match, check_not_equal, differ, marshal_differ, key_checks,
}

-- Two checks in a row pass exactly if both pass.
both_ok : (m k : Check) → ((m >> k) ≡ ok tt) ↔ ((m ≡ ok tt) × (k ≡ ok tt))
both_ok (ok _) k = (λ h. (refl, h), λ h. h.1)
both_ok (err e) k = (λ h. cc, λ h. cc h.0)

-- Of the type flags only the first that is set counts, in this order.
pub record TypeDemand (right : Value) (c : Context) : Type 0 where
  pub string : c.is_string ≡ true → json_type right ≡ string_type
  pub number :
      c.is_string ≡ false
      → c.is_number ≡ true
      → (json_type right ≡ number_type) ⊎ (json_type right ≡ json_number_type)
  pub bool :
      c.is_string ≡ false → c.is_number ≡ false → c.is_bool ≡ true → json_type right ≡ bool_type
  pub array :
      c.is_string ≡ false
      → c.is_number ≡ false
      → c.is_bool ≡ false
      → c.is_array ≡ true
      → json_type right ≡ array_type
  pub object :
      c.is_string ≡ false
      → c.is_number ≡ false
      → c.is_bool ≡ false
      → c.is_array ≡ false
      → c.is_object ≡ true
      → json_type right ≡ object_type

check_type_iff : (right : Value) (c : Context) → (check_type right c ≡ ok tt) ↔ TypeDemand right c
unfolding check_type json_type
check_type_iff nil c = ground arith
check_type_iff _ c = ground arith

check_exists_iff :
    (r_ok : Bool) (c : Context)
    → (check_exists r_ok c ≡ ok tt)
      ↔ ((c.must_exist ≡ true → r_ok ≡ true) × (c.must_not_exist ≡ true → r_ok ≡ false))
unfolding check_exists
check_exists_iff r_ok c = ground arith

pub record CountDemand (right : Value) (count : Option ℤ) : Type 0 where
  pub length :
      (n : ℤ)
      → count ≡ some n
      → (xs : Items) × (right ≡ array xs) × (eq_ℤ (pos (length (items xs))) n ≡ true)

check_count_iff :
    (right : Value) (count : Option ℤ) → (check_count right count ≡ ok tt) ↔ CountDemand right count
unfolding check_count check_length
check_count_iff right none = (λ h. record { length = λ n e. cc }, λ h. refl)
check_count_iff (array xs) (some n) = (
  λ h. record { length = λ m e. (xs, refl, ground arith) },
  λ d. let (ys, e, f) = d.length n refl in ground arith,
)
check_count_iff right (some n) = (
  λ h. record { length = λ m e. ground arith },
  λ d. let (ys, e, f) = d.length n refl in ground arith,
)

-- The prefix, or suffix, test of a string.
abbrev pub TextDemand : (String → String → Bool) → Value → Option String → Type 0
TextDemand test right p =
    (t : String) → p ≡ some t → (s : String) × (right ≡ str s) × (test s t ≡ true)

check_prefix_iff :
    (right : Value) (p : Option String)
    → (check_prefix right p ≡ ok tt) ↔ TextDemand has_prefix right p
unfolding check_prefix
check_prefix_iff right none = (λ h t e. cc, λ h. refl)
check_prefix_iff (str s) (some p) =
    (λ h t e. (s, refl, ground arith), λ d. let (u, e, f) = d p refl in ground arith)
check_prefix_iff right (some p) =
    (λ h t e. ground arith, λ d. let (u, e, f) = d p refl in ground arith)

check_suffix_iff :
    (right : Value) (p : Option String)
    → (check_suffix right p ≡ ok tt) ↔ TextDemand has_suffix right p
unfolding check_suffix
check_suffix_iff right none = (λ h t e. cc, λ h. refl)
check_suffix_iff (str s) (some p) =
    (λ h t e. (s, refl, ground arith), λ d. let (u, e, f) = d p refl in ground arith)
check_suffix_iff right (some p) =
    (λ h t e. ground arith, λ d. let (u, e, f) = d p refl in ground arith)

check_not_null_iff :
    (right : Value) (b : Bool) → (check_not_null right b ≡ ok tt) ↔ (b ≡ true → right ≢ nil)
unfolding check_not_null
check_not_null_iff nil true = (λ h. cc, λ h. absurd (h refl refl))
check_not_null_iff _ _ = (λ h e f. cc, λ h. refl)

module _ (host : Host) where
  -- Both sides of a bound are numbers, compared as float64.
  abbrev pub BoundDemand : (Float → Float → Bool) → Value → Option String → Type 0
  BoundDemand test right bound =
      (n : String)
      → bound ≡ some n
      → (x : Float) × (y : Float) × (as_float64 host right ≡ some x)
        × (host.parse_float n ≡ some y)
        × (test x y ≡ true)

  both_numbers :
      (test : Float → Float → Bool) (e : CheckError) (x y : Option Float)
      → ((do a ← or_no_number host x; b ← or_no_number host y; require (test a b) e) ≡ ok tt)
        ↔ ((a : Float) × (b : Float) × (x ≡ some a) × (y ≡ some b) × (test a b ≡ true))
  unfolding or_no_number
  both_numbers test e none y = (λ h. cc, λ (a, b, p, q, r). cc)
  both_numbers test e (some a) none = (λ h. cc, λ (a, b, p, q, r). cc)
  both_numbers test e (some a) (some b) =
      (λ h. (a, b, refl, refl, ground arith), λ (c, d, p, q, r). ground arith)

  check_range_iff :
      (test : Float → Float → Bool) (e : Value → String → CheckError) (right : Value)
      (bound : Option String)
      → (check_range host test e right bound ≡ ok tt) ↔ BoundDemand test right bound
  unfolding check_range check_bound
  check_range_iff test e right none = (λ h n p. cc, λ h. refl)
  check_range_iff test e right (some n) =
      let both = both_numbers test (e right n) (as_float64 host right) (host.parse_float n) in
      (λ h m p. both_of n m p (both.0 h), λ d. both.1 (d n refl))
    where
      both_of :
          (m k : String)
          → some m ≡ some k
          → ((x : Float) × (y : Float) × (as_float64 host right ≡ some x)
              × (host.parse_float m ≡ some y)
              × (test x y ≡ true))
          → (x : Float) × (y : Float) × (as_float64 host right ≡ some x)
            × (host.parse_float k ≡ some y)
            × (test x y ≡ true)
      both_of m k q (x, y, f, g, h) =
          (x, y, f, ap host.parse_float (some-injective _ _ (sym q)) ∙ g, h)

  outcome_ok :
      (e : CheckError) (wanted : Bool) (rx : String) (found : Option Bool)
      → (regex_outcome host e wanted rx found ≡ ok tt) ↔ (found ≡ some wanted)
  unfolding regex_outcome
  outcome_ok e true rx none = (λ h. cc, λ h. cc)
  outcome_ok e false rx none = (λ h. cc, λ h. cc)
  outcome_ok e true rx (some m) = ground arith
  outcome_ok e false rx (some m) = ground arith

  check_match_iff :
      (right : Value) (rx : Option String)
      → (check_match host right rx ≡ ok tt)
        ↔ ((t : String) → rx ≡ some t → host.regex_match t (match_text host right) ≡ some true)
  unfolding check_match
  check_match_iff right none = (λ h t e. cc, λ h. refl)
  check_match_iff right (some t) =
      let both =
        outcome_ok (no_match right t) true t (host.regex_match t (match_text host right)) in
      (
        λ h u e.
            ap (λ k. host.regex_match k (match_text host right)) (some-injective _ _ (sym e))
            ∙ both.0 h,
        λ d. both.1 (d t refl),
      )

  check_not_match_iff :
      (right : Value) (rx : Option String)
      → (check_not_match host right rx ≡ ok tt)
        ↔ ((t : String) → rx ≡ some t → host.regex_match t (match_text host right) ≡ some false)
  unfolding check_not_match
  check_not_match_iff right none = (λ h t e. cc, λ h. refl)
  check_not_match_iff right (some t) =
      let both = outcome_ok (does_match t) false t (host.regex_match t (match_text host right)) in
      (
        λ h u e.
            ap (λ k. host.regex_match k (match_text host right)) (some-injective _ _ (sym e))
            ∙ both.0 h,
        λ d. both.1 (d t refl),
      )

  -- A value that may not be equal: values of different types differ, strings and numbers by their
  -- texts, arrays by their encodings.
  abbrev pub Differs : Value → Value → Type 0
  Differs (array xs) (array ys) =
      (l : String) × (r : String) × (host.marshal (items xs) ≡ some l)
      × (host.marshal (items ys) ≡ some r)
      × (l ≢ r)
  Differs (str s) (str t) = s ≢ t
  Differs (int m) (int n) = eq_ℤ m n ≡ false
  Differs (float64 x) (float64 y) = host.float_eq x y ≡ false
  Differs (number m) (number n) = m ≢ n
  Differs (bool b) (bool c) = b ≢ c
  Differs _ _ = Unit {0}

  texts_differ : (s t : String) (e : CheckError) → (require (not (str_eq s t)) e ≡ ok tt) ↔ (s ≢ t)
  texts_differ s t e = ground (arith, eq_iff s t)

  encodings_differ :
      (v : Value) (l r : Option String)
      → (marshal_differ host v l r ≡ ok tt)
        ↔ ((s : String) × (t : String) × (l ≡ some s) × (r ≡ some t) × (s ≢ t))
  unfolding marshal_differ
  encodings_differ v none r = (λ h. cc, λ (s, t, e, f, g). cc)
  encodings_differ v (some s) none = (λ h. cc, λ (s, t, e, f, g). cc)
  encodings_differ v (some s) (some t) = (
    λ h. (s, t, refl, refl, (texts_differ s t (is_equal v)).0 h),
    λ (a, b, e, f, g).
        (texts_differ s t (is_equal v)).1
          (λ q. g (some-injective _ _ (sym e) ∙ q ∙ some-injective _ _ f)),
  )

  differ_iff : (v right : Value) → (differ host v right ≡ ok tt) ↔ Differs v right
  unfolding differ number_equal
  differ_iff (array xs) (array ys) =
      encodings_differ (array xs) (host.marshal (items xs)) (host.marshal (items ys))
  differ_iff (str s) (str t) = texts_differ s t _
  differ_iff (int m) (int n) = ground arith
  differ_iff (float64 x) (float64 y) = ground arith
  differ_iff (number m) (number n) = texts_differ m n _
  differ_iff (bool true) (bool true) = (λ h. cc, λ h. absurd (h refl))
  differ_iff (bool false) (bool false) = (λ h. cc, λ h. absurd (h refl))
  differ_iff (bool true) (bool false) = (λ h e. cc, λ h. refl)
  differ_iff (bool false) (bool true) = (λ h e. cc, λ h. refl)
  differ_iff _ _ = (λ h. tt, λ h. refl)

  check_not_equal_iff :
      (right : Value) (o : Option Value)
      → (check_not_equal host right o ≡ ok tt) ↔ ((v : Value) → o ≡ some v → Differs v right)
  unfolding check_not_equal
  check_not_equal_iff right none = (λ h v e. cc, λ h. refl)
  check_not_equal_iff right (some v) = (
    λ h w e. subst (λ u. Differs u right) (some-injective _ _ e) ((differ_iff v right).0 h),
    λ d. (differ_iff v right).1 (d v refl),
  )

  -- All that the control asks of the value under a key; `present` says whether the key is there.
  pub record Satisfies (right : Value) (present : Bool) (c : Context) : Type 0 where
    pub types : TypeDemand right c
    pub exists : c.must_exist ≡ true → present ≡ true
    pub absent : c.must_not_exist ≡ true → present ≡ false
    pub count : CountDemand right c.element_count
    pub at_least : BoundDemand (λ x y. host.float_le y x) right c.number_ge
    pub above : BoundDemand (λ x y. host.float_lt y x) right c.number_gt
    pub at_most : BoundDemand host.float_le right c.number_le
    pub below : BoundDemand host.float_lt right c.number_lt
    pub match :
        (t : String)
        → c.regex_match ≡ some t
        → host.regex_match t (match_text host right) ≡ some true
    pub no_match :
        (t : String)
        → c.regex_match_not ≡ some t
        → host.regex_match t (match_text host right) ≡ some false
    pub prefix : TextDemand has_prefix right c.starts_with
    pub suffix : TextDemand has_suffix right c.ends_with
    pub not_null : c.not_equal_null ≡ true → right ≢ nil
    pub differs : (v : Value) → c.not_equal ≡ some v → Differs v right

  check_ranges_iff :
      (right : Value) (c : Context)
      → (check_ranges host right c ≡ ok tt) ↔ (
          BoundDemand (λ x y. host.float_le y x) right c.number_ge
          × BoundDemand (λ x y. host.float_lt y x) right c.number_gt
          × BoundDemand host.float_le right c.number_le
          × BoundDemand host.float_lt right c.number_lt)
  unfolding check_ranges
  check_ranges_iff right c =
      let ge = check_range_iff (λ x y. host.float_le y x) not_greater_equal right c.number_ge in
      let gt = check_range_iff (λ x y. host.float_lt y x) not_greater right c.number_gt in
      let le = check_range_iff host.float_le not_less_equal right c.number_le in
      let lt = check_range_iff host.float_lt not_less right c.number_lt in
      (
        λ h.
            let (a, h1) = (both_ok _ _).0 h in
            let (b, h2) = (both_ok _ _).0 h1 in
            let (c', d) = (both_ok _ _).0 h2 in (ge.0 a, gt.0 b, le.0 c', lt.0 d),
        λ (a, b, c', d).
            (both_ok _ _).1 (ge.1 a, (both_ok _ _).1 (gt.1 b, (both_ok _ _).1 (le.1 c', lt.1 d))),
      )

  -- keyChecks accepts a value exactly if it satisfies every demand of the control.
  pub key_checks-Satisfies :
      (right : Value) (present : Bool) (c : Context)
      → (key_checks host right present c ≡ ok tt) ↔ Satisfies right present c
  unfolding key_checks
  key_checks-Satisfies right present c =
      let ty = check_type_iff right c in
      let ex = check_exists_iff present c in
      let co = check_count_iff right c.element_count in
      let ra = check_ranges_iff right c in
      let ma = check_match_iff right c.regex_match in
      let no' = check_not_match_iff right c.regex_match_not in
      let pr = check_prefix_iff right c.starts_with in
      let su = check_suffix_iff right c.ends_with in
      let nn = check_not_null_iff right c.not_equal_null in
      let ne = check_not_equal_iff right c.not_equal in
      (
        λ h0.
            let (a, h1) = (both_ok _ _).0 h0 in
            let (b, h2) = (both_ok _ _).0 h1 in
            let (d, h3) = (both_ok _ _).0 h2 in
            let (e, h4) = (both_ok _ _).0 h3 in
            let (f, h5) = (both_ok _ _).0 h4 in
            let (g, h6) = (both_ok _ _).0 h5 in
            let (i, h7) = (both_ok _ _).0 h6 in
            let (j, h8) = (both_ok _ _).0 h7 in
            let (k, l) = (both_ok _ _).0 h8 in
            let (ge, gt, le, lt) = ra.0 e in
            record {
              types = ty.0 a;
              exists = (ex.0 b).0;
              absent = (ex.0 b).1;
              count = co.0 d;
              at_least = ge;
              above = gt;
              at_most = le;
              below = lt;
              match = ma.0 f;
              no_match = no'.0 g;
              prefix = pr.0 i;
              suffix = su.0 j;
              not_null = nn.0 k;
              differs = ne.0 l;
            },
        λ s. (both_ok _ _).1 (
          ty.1 s.types,
          (both_ok _ _).1 (
            ex.1 (s.exists, s.absent),
            (both_ok _ _).1 (
              co.1 s.count,
              (both_ok _ _).1 (
                ra.1 (s.at_least, s.above, s.at_most, s.below),
                (both_ok _ _).1 (
                  ma.1 s.match,
                  (both_ok _ _).1 (
                    no'.1 s.no_match,
                    (both_ok _ _).1 (
                      pr.1 s.prefix,
                      (both_ok _ _).1
                          (su.1 s.suffix, (both_ok _ _).1 (nn.1 s.not_null, ne.1 s.differs)),
                    ),
                  ),
                ),
              ),
            ),
          ),
        ),
      )
