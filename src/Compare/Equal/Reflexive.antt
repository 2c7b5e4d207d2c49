-- ===== src/Compare/Equal/Reflexive.antt =====
-- JsonEqual of a document with itself.
use apitest.Base.{
  true, false, ◌≡◌, refl, ap, ◌∙◌, String, [], ◌∷◌, All, ok, inr, arith, is_empty, eq_refl,
}
use apitest.Base.Dict.{Dict, lookup}
use apitest.Json.{
  Value, Items, Fields, nil, object, array, str, number, bool, int, int64, float64, other, empty,
  cons, end, entry, fields, items, number_equal,
}
use apitest.Host.{Host}
use apitest.Compare.Types.{CompareResult, Context, Part, equal_result}
use apitest.Compare.Arrays.{next_control, array_equal_with_control}
use apitest.Compare.Arrays.Same.{Pointwise, array_comparison-Pointwise}
use apitest.Compare.Objects.Plain.{
  NoControls, Fresh, Distinct, Covers, NoExtra, KeyDecides, strict, object_comparison-Covers,
  str_eq_comm,
}
use apitest.Compare.Equal.{
  present, nil_case, float_case, string_case, number_case, bool_case, object_case, array_case,
  json_equal, item_parts, field_parts,
}
use apitest.Compare.Equal.Consistent.{json_equal-IsConsistent}

-- What the decoder makes of a document without control keys: no Go integers, no key twice, and no
-- float64 that differs from itself.
abbrev mutual
  pub IsPlain : Host → Value → Type 0
  IsPlain host nil = Unit
  IsPlain host (object fs) = NoControls (fields fs) × Distinct (fields fs) × PlainFields host fs
  IsPlain host (array xs) = PlainItems host xs
  IsPlain host (str s) = Unit
  IsPlain host (number n) = Unit
  IsPlain host (bool b) = Unit
  IsPlain host (float64 x) = host.float_eq x x ≡ true
  IsPlain host (int n) = ⊥
  IsPlain host (int64 n) = ⊥
  IsPlain host (other t) = ⊥

  pub PlainItems : Host → Items → Type 0
  PlainItems host empty = Unit
  PlainItems host (cons x xs) = IsPlain host x × PlainItems host xs

  pub PlainFields : Host → Fields → Type 0
  PlainFields host end = Unit
  PlainFields host (entry k v fs) = IsPlain host v × PlainFields host fs

equal_result-eq :
    (res : CompareResult)
    → res.equal ≡ true
    → res.equal ≡ is_empty res.failures
    → res ≡ equal_result
equal_result-eq res e h = ground arith

-- Facts of the tail of an object hold of the object.
Covers-cons :
    (k : String) (v : Value) (left : Dict Part) (right : Dict Value)
    → Fresh k left
    → Covers left right
    → Covers left ((k, v) ∷ right)
unfolding lookup
Covers-cons k v [] right fresh h = tt
Covers-cons k v ((j, p) ∷ left) right fresh ((w, e, s), h) =
    ((w, rw (str_eq_comm k j, fresh.0) e, s), Covers-cons k v left right fresh.1 h)

NoExtra-cons :
    (k : String) (p : Part) (left : Dict Part) (right : Dict Value)
    → NoExtra left right
    → NoExtra ((k, p) ∷ left) right
unfolding lookup
NoExtra-cons k p left [] h = tt
NoExtra-cons k p left ((j, v) ∷ right) h = (ground (arith, h.0), NoExtra-cons k p left right h.1)

Covers-KeyDecides :
    (left : Dict Part) (right : Dict Value) → Covers left right → All (KeyDecides right) left
Covers-KeyDecides [] right h = tt
Covers-KeyDecides ((k, p) ∷ left) right h = (inr (true, h.0), Covers-KeyDecides left right h.1)

module _ (host : Host) where
  parts-NoControls : (fs : Fields) → NoControls (fields fs) → NoControls (field_parts host fs)
  unfolding fields field_parts json_equal item_parts
  parts-NoControls end h = tt
  parts-NoControls (entry k v fs) h = (h.0, parts-NoControls fs h.1)

  parts-Fresh : (j : String) (fs : Fields) → Fresh j (fields fs) → Fresh j (field_parts host fs)
  unfolding fields field_parts json_equal item_parts
  parts-Fresh j end h = tt
  parts-Fresh j (entry k v fs) h = (h.0, parts-Fresh j fs h.1)

  parts-Distinct : (fs : Fields) → Distinct (fields fs) → Distinct (field_parts host fs)
  unfolding fields field_parts json_equal item_parts
  parts-Distinct end h = tt
  parts-Distinct (entry k v fs) h = (parts-Fresh k fs h.0, parts-Distinct fs h.1)

  parts-NoExtra : (fs : Fields) → NoExtra (field_parts host fs) (fields fs)
  unfolding fields field_parts json_equal item_parts lookup
  parts-NoExtra end = tt
  parts-NoExtra (entry k v fs) = (
    rw (eq_refl k),
    NoExtra-cons k (v, json_equal host v) (field_parts host fs) (fields fs) (parts-NoExtra fs),
  )

  mutual
    unfolding json_equal item_parts field_parts present object_case array_case
        array_equal_with_control nil_case string_case number_case bool_case float_case number_equal
        items fields lookup

    self : (v : Value) (c : Context) → IsPlain host v → json_equal host v v c ≡ ok equal_result
    self nil c h = refl
    self (object fs) c (nc, dist, plain) =
        let (res, run, iff) =
          object_comparison-Covers host (field_parts host fs) (fields fs) (parts-NoControls fs nc)
            c.no_extra (parts-Distinct fs dist)
            (Covers-KeyDecides (field_parts host fs) (fields fs) (self_fields fs dist plain)) in
        let e = iff.1 (self_fields fs dist plain, λ _. parts-NoExtra fs) in
        run
        ∙ ap ok
            (equal_result-eq res e (json_equal-IsConsistent host (object fs) (object fs) c res run))
    self (array xs) c h =
        array_comparison-Pointwise c (next_control host c) (items xs) host (item_parts host xs)
          (self_items xs (next_control host c) h)
    self (str s) c h = rw (eq_refl s)
    self (number n) c h = rw (eq_refl n)
    self (bool true) c h = refl
    self (bool false) c h = refl
    self (float64 x) c h = rw h
    self (int n) c h = absurd h
    self (int64 n) c h = absurd h
    self (other t) c h = absurd h

    self_items :
        (xs : Items) (next : Context)
        → PlainItems host xs
        → Pointwise next (item_parts host xs) (items xs)
    self_items empty next h = tt
    self_items (cons x xs) next h = ((equal_result, self x next h.0, refl), self_items xs next h.1)

    self_fields :
        (fs : Fields)
        → Distinct (fields fs)
        → PlainFields host fs
        → Covers (field_parts host fs) (fields fs)
    self_fields end dist h = tt
    self_fields (entry k v fs) dist h = (
      (v, rw (eq_refl k), (equal_result, self v strict h.0, refl)),
      Covers-cons k v (field_parts host fs) (fields fs) (parts-Fresh k fs dist.0)
          (self_fields fs dist.1 h.1),
    )

-- A decoded document without control keys is equal to itself, under every control and for every
-- iteration order: the comparison returns, and lists no failure.
pub json_equal_self :
    (host : Host) (v : Value) (c : Context)
    → IsPlain host v
    → json_equal host v v c ≡ ok (record { equal = true; failures = [] })
json_equal_self host v c h = self host v c h
