-- ===== src/Compare/Objects/Consistent.antt =====
-- A result of objectComparison is equal exactly when it lists no failure.
use apitest.Base.{
  ◌≡◌, refl, Bool, true, inl, inr, String, [], ◌∷◌, ok, err, bind_inversion, ok-injective, arith,
  subst, none, some, is_empty-append_and, is_empty-map, str_eq, map, Bool-cases, All, Option,
  mem_str, ◌<>◌,
}
use apitest.Base.Dict
use apitest.Base.Dict.{Dict}
use apitest.Json.{Value, object}
use apitest.Host.{Host}
use apitest.Compare.Types.{Failure, CompareResult, Context, Part}
use apitest.Compare.Checks.{Check, key_checks}
use apitest.Compare.Arrays.Consistent.{IsConsistent, IsSound, add_failures-IsConsistent}
use apitest.Compare.Objects.{
  suffix, control_base, ObjectState, object_start, left_at, take_key, field_failure, merge,
  compare_value, after_checks, with_must_exist, is_some, check_and_compare, control_of,
  side_control, control_step, normal_step, object_step, object_loop, close_object,
  object_comparison,
}

-- Every part of the expected object is compared soundly.
abbrev pub FieldsSound : Dict Part → Type 0
FieldsSound = All (λ (kp : String × Part). IsSound kp.1.1)

abbrev OptionSound : Option Part → Type 0
OptionSound none = Unit {0}
OptionSound (some p) = IsSound p.1

merge-IsConsistent :
    (k : String) (r tmp : CompareResult)
    → IsConsistent r
    → IsConsistent tmp
    → IsConsistent (merge k r tmp)
unfolding merge
merge-IsConsistent k r tmp hr ht = ground (
  arith,
  is_empty-append_and r.failures (map (field_failure k) tmp.failures),
  is_empty-map (field_failure k) tmp.failures,
)

after_checks-IsConsistent :
    (k : String) (l : Option Part) (c : Context) (checked : Check) (s t : ObjectState)
    → OptionSound l
    → IsConsistent s.res
    → after_checks k l c checked s ≡ ok t
    → IsConsistent t.res
unfolding after_checks compare_value
after_checks-IsConsistent k l c (err e) s t sound h g =
    subst (λ (u : ObjectState). IsConsistent u.res) (ok-injective g)
      (add_failures-IsConsistent (_ ∷ []) s.res refl)
after_checks-IsConsistent k none c (ok _) s t sound h g =
    subst (λ (u : ObjectState). IsConsistent u.res) (ok-injective g) h
after_checks-IsConsistent k (some (lv, cmp)) c (ok _) s t sound h g =
    let (tmp, f, e) =
      bind_inversion (cmp s.right_value c) (λ tmp. ok (record s { res = merge k s.res tmp })) g in
    subst (λ (u : ObjectState). IsConsistent u.res) (ok-injective e)
      (merge-IsConsistent k s.res tmp h (sound s.right_value c tmp f))

lookup-Sound : (k : String) (left : Dict Part) → FieldsSound left → OptionSound (Dict.lookup k left)
unfolding Dict.lookup
lookup-Sound k [] h = tt
lookup-Sound k ((j, p) ∷ rest) h = elim (Bool-cases (str_eq j k)) [
  | inl e ↦ rw e h.0
  | inr e ↦ rw e (lookup-Sound k rest h.1)
]

left_at-Sound :
    (left : Dict Part) (s : ObjectState) (k : String)
    → FieldsSound left
    → OptionSound (left_at left s k)
unfolding left_at
left_at-Sound left s k h = elim (Bool-cases (mem_str k s.removed)) [
  | inl e ↦ rw e tt
  | inr e ↦ rw e (lookup-Sound k left h)
]

take_key-res :
    (right : Dict Value) (k : String) (s : ObjectState) → (take_key right k s).res ≡ s.res
unfolding take_key
take_key-res right k s = ground arith

side_control-res :
    (host : Host) (k : String) (l : Option Part) (s u : ObjectState) (c : Context)
    → side_control host k l s ≡ ok (c, u)
    → u.res ≡ s.res
unfolding side_control
side_control-res host k (some (object fs, cmp)) s u c g = ground arith
side_control-res host k (some _) s u c g = ground arith
side_control-res host k none s u c g = ground arith

module _ (host : Host) (left : Dict Part) (right : Dict Value) (all_sound : FieldsSound left) where
  control_step-IsConsistent :
      (ck : String) (p : Part) (s t : ObjectState)
      → IsConsistent s.res
      → control_step host left right ck p s ≡ ok t
      → IsConsistent t.res
  unfolding control_step check_and_compare
  control_step-IsConsistent ck (cv, cmp) s t h g =
      let k = control_base ck in
      let u = take_key right k s in
      let l = left_at left s k in
      let v : ObjectState = record u { removed = ck ∷ u.removed } in
      let (c, f, e) =
        bind_inversion (control_of host k cv) (λ c. check_and_compare host k l c v) g in
      let c' = with_must_exist (is_some l) c in
      after_checks-IsConsistent k l c' (key_checks host v.right_value v.right_ok c') v t
        (left_at-Sound left s k all_sound) (rw take_key-res h) e

  normal_step-IsConsistent :
      (k : String) (p : Part) (s t : ObjectState)
      → IsSound p.1
      → IsConsistent s.res
      → normal_step host left right k p s ≡ ok t
      → IsConsistent t.res
  unfolding normal_step check_and_compare
  normal_step-IsConsistent k p s t sound h g =
      let u = take_key right k s in
      let l = left_at left u (k <> suffix) in
      let ((c, v), f, e) =
        bind_inversion (side_control host k l u) (λ (c, v). check_and_compare host k (some p) c v)
          g in
      let c' = with_must_exist true c in
      after_checks-IsConsistent k (some p) c' (key_checks host v.right_value v.right_ok c') v t
        sound (rw (side_control-res host k l u v c f, take_key-res) h) e

  object_step-IsConsistent :
      (k : String) (p : Part) (s t : ObjectState)
      → IsSound p.1
      → IsConsistent s.res
      → object_step host left right k p s ≡ ok t
      → IsConsistent t.res
  unfolding object_step
  object_step-IsConsistent k p s t sound h g =
      ground (arith, control_step-IsConsistent k p s t h, normal_step-IsConsistent k p s t sound h)

  object_loop-IsConsistent :
      (rest : Dict Part) (s t : ObjectState)
      → FieldsSound rest
      → IsConsistent s.res
      → object_loop host left right rest s ≡ ok t
      → IsConsistent t.res
  unfolding object_loop
  object_loop-IsConsistent [] s t sound h g =
      subst (λ (u : ObjectState). IsConsistent u.res) (ok-injective g) h
  object_loop-IsConsistent ((k, p) ∷ rest) s t sound h g =
      let (u, f, e) =
        bind_inversion (object_step host left right k p s) (λ u. object_loop host left right rest u)
          g in
      object_loop-IsConsistent rest u t sound.1 (object_step-IsConsistent k p s u sound.0 h f) e

  pub object_comparison-IsConsistent :
      (no_extra : Bool) (res : CompareResult)
      → object_comparison host left right no_extra ≡ ok res
      → IsConsistent res
  unfolding object_comparison close_object
  object_comparison-IsConsistent no_extra res g =
      let (s, f, e) =
        bind_inversion (object_loop host left right left object_start)
          (λ s. ok (close_object no_extra right s)) g in
      let h = object_loop-IsConsistent left object_start s all_sound refl f in
      subst IsConsistent (ok-injective e)
        (ground (arith, h, λ (x : Failure). add_failures-IsConsistent (x ∷ []) s.res refl))
