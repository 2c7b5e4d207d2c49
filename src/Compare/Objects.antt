-- ===== src/Compare/Objects.antt =====
-- objectComparison: `left` in the order in which the runtime iterates over the cloned map.
pub mod Consistent
pub mod Plain
use apitest.Base.{
  ℕ, suc, Bool, true, false, ◌&&◌, ◌||◌, not, String, Option, none, some, List, [], ◌∷◌, ◌++◌,
  Outcome, ok, err, ◌>>=◌, ◌==◌, str_eq, mem_str, ◌<>◌, if◌then◌else◌, map, has_prefix, has_suffix,
  code,
}
use apitest.Base.Dict.{Dict, lookup}
use apitest.Json.{Value, nil, object, fields}
use apitest.Host.{Host}
use apitest.Compare.Types.{
  Failure, CompareResult, Context, no_control, Part, Error, control_not_object, equal_result,
  Message, check, extra_in_object,
}
use apitest.Compare.Control.{fill_context}
use apitest.Compare.Checks.{Check, key_checks}
use apitest.Compare.Arrays.{add_failures}

abbrev pub suffix : String
suffix = ":control"

-- Group 1 of the first match of `(?P<Key>.*?):control`, which crosses no line break: the text
-- before the first ":control", from the last line break before it. `seen` is the text since then.
unfoldable pub control_base_from : String → String → String
control_base_from seen String.[] = seen
control_base_from seen (String.◌∷◌ c s) =
    let here = if code c == b'\n' then "" else seen <> String.◌∷◌ c "" in
    let rest = control_base_from here s in if has_prefix (String.◌∷◌ c s) suffix then seen else rest

unfoldable pub control_base : String → String
unfolding control_base_from
control_base = control_base_from ""

-- The variables of the loop. `right_value` and `right_ok` keep their values from round to round,
-- and `removed` holds the keys deleted from the cloned map.
pub record ObjectState : Type 0 where
  pub right_value : Value
  pub right_ok : Bool
  pub taken_right : List String
  pub taken_left : List String
  pub removed : List String
  pub res : CompareResult

abbrev pub object_start : ObjectState
object_start = record {
  right_value = nil;
  right_ok = false;
  taken_right = [];
  taken_left = [];
  removed = [];
  res = equal_result;
}

abbrev pub or_nil : Option Value → Value
or_nil none = nil
or_nil (some v) = v

abbrev pub is_some {ℓ} : {A : Type ℓ} → Option A → Bool
is_some none = false
is_some (some a) = true

-- `leftCopy[k]`
unfoldable pub left_at : Dict Part → ObjectState → String → Option Part
left_at left s k = if mem_str k s.removed then none else lookup k left

-- `if !takenInRight[k] { rv, rOK = right[k] }`, and both marks of `k`.
unfoldable pub take_key : Dict Value → String → ObjectState → ObjectState
take_key right k s =
    let t = record s { taken_right = k ∷ s.taken_right; taken_left = k ∷ s.taken_left } in
    if mem_str k s.taken_right
    then t
    else record t { right_value = or_nil (lookup k right); right_ok = is_some (lookup k right) }

-- The prefix that a failure in the value of `k` gets.
unfoldable pub field_failure : String → Failure → Failure
field_failure k f = record {
  key =
      if str_eq f.key ""
      then k
      else if has_prefix f.key "["
      then k <> f.key
      else k <> ("." <> f.key);
  message = f.message;
}

unfoldable pub merge : String → CompareResult → CompareResult → CompareResult
unfolding field_failure
merge k res tmp = record {
  equal = res.equal && tmp.equal;
  failures = res.failures ++ map (field_failure k) tmp.failures;
}

-- The value is compared if the left document has one.
unfoldable pub compare_value :
    String → Option Part → Context → ObjectState → Outcome Error ObjectState
unfolding merge
compare_value k none c s = ok s
compare_value k (some (lv, cmp)) c s = do
  tmp ← cmp s.right_value c
  ok (record s { res = merge k s.res tmp })

unfoldable pub after_checks :
    String → Option Part → Context → Check → ObjectState → Outcome Error ObjectState
unfolding compare_value
after_checks k l c (err e) s =
    ok (record s { res = add_failures (record { key = k; message = check e } ∷ []) s.res })
after_checks k l c (ok _) s = compare_value k l c s

abbrev pub with_must_exist : Bool → Context → Context
with_must_exist present c = if present then record c { must_exist = true } else c

unfoldable pub any_extra : Dict Value → List String → Bool
any_extra [] taken = false
any_extra ((k, v) ∷ rest) taken = not (mem_str k taken) || any_extra rest taken

unfoldable pub close_object : Bool → Dict Value → ObjectState → CompareResult
unfolding any_extra
close_object no_extra right s =
    if no_extra && any_extra right s.taken_right
    then add_failures (record { key = ""; message = extra_in_object } ∷ []) s.res
    else s.res

module _ (host : Host) where
  -- From `if lOK` to the end of the body.
  unfoldable pub check_and_compare :
      String → Option Part → Context → ObjectState → Outcome Error ObjectState
  unfolding after_checks
  check_and_compare k l c s =
      let c' = with_must_exist (is_some l) c in
      after_checks k l c' (key_checks host s.right_value s.right_ok c') s

  -- `cv.(jsutil.Object)` of a control key's value.
  unfoldable pub control_of : String → Value → Outcome Error Context
  control_of k (object fs) = fill_context host (fields fs)
  control_of k _ = err (control_not_object k)

  -- The control of a normal key, if the map has one that is an object; it is then deleted.
  unfoldable pub side_control :
      String → Option Part → ObjectState → Outcome Error (Context × ObjectState)
  side_control k (some (object fs, _)) s = do
    c ← fill_context host (fields fs)
    ok (c, record s { removed = (k <> suffix) ∷ s.removed })
  side_control k _ s = ok (no_control, s)

  module _ (left : Dict Part) (right : Dict Value) where
    unfoldable pub control_step : String → Part → ObjectState → Outcome Error ObjectState
    unfolding control_of take_key left_at check_and_compare
    control_step ck (cv, _) s =
        let k = control_base ck in
        let t = take_key right k s in
        do
          c ← control_of k cv
          check_and_compare k (left_at left s k) c (record t { removed = ck ∷ t.removed })

    unfoldable pub normal_step : String → Part → ObjectState → Outcome Error ObjectState
    unfolding side_control take_key left_at check_and_compare
    normal_step k part s =
        let t = take_key right k s in
        do
          (c, u) ← side_control k (left_at left t (k <> suffix)) t
          check_and_compare k (some part) c u

    -- One round; a key deleted before it is reached is not produced.
    unfoldable pub object_step : String → Part → ObjectState → Outcome Error ObjectState
    unfolding control_step normal_step
    object_step ck part s =
        if mem_str ck s.removed || mem_str ck s.taken_left
        then ok s
        else if has_suffix ck suffix
        then control_step ck part s
        else normal_step ck part s

    unfoldable pub object_loop : Dict Part → ObjectState → Outcome Error ObjectState
    unfolding object_step
    object_loop [] s = ok s
    object_loop ((k, part) ∷ rest) s = do s' ← object_step k part s; object_loop rest s'

  unfoldable pub object_comparison : Dict Part → Dict Value → Bool → Outcome Error CompareResult
  unfolding object_loop close_object
  object_comparison left right no_extra = do
    s ← object_loop left right left object_start
    ok (close_object no_extra right s)
