-- ===== src/Base/Dict.antt =====
-- Go maps with string keys, as association lists: the order is the order in which the runtime
-- iterates, so a statement over every list holds for every iteration order.
use Prim.Native.String.{String}
use mathlib.Core.Path.{◌≡◌, refl, ◌∙◌}
use mathlib.Core.List.{List, [], ◌∷◌}
use mathlib.Core.Option.{Option, none, some}
use native.Mathlib.Omega.{arith}
use apitest.Base.Tests.{if◌then◌else◌}
use apitest.Base.Text.{str_eq, eq_iff, eq_refl}

abbrev pub Dict {ℓ} : Type ℓ → Type ℓ
Dict V = List (String × V)

module _ {ℓ} {V : Type ℓ} where
  -- `v, ok := m[k]`
  unfoldable pub lookup : String → Dict V → Option V
  lookup key [] = none
  lookup key ((other, v) ∷ m) =
      let found = lookup key m in if str_eq other key then some v else found

  -- `m[k] = v`
  unfoldable pub insert : String → V → Dict V → Dict V
  insert key v [] = (key, v) ∷ []
  insert key v ((other, w) ∷ m) =
      let changed = insert key v m in
      if str_eq other key then (key, v) ∷ m else (other, w) ∷ changed

  -- `delete(m, k)`
  unfoldable pub erase : String → Dict V → Dict V
  erase key [] = []
  erase key ((other, w) ∷ m) =
      let kept = erase key m in if str_eq other key then kept else (other, w) ∷ kept

  -- Reading a key after a write of another, or of the same.
  pub lookup-insert :
      (m : Dict V) (key asked : String) (v : V)
      → lookup asked (insert key v m) ≡ (if str_eq key asked then some v else lookup asked m)
  unfolding lookup insert
  lookup-insert [] key asked v = refl
  lookup-insert ((other, w) ∷ m) key asked v =
      ground
        (arith, lookup-insert m key asked v, eq_iff other key, eq_iff other asked, eq_iff key asked)

  pub lookup-insert_self :
      (m : Dict V) (key : String) (v : V) → lookup key (insert key v m) ≡ some v
  lookup-insert_self m key v = lookup-insert m key key v ∙ rw (eq_refl key)

  pub lookup-erase :
      (k j : String) (m : Dict V) → lookup j (erase k m) ≡ (if str_eq k j then none else lookup j m)
  unfolding lookup erase
  lookup-erase k j [] = ground arith
  lookup-erase k j ((i, w) ∷ m) =
      ground (arith, eq_iff k j, eq_iff i k, eq_iff i j, lookup-erase k j m)
