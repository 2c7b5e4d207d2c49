-- ===== src/Template/Arithmetic/Division.antt =====
-- When a division panics.
use apitest.Base.{ℕ, ◌≡◌, ◌↔◌, refl, ap, Bool, true, false, ◌==◌, arith, sym, subst, if◌then◌else◌}
use apitest.Base.Int.{ℤ, pos, negsuc, int_64, eq_ℤ}
use apitest.Template.Arithmetic.{
  Operand, number, text, int, uint, float, nil, other, value, unknown_type, panicked, Floats,
  divide, divide_int, divide_uint, combine, over, int_or_float_from_json_number,
}

-- Two integers, of which the divisor `b` is 0 as the integer that the division is made with.
abbrev pub IsByZero : Operand → Operand → Type 0
IsByZero (int a) (int b) = b ≡ pos 0
IsByZero (int a) (uint b) = int_64 b ≡ pos 0
IsByZero (uint a) (int b) = b ≡ pos 0
IsByZero (uint a) (uint b) = b ≡ 0
IsByZero _ _ = ⊥

if-panics_iff :
    (b : Bool) (r : Operand) (Z : Type 0)
    → (b ≡ true → Z)
    → (Z → b ≡ true)
    → (if b then panicked else value r) ≡ panicked ↔ Z
if-panics_iff true r Z to from = (λ e. to refl, λ z. refl)
if-panics_iff false r Z to from = (λ e. cc, λ z. let e : false ≡ true = from z in cc)

divide_int-panics_iff : (a b : ℤ) → divide_int a b ≡ panicked ↔ b ≡ pos 0
unfolding divide_int
divide_int-panics_iff a (pos n) =
    if-panics_iff (eq_ℤ (pos n) (pos 0)) _ (pos n ≡ pos 0)
      (λ e. let zeroed : n ≡ 0 = ground (arith, e) in ap pos zeroed)
      (λ z. subst (λ b. eq_ℤ b (pos 0) ≡ true) (sym z) refl)
divide_int-panics_iff a (negsuc n) =
    if-panics_iff (eq_ℤ (negsuc n) (pos 0)) _ (negsuc n ≡ pos 0) (λ e. absurd (ground (arith, e)))
      (λ z. cc)

divide_uint-panics_iff : (a b : ℕ) → divide_uint a b ≡ panicked ↔ b ≡ 0
unfolding divide_uint
divide_uint-panics_iff a b =
    if-panics_iff (b == 0) _ (b ≡ 0) (λ e. ground (arith, e)) (λ z. rw z refl)

value_never : (r : Operand) → value r ≡ panicked ↔ ⊥
value_never r = (λ e. cc, λ z. absurd z)

unknown_never : unknown_type ≡ panicked ↔ ⊥
unknown_never = (λ e. cc, λ z. absurd z)

module _ (fs : Floats) where
  combine-panics_iff : (a b : Operand) → combine fs (over fs) a b ≡ panicked ↔ IsByZero a b
  unfolding combine
  combine-panics_iff (int a) (int b) = divide_int-panics_iff a b
  combine-panics_iff (int a) (uint b) = divide_int-panics_iff a (int_64 b)
  combine-panics_iff (int a) (float b) = value_never _
  combine-panics_iff (int a) (number b) = unknown_never
  combine-panics_iff (int a) (text b) = unknown_never
  combine-panics_iff (int a) nil = unknown_never
  combine-panics_iff (int a) (other b) = unknown_never
  combine-panics_iff (uint a) (int b) = divide_int-panics_iff (int_64 a) b
  combine-panics_iff (uint a) (uint b) = divide_uint-panics_iff a b
  combine-panics_iff (uint a) (float b) = value_never _
  combine-panics_iff (uint a) (number b) = unknown_never
  combine-panics_iff (uint a) (text b) = unknown_never
  combine-panics_iff (uint a) nil = unknown_never
  combine-panics_iff (uint a) (other b) = unknown_never
  combine-panics_iff (float a) (int b) = value_never _
  combine-panics_iff (float a) (uint b) = value_never _
  combine-panics_iff (float a) (float b) = value_never _
  combine-panics_iff (float a) (number b) = unknown_never
  combine-panics_iff (float a) (text b) = unknown_never
  combine-panics_iff (float a) nil = unknown_never
  combine-panics_iff (float a) (other b) = unknown_never
  combine-panics_iff (number a) b = unknown_never
  combine-panics_iff (text a) b = unknown_never
  combine-panics_iff nil b = unknown_never
  combine-panics_iff (other a) b = unknown_never

  -- A division panics exactly if it is one of integers and the divisor is 0; every other one has a
  -- result or an error.
  pub divide-panics_iff :
      (a b : Operand)
      → divide fs b a ≡ panicked
        ↔ IsByZero (int_or_float_from_json_number fs a) (int_or_float_from_json_number fs b)
  unfolding divide
  divide-panics_iff a b =
      combine-panics_iff (int_or_float_from_json_number fs a) (int_or_float_from_json_number fs b)
