-- ===== src/Template/Arithmetic/Integers.antt =====
-- Sums and differences of integers.
use apitest.Base.{
  ℕ, ◌+◌, ◌-◌, ◌*◌, ◌%◌, ◌^◌, ◌<◌, ◌≡◌, refl, ap, ◌∙◌, sym, true, false, ltb, arith, Bool-cases,
  inl, inr,
}
use apitest.Base.Int.{ℤ, pos, negsuc, bits_64, int_64}
use apitest.Template.Arithmetic.{
  Operand, number, text, int, uint, float, nil, other, value, Floats, plus_int, minus_int,
  times_int, add, subtract, multiply, combine,
}

-- The numbers of an int64 and of a uint64.
abbrev pub IsInt64 : ℤ → Type 0
IsInt64 (pos n) = n < 2 ^ 63
IsInt64 (negsuc n) = n < 2 ^ 63

abbrev pub IsInteger : Operand → Type 0
IsInteger (int a) = IsInt64 a
IsInteger (uint a) = a < 2 ^ 64
IsInteger _ = ⊥

bits_64-below : (a : ℤ) → bits_64 a < 2 ^ 64
bits_64-below (pos n) = omega arith
bits_64-below (negsuc n) = omega arith

int_64-bits_64 : (a : ℤ) → IsInt64 a → int_64 (bits_64 a) ≡ a
int_64-bits_64 (pos n) h =
    let low : ltb (n % 2 ^ 64) (2 ^ 63) ≡ true = ground (arith, h) in
    let same : n % 2 ^ 64 ≡ n = omega (arith, h) in rw low (ap pos same)
int_64-bits_64 (negsuc n) h =
    let high : ltb (2 ^ 64 - 1 - n % 2 ^ 64) (2 ^ 63) ≡ false = ground (arith, h) in
    let same : 2 ^ 64 - 1 - (2 ^ 64 - 1 - n % 2 ^ 64) ≡ n = omega (arith, h) in
    rw high (ap negsuc same)

bits_64-int_64 : (n : ℕ) → n < 2 ^ 64 → bits_64 (int_64 n) ≡ n
bits_64-int_64 n h = elim (Bool-cases (ltb n (2 ^ 63))) [
  | inl e ↦ rw e (omega (arith, h))
  | inr e ↦ rw e (ground (arith, h, e))
]

minus_int-plus_int : (a b : ℤ) → IsInt64 a → minus_int (plus_int a b) b ≡ a
unfolding minus_int plus_int
minus_int-plus_int a b h =
    let sum = (bits_64 a + bits_64 b) % 2 ^ 64 in
    let bits : bits_64 (int_64 sum) ≡ sum = bits_64-int_64 sum (omega arith) in
    let back : (bits_64 (int_64 sum) + (2 ^ 64 - bits_64 b)) % 2 ^ 64 ≡ bits_64 a =
      omega (arith, bits, bits_64-below a, bits_64-below b) in
    ap int_64 back ∙ int_64-bits_64 a h

plus_int_comm : (a b : ℤ) → plus_int a b ≡ plus_int b a
unfolding plus_int
plus_int_comm a b =
    let same : bits_64 a + bits_64 b ≡ bits_64 b + bits_64 a = omega arith in
    ap (λ n. int_64 (n % 2 ^ 64)) same

times_int_comm : (a b : ℤ) → times_int a b ≡ times_int b a
unfolding times_int
times_int_comm a b =
    let same : bits_64 a * bits_64 b ≡ bits_64 b * bits_64 a = omega arith in
    ap (λ n. int_64 (n % 2 ^ 64)) same

module _ (fs : Floats) where
  -- Subtracting an integer from a sum that it is a summand of gives the other summand back, an int64,
  -- also where the sum overflows.
  pub subtract-add :
      (a : ℤ) (b : Operand)
      → IsInt64 a
      → IsInteger b
      → (s : Operand) × (add fs b (int a) ≡ value s) × (subtract fs b s ≡ value (int a))
  unfolding add subtract combine
  subtract-add a (number t) h k = absurd k
  subtract-add a (text t) h k = absurd k
  subtract-add a (int b) h k =
      (int (plus_int a b), refl, ap (λ r. value (int r)) (minus_int-plus_int a b h))
  subtract-add a (uint b) h k = (
    int (plus_int a (int_64 b)),
    refl,
    ap (λ r. value (int r)) (minus_int-plus_int a (int_64 b) h),
  )
  subtract-add a (float x) h k = absurd k
  subtract-add a nil h k = absurd k
  subtract-add a (other t) h k = absurd k

  -- add and multiply make no difference between the orders of their operands.
  abbrev pub SameBoth : Operand → Operand → Type 0
  SameBoth a b = (add fs b a ≡ add fs a b) × (multiply fs b a ≡ multiply fs a b)

  integers_comm_left : (n : ℤ) (b : Operand) → IsInteger b → SameBoth (int n) b
  unfolding add multiply combine
  integers_comm_left n (int b) k =
      (ap (λ r. value (int r)) (plus_int_comm n b), ap (λ r. value (int r)) (times_int_comm n b))
  integers_comm_left n (uint b) k = (
    ap (λ r. value (int r)) (plus_int_comm n (int_64 b)),
    ap (λ r. value (int r)) (times_int_comm n (int_64 b)),
  )
  integers_comm_left n (number t) k = absurd k
  integers_comm_left n (text t) k = absurd k
  integers_comm_left n (float x) k = absurd k
  integers_comm_left n nil k = absurd k
  integers_comm_left n (other t) k = absurd k

  -- For integers, int64 or uint64 or one of each, the order of the operands of add and of multiply
  -- makes no difference, to the kind of the result either.
  pub integers_comm : (a b : Operand) → IsInteger a → IsInteger b → SameBoth a b
  unfolding add multiply combine
  integers_comm (int a) b h k = integers_comm_left a b k
  integers_comm (uint a) (int b) h k =
      let same = integers_comm_left b (uint a) h in (sym same.0, sym same.1)
  integers_comm (uint a) (uint b) h k =
      let sum : a + b ≡ b + a = omega arith in
      let product : a * b ≡ b * a = omega arith in
      (ap (λ r. value (uint (r % 2 ^ 64))) sum, ap (λ r. value (uint (r % 2 ^ 64))) product)
  integers_comm (uint a) (number t) h k = absurd k
  integers_comm (uint a) (text t) h k = absurd k
  integers_comm (uint a) (float x) h k = absurd k
  integers_comm (uint a) nil h k = absurd k
  integers_comm (uint a) (other t) h k = absurd k
  integers_comm (number t) b h k = absurd h
  integers_comm (text t) b h k = absurd h
  integers_comm (float x) b h k = absurd h
  integers_comm nil b h k = absurd h
  integers_comm (other t) b h k = absurd h
