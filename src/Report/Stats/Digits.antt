-- ===== src/Report/Stats/Digits.antt =====
-- The number of digits that pads the numbers of the test cases.
use apitest.Base.{
  ℕ, zero, suc, ◌+◌, ◌*◌, ◌/◌, ◌^◌, ◌≤◌, ◌<◌, ◌≡◌, refl, ap, false, Bool-cases, if_elim, inl, inr,
  arith, ◌==◌,
}
use apitest.Report.Stats.{digits_count, iterative_digits_count}

-- What counting on from `count` gives, with `d` more digits.
record Counts (count n r : ℕ) : Type 0 where
  digits : ℕ
  sum : r ≡ count + digits
  upper : n < 10 ^ digits
  lower : 0 < n → 10 ^ digits ≤ 10 * n
  none : n ≡ 0 → digits ≡ 0

Counts-suc : (count n r : ℕ) → (n == 0) ≡ false → Counts (suc count) (n / 10) r → Counts count n r
Counts-suc count n r h c = record {
  digits = suc c.digits;
  sum = omega (arith, c.sum);
  upper = omega (arith, c.upper);
  lower = λ p. elim (Bool-cases (n / 10 == 0)) [
    | inl e ↦
        let one_digit : 10 ^ suc c.digits ≡ 10 ^ 1 =
          ap (λ d. 10 ^ suc d) (c.none (ground (arith, e))) in
        omega (arith, one_digit, p)
    | inr e ↦ omega (arith, c.lower (ground (arith, e)))
  ];
  none = λ z. absurd (ground (arith, h, z));
}

digits_count-Counts : (fuel count n : ℕ) → n ≤ fuel → Counts count n (digits_count fuel count n)
unfolding digits_count
digits_count-Counts zero count n h = record {
  digits = 0;
  sum = omega arith;
  upper = omega (arith, h);
  lower = λ p. absurd (omega (arith, h, p));
  none = λ z. refl;
}
digits_count-Counts (suc fuel) count n h =
    if_elim (Counts count n) (n == 0) _ _
      (λ e. record {
        digits = 0;
        sum = omega arith;
        upper = ground (arith, e);
        lower = λ p. absurd (ground (arith, e, p));
        none = λ z. refl;
      })
      (λ e.
        Counts-suc count n _ e
          (digits_count-Counts fuel (suc count) (n / 10) (ground (arith, e, h))))

-- For a number that is not 0 the loop ends with the number of its digits: the number is below that
-- power of ten, and not below a tenth of it.
pub iterative_digits_count_lem :
    (n : ℕ) → 0 < n → (n < 10 ^ iterative_digits_count n) × (10 ^ iterative_digits_count n ≤ 10 * n)
unfolding iterative_digits_count
iterative_digits_count_lem n p =
    let c = digits_count-Counts n 0 n (omega arith) in
    let same : 10 ^ digits_count n 0 n ≡ 10 ^ c.digits = ap (λ d. 10 ^ d) (omega (arith, c.sum)) in
    (omega (arith, same, c.upper), omega (arith, same, c.lower p))
