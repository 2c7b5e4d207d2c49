-- ===== src/Smtp/Posts/Lines.antt =====
-- The line ends of a posted message.
use apitest.Base.{
  ◌≡◌, refl, ap, Bool, true, false, ◌&&◌, String, code, ◌==◌, arith, Bool-cases, if_elim, inl, inr,
}
use apitest.Smtp.Posts.{starts_lf, to_lf, to_crlf, crlf}

-- Every line feed stands behind a carriage return; `cr` tells whether one stands before the text.
abbrev pub HasCrlf : Bool → String → Type 0
HasCrlf cr String.[] = Unit {0}
HasCrlf cr (String.◌∷◌ c s) = (code c ≡ b'\n' → cr ≡ true) × HasCrlf (code c == b'\r') s

starts_lf-to_crlf : (s : String) → starts_lf (to_crlf s) ≡ false
unfolding starts_lf to_crlf
starts_lf-to_crlf String.[] = refl
starts_lf-to_crlf (String.◌∷◌ c s) = elim (Bool-cases (code c == b'\n')) [
  | inl e ↦ rw e
  | inr e ↦ rw (e, e)
]

and_false : (b : Bool) → b && false ≡ false
and_false true = refl
and_false false = refl

to_lf-to_crlf : (s : String) → to_lf (to_crlf s) ≡ s
unfolding to_lf to_crlf starts_lf
to_lf-to_crlf String.[] = refl
to_lf-to_crlf (String.◌∷◌ c s) = elim (Bool-cases (code c == b'\n')) [
  | inl e ↦ rw (e, e, starts_lf-to_crlf s, and_false (code c == b'\r'), to_lf-to_crlf s)
  | inr e ↦ rw (e, starts_lf-to_crlf s, and_false (code c == b'\r'), to_lf-to_crlf s)
]

HasCrlf-to_crlf : (cr : Bool) (s : String) → HasCrlf cr (to_crlf s)
unfolding to_crlf
HasCrlf-to_crlf cr String.[] = tt
HasCrlf-to_crlf cr (String.◌∷◌ c s) =
    if_elim (HasCrlf cr) (code c == b'\n') _ _
      (λ e. (λ h. absurd (omega (arith, h)), (λ h. refl, HasCrlf-to_crlf (code c == b'\r') s)))
      (λ e. (λ h. ground (arith, e, h), HasCrlf-to_crlf (code c == b'\r') s))

-- In the data that is stored for a posted message every line feed stands behind a carriage return,
-- and replacing the line ends again would change nothing.
pub crlf_lem : (s : String) → HasCrlf false (crlf s) × (crlf (crlf s) ≡ crlf s)
unfolding crlf
crlf_lem s = (HasCrlf-to_crlf false (to_lf s), ap to_crlf (to_lf-to_crlf (to_lf s)))
