-- ===== src/Base/Results.antt =====
-- A Go result pair `(value, err)`: a value, or an error.
use mathlib.Core.Path.{◌≡◌, refl}
use mathlib.Core.Logic.{◌⊎◌, inl, inr}
use mathlib.Core.Bool.{Bool, true, false}

pub data Outcome {ℓ} (E A : Type ℓ) : Type ℓ where
  ok : A → Outcome E A
  err : E → Outcome E A

infixl 5 ◌>>=◌
abbrev pub ◌>>=◌ {ℓ} : {E A B : Type ℓ} → Outcome E A → (A → Outcome E B) → Outcome E B
ok a >>= f = f a
err e >>= f = err e

-- A step that returns together with what follows has returned, and so has what follows.
pub bind_inversion {ℓ} :
    {E A B : Type ℓ} (first : Outcome E A) (next : A → Outcome E B) {res : B}
    → (first >>= next) ≡ ok res
    → (got : A) × (first ≡ ok got) × (next got ≡ ok res)
bind_inversion (err e) next returned = cc
bind_inversion (ok got) next returned = (got, refl, returned)

-- A step that only fails or goes on, `if err != nil { return err }`.
infixl 5 ◌>>◌
abbrev pub ◌>>◌ {ℓ} : {E B : Type ℓ} → Outcome E (Unit {ℓ}) → Outcome E B → Outcome E B
m >> k = m >>= λ _. k

abbrev pub require {ℓ} : {E : Type ℓ} → Bool → E → Outcome E (Unit {ℓ})
require true e = ok tt
require false e = err e

pub Outcome-cases {ℓ} :
    {E A : Type ℓ} (m : Outcome E A) → ((a : A) × (m ≡ ok a)) ⊎ ((e : E) × (m ≡ err e))
Outcome-cases (ok a) = inl (a, refl)
Outcome-cases (err e) = inr (e, refl)

pub ok-injective {ℓ} : {E A : Type ℓ} {a b : A} → ◌≡◌ {A = Outcome E A} (ok a) (ok b) → a ≡ b
ok-injective h = cc
