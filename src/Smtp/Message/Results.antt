-- ===== src/Smtp/Message/Results.antt =====
-- What the parser's steps give: a rule for each way in which they are put together.
use apitest.Base.{◌≡◌, refl, Bool, true, false, String, Outcome, ok, err, if◌then◌else◌}
use apitest.Smtp.Message.{MailError, Parsed, parsed, failed, panicked, exhausted, ◌>>=◌, lift}

-- What is parsed is `P`, and `E` is said of a parser that runs out of fuel.
abbrev pub Post : {A : Type 0} → Type 0 → (A → Type 0) → Parsed A → Type 0
Post E P (parsed a) = P a
Post E P exhausted = E
Post E P _ = Unit {0}

-- The fuel is enough.
abbrev pub Ends : {A : Type 0} → Parsed A → Type 0
Ends m = Post ⊥ (λ a. Unit {0}) m

pub bind-Post :
    {A B : Type 0} (E : Type 0) (P : A → Type 0) (Q : B → Type 0) (m : Parsed A) (f : A → Parsed B)
    → Post E P m
    → ((a : A) → P a → Post E Q (f a))
    → Post E Q (m >>= f)
bind-Post E P Q (parsed a) f h k = k a h
bind-Post E P Q (failed e) f h k = tt
bind-Post E P Q panicked f h k = tt
bind-Post E P Q exhausted f h k = h

pub if-Post :
    {A : Type 0} (E : Type 0) (P : A → Type 0) (b : Bool) (m k : Parsed A)
    → Post E P m
    → Post E P k
    → Post E P (if b then m else k)
if-Post E P true m k h h' = h
if-Post E P false m k h h' = h'

pub lift-Post :
    {A : Type 0} (E : Type 0) (P : A → Type 0) (wrap : String → MailError) (m : Outcome String A)
    → ((a : A) → m ≡ ok a → P a)
    → Post E P (lift wrap m)
lift-Post E P wrap (ok a) h = h a refl
lift-Post E P wrap (err e) h = tt

pub weaken-Post :
    {A : Type 0} (E : Type 0) (P Q : A → Type 0) (m : Parsed A)
    → Post E P m
    → ((a : A) → P a → Q a)
    → Post E Q m
weaken-Post E P Q (parsed a) h k = k a h
weaken-Post E P Q (failed e) h k = tt
weaken-Post E P Q panicked h k = tt
weaken-Post E P Q exhausted h k = h

-- Nothing is claimed.
pub Post-any : {A : Type 0} (m : Parsed A) → Post (Unit {0}) (λ a. Unit {0}) m
Post-any (parsed a) = tt
Post-any (failed e) = tt
Post-any panicked = tt
Post-any exhausted = tt
