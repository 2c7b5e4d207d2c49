-- ===== src/Base/Text.antt =====
-- Go strings as texts of code points: comparison, prefixes, suffixes and concatenation.
use Prim.Native.Char.{Char, code}
use Prim.Native.String.{String}
use mathlib.Core.Bool.{Bool, true, false, ◌&&◌, ◌||◌}
use mathlib.Core.List.{List, [], ◌∷◌}
use Prim.Native.Nat.{ℕ}
use Prim.Native.String.append
use mathlib.Core.Path.{◌≡◌, refl}
use native.Mathlib.Omega.{arith}
use text.Mathlib.Text
use mathlib.Core.Option
use mathlib.Core.Option.{Option, none, some}
use apitest.Base.Tests.{◌==◌, if◌then◌else◌}
pub use text.Mathlib.TextEquality.{eq_iff}
pub use text.Mathlib.TextPositions.{eq_refl}
pub use Prim.Native.Char.{Char, code}
pub use Prim.Native.String.{◌++◌ as ◌<>◌}

abbrev pub str_eq : String → String → Bool
str_eq = Text.◌==◌

abbrev pub mem_str : String → List String → Bool
mem_str k [] = false
mem_str k (j ∷ js) = str_eq j k || mem_str k js

-- strings.HasPrefix
unfoldable pub has_prefix : String → String → Bool
has_prefix s String.[] = true
has_prefix String.[] (String.◌∷◌ p t) = false
has_prefix (String.◌∷◌ c s) (String.◌∷◌ p t) = code c == code p && has_prefix s t

-- strings.HasSuffix
unfoldable pub has_suffix : String → String → Bool
has_suffix String.[] t = str_eq "" t
has_suffix (String.◌∷◌ c s) t = str_eq (String.◌∷◌ c s) t || has_suffix s t

pub has_suffix-append : (k t : String) → has_suffix (k <> t) t ≡ true
unfolding has_suffix
has_suffix-append String.[] String.[] = refl
has_suffix-append String.[] (String.◌∷◌ c t) = rw append.nil (rw (eq_refl (String.◌∷◌ c t)))
has_suffix-append (String.◌∷◌ c k) t = rw append.cons (ground (arith, has_suffix-append k t))

-- strings.TrimSuffix with the answer whether it was there, as strings.CutSuffix gives it.
unfoldable pub cut_suffix : String → String → Option String
cut_suffix String.[] t = if str_eq "" t then some "" else none
cut_suffix (String.◌∷◌ c s) t =
    let rest = Option.map (λ r. String.◌∷◌ c r) (cut_suffix s t) in
    if str_eq (String.◌∷◌ c s) t then some "" else rest

-- The text before and after the first character with this code.
unfoldable pub cut_at : ℕ → String → Option (String × String)
cut_at n String.[] = none
cut_at n (String.◌∷◌ c s) =
    let rest = Option.map (λ (pre, post). (String.◌∷◌ c pre, post)) (cut_at n s) in
    if code c == n then some ("", s) else rest

unfoldable pub has_char : ℕ → String → Bool
has_char n String.[] = false
has_char n (String.◌∷◌ c s) = code c == n || has_char n s
