-- ===== src/Prelude/Text.antt =====
-- Equality and order of texts, and optional texts as a database column holds them.
use Prim.Native.Nat.{Ordering}
use Prim.Native.Char.{code}
use Prim.Native.String.{String, [], ◌∷◌, compare, ◌++◌ as append}
use mathlib.Core.Path.{◌≡◌, refl}
use mathlib.Core.Bool.{Bool, true, false, ◌&&◌, ◌||◌}
use its_middle_platform_agen.Prelude.Tests.{eqb, if◌then◌else◌}
use mathlib.Core.Option.{Option, none, some}
use native.Mathlib.Omega.{arith}
use text.Mathlib.Text.{◌==◌ as str_eq}
use text.Mathlib.TextEquality.{eq_iff}

infix 50 ◌==◌
abbrev pub ◌==◌ : String → String → Bool
s == t = str_eq s t

abbrev pub str_append : String → String → String
str_append s t = append s t

-- `ORDER BY` of a text column.
abbrev pub text_leb : String → String → Bool
text_leb s t = elim (compare s t) [ Ordering.gt ↦ false | _ ↦ true ]

-- `column = ?` in SQL: NULL equals nothing.
abbrev pub is_text : Option String → String → Bool
is_text none t = false
is_text (some s) t = s == t

-- `a == b` in Python, where both may be `None`.
abbrev pub same_text : Option String → Option String → Bool
same_text none none = true
same_text (some s) (some t) = s == t
same_text _ _ = false

abbrev pub is_some {ℓ} : {A : Type ℓ} → Option A → Bool
is_some none = false
is_some (some _) = true

pub is_some-none {ℓ} : {A : Type ℓ} (o : Option A) → is_some o ≡ false → o ≡ none
is_some-none none h = refl
is_some-none (some a) h = cc

pub is_text→eq : (o : Option String) (t : String) → is_text o t ≡ true → o ≡ some t
is_text→eq none t h = ground arith
is_text→eq (some s) t h = ground (arith, eq_iff s t)

pub eq_comm : (s t : String) → (s == t) ≡ (t == s)
eq_comm s t = ground (arith, eq_iff s t, eq_iff t s)

pub eq→path : (s t : String) → (s == t) ≡ true → s ≡ t
eq→path s t h = ground (arith, eq_iff s t)

-- `s.startswith(prefix)`.
unfoldable pub starts_with : String → String → Bool
starts_with [] s = true
starts_with (c ∷ p) [] = false
starts_with (c ∷ p) (d ∷ s) = eqb (code c) (code d) && starts_with p s

-- `part in s`.
unfoldable pub contains : String → String → Bool
unfolding starts_with
contains part [] = starts_with part []
contains part (c ∷ s) = starts_with part (c ∷ s) || contains part s

-- `s.replace("-", "_")`.
unfoldable pub replace_dash : String → String
replace_dash [] = []
replace_dash (c ∷ s) =
    let rest = replace_dash s in if eqb (code c) 45 then append "_" rest else c ∷ rest

-- `s.replace("_", "")`.
unfoldable pub without_underscores : String → String
without_underscores [] = []
without_underscores (c ∷ s) =
    let rest = without_underscores s in if eqb (code c) 95 then rest else c ∷ rest
