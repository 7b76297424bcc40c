-- ===== src/Prelude/Strip/Twice.antt =====
-- A text that was stripped is not changed by another `strip`.
use Prim.Native.Char.{code}
use Prim.Native.String.{String, [], ◌∷◌}
use mathlib.Core.Path.{◌≡◌, refl, ◌∙◌, ap}
use mathlib.Core.Bool.{Bool, false, ◌&&◌}
use mathlib.Core.Logic.{inl, inr}
use its_middle_platform_agen.Prelude.Tests.{Bool-cases}
use its_middle_platform_agen.Prelude.Strip.{is_space, is_empty, lstrip, rstrip, strip}

abbrev begins_blank : String → Bool
begins_blank [] = false
begins_blank (c ∷ s) = is_space (code c)

lstrip-begins_blank : (s : String) → begins_blank (lstrip s) ≡ false
unfolding lstrip
lstrip-begins_blank [] = refl
lstrip-begins_blank (c ∷ s) = elim (Bool-cases (is_space (code c))) [
  | inl blank ↦ rw blank (lstrip-begins_blank s)
  | inr solid ↦ rw solid solid
]

lstrip_solid : (s : String) → begins_blank s ≡ false → lstrip s ≡ s
unfolding lstrip
lstrip_solid [] h = refl
lstrip_solid (c ∷ s) h = rw h refl

rstrip-begins_blank : (s : String) → begins_blank s ≡ false → begins_blank (rstrip s) ≡ false
unfolding rstrip
rstrip-begins_blank [] h = refl
rstrip-begins_blank (c ∷ s) h = elim (Bool-cases (is_empty (rstrip s))) [
  | inl e ↦ rw e (rw h h)
  | inr e ↦ rw e h
]

rstrip-rstrip : (s : String) → rstrip (rstrip s) ≡ rstrip s
unfolding rstrip
rstrip-rstrip [] = refl
rstrip-rstrip (c ∷ s) = elim (Bool-cases (is_empty (rstrip s) && is_space (code c))) [
  | inl e ↦ rw e refl
  | inr e ↦ rw e (rw (rstrip-rstrip s) (rw e refl))
]

pub strip-strip : (s : String) → strip (strip s) ≡ strip s
unfolding strip
strip-strip s =
    let h = rstrip-begins_blank (lstrip s) (lstrip-begins_blank s) in
    ap rstrip (lstrip_solid (rstrip (lstrip s)) h) ∙ rstrip-rstrip (lstrip s)
