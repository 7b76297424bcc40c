-- ===== src/Runtime/Evidence/Safeguards.antt =====
-- When an answer that denies a capability is marked as unverified.
use its_middle_platform_agen.Runtime.Evidence.{
  safeguard_notice, inferred, confirms, confirmed, classify, CitationView, safeguard,
  classify_items,
}
use its_middle_platform_agen.Prelude.{
  Bool-cases, ◌||◌, str_append, if◌then◌else◌, String, Bool, List, ◌≡◌, [], ◌∷◌, false, inl, inr,
  refl,
}

unfoldable pub any_confirms : List CitationView → Bool
any_confirms [] = false
any_confirms (c ∷ cs) = confirms c || any_confirms cs

classify_items-any :
    (cs : List CitationView) → classify_items cs ≡ (if any_confirms cs then confirmed else inferred)
unfolding classify_items any_confirms
classify_items-any [] = refl
classify_items-any (c ∷ cs) = elim (Bool-cases (confirms c)) [
  | inl e ↦ rw e refl
  | inr e ↦ rw e (classify_items-any cs)
]

-- The safeguard's notice stands before an answer exactly when the answer denies a capability and no
-- citation confirms; without a confirming citation the answer itself is kept.
pub safeguard-notice :
    (is_negative : String → Bool) (unguarded : String → String) (answer : String)
    (cs : List CitationView)
    → safeguard is_negative unguarded answer cs ≡ (
        if any_confirms cs
        then unguarded answer
        else if is_negative answer
        then str_append safeguard_notice answer
        else answer)
unfolding safeguard classify any_confirms
safeguard-notice is_negative unguarded answer [] = refl
safeguard-notice is_negative unguarded answer (c ∷ cs) = elim (Bool-cases (any_confirms (c ∷ cs))) [
  | inl e ↦ rw (classify_items-any (c ∷ cs), safeguard, classify) (rw e refl)
  | inr e ↦ rw (classify_items-any (c ∷ cs), safeguard, classify) (rw e refl)
]
