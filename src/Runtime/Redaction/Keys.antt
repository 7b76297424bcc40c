-- ===== src/Runtime/Redaction/Keys.antt =====
-- That no private key is left, and that public data is kept.
use its_middle_platform_agen.Runtime.Redaction.{
  is_private_key, redact_entries, redact_values, redact_mapping,
}
use its_middle_platform_agen.Prelude.Values.{
  null, truth, number, text, object, array, dict, no_values, value_before, no_entries, entry, Value,
  Values, Entries,
}
use its_middle_platform_agen.Prelude.{
  eq_refl, ◌∙◌, some, eq→path, ◌==◌, none, if◌then◌else◌, Option, Bool-cases, not, ap, arith, ◌&&◌,
  Bool, String, ◌≡◌, true, false, inl, inr, refl,
}

module _ (lower : String → String) where
  -- No key at any depth is private, and every value is of JSON.
  unfoldable mutual
    pub is_public : Value → Bool
    is_public null = true
    is_public (truth b) = true
    is_public (number n) = true
    is_public (text s) = true
    is_public (object s) = false
    is_public (array vs) = are_public vs
    is_public (dict es) = has_public_keys es

    pub are_public : Values → Bool
    are_public no_values = true
    are_public (value_before v vs) = is_public v && are_public vs

    pub has_public_keys : Entries → Bool
    has_public_keys no_entries = true
    has_public_keys (entry key v es) =
        not (is_private_key lower key) && (is_public v && has_public_keys es)

  mutual
    unfolding redact_mapping is_public

    redacted : (v : Value) → is_public (redact_mapping lower v) ≡ true
    redacted null = refl
    redacted (truth b) = refl
    redacted (number n) = refl
    redacted (text s) = refl
    redacted (object s) = refl
    redacted (array vs) = redacted_values vs
    redacted (dict es) = redacted_entries es

    redacted_values : (vs : Values) → are_public (redact_values lower vs) ≡ true
    redacted_values no_values = refl
    redacted_values (value_before v vs) = rw (redacted v) (redacted_values vs)

    redacted_entries : (es : Entries) → has_public_keys (redact_entries lower es) ≡ true
    redacted_entries no_entries = refl
    redacted_entries (entry key v es) = elim (Bool-cases (is_private_key lower key)) [
      | inl private ↦ rw private (redacted_entries es)
      | inr public ↦ rw public (rw public (rw (redacted v) (redacted_entries es)))
    ]

  mutual
    unfolding redact_mapping is_public

    kept : (v : Value) → is_public v ≡ true → redact_mapping lower v ≡ v
    kept null h = refl
    kept (truth b) h = refl
    kept (number n) h = refl
    kept (text s) h = refl
    kept (object s) h = absurd (ground arith)
    kept (array vs) h = ap array (kept_values vs h)
    kept (dict es) h = ap dict (kept_entries es h)

    kept_values : (vs : Values) → are_public vs ≡ true → redact_values lower vs ≡ vs
    kept_values no_values h = refl
    kept_values (value_before v vs) h =
        rw (kept v (ground arith)) (ap (value_before v) (kept_values vs (ground arith)))

    kept_entries : (es : Entries) → has_public_keys es ≡ true → redact_entries lower es ≡ es
    kept_entries no_entries h = refl
    kept_entries (entry key v es) h =
        let public : is_private_key lower key ≡ false = ground arith in
        rw public (rw (kept v (ground arith)) (ap (entry key v) (kept_entries es (ground arith))))

  -- `dict.get`.
  unfoldable pub find : String → Entries → Option Value
  find key no_entries = none
  find key (entry k v es) = let rest = find key es in if k == key then some v else rest

  abbrev pub published : Option Value → Option Value
  published none = none
  published (some v) = some (redact_mapping lower v)

  found :
      (key : String) (es : Entries)
      → find key (redact_entries lower es)
        ≡ (if is_private_key lower key then none else published (find key es))
  unfolding find redact_mapping
  found key no_entries = ground arith
  found key (entry k v es) =
      let rest = found key es in
      elim (Bool-cases (k == key)) [
        | inl same ↦
            let e : k ≡ key = eq→path k key same in
            elim (Bool-cases (is_private_key lower key)) [
              | inl private ↦ rw e (rw private (rest ∙ rw private refl))
              | inr public ↦ rw e (rw public (rw (eq_refl key) refl))
            ]
        | inr other ↦ elim (Bool-cases (is_private_key lower k)) [
          | inl private ↦ rw private (rw other rest)
          | inr public ↦ rw public (rw other rest)
        ]
      ]

  -- What is published of a mapping has no private key at any depth and only values of JSON; each
  -- other key keeps its redacted value; and a second redaction changes nothing.
  pub redact_mapping-public :
      (es : Entries) (key : String)
      → (is_public (redact_mapping lower (dict es)) ≡ true)
        × (find key (redact_entries lower es)
            ≡ (if is_private_key lower key then none else published (find key es)))
        × (redact_mapping lower (redact_mapping lower (dict es)) ≡ redact_mapping lower (dict es))
  redact_mapping-public es key =
      (redacted (dict es), found key es, kept (redact_mapping lower (dict es)) (redacted (dict es)))
