-- ===== src/Runtime/Redaction.antt =====
-- `redact_mapping` (knowledge/agent_runtime/context.py), which takes credentials and large payloads out
-- of public audit data. `lower` is Python's `str.lower`.
pub mod Keys
use its_middle_platform_agen.Prelude.Strip.{strip}
use its_middle_platform_agen.Prelude.Values.{
  null, truth, number, text, object, array, dict, no_values, value_before, no_entries, entry, Value,
  Values, Entries,
}
use its_middle_platform_agen.Prelude.{
  without_underscores, ◌||◌, not, contains, ◌==◌, replace_dash, if◌then◌else◌, Bool, String, List,
  ℕ, ◌≡◌, none, some, [], ◌∷◌, true, false, inl, inr, refl,
}

-- `_PRIVATE_KEYS`.
abbrev pub private_keys : List String
private_keys =
    "api_key" ∷ "authorization" ∷ "bearer_token" ∷ "chunk_content" ∷ "content" ∷ "embedding"
    ∷ "output" ∷ "password" ∷ "prompt" ∷ "secret" ∷ "token" ∷ []

abbrev pub private_fragments : List String
private_fragments =
    "apikey" ∷ "authorization" ∷ "content" ∷ "embedding" ∷ "modeloutput" ∷ "password" ∷ "prompt"
    ∷ "secret" ∷ "token" ∷ []

unfoldable pub is_listed : List String → String → Bool
is_listed [] s = false
is_listed (k ∷ ks) s = k == s || is_listed ks s

-- `any(fragment in s for fragment in …)`.
unfoldable pub has_fragment : List String → String → Bool
has_fragment [] s = false
has_fragment (f ∷ fs) s = contains f s || has_fragment fs s

module _ (lower : String → String) where
  abbrev pub normalized : String → String
  normalized key = replace_dash (lower (strip key))

  unfoldable pub is_private_key : String → Bool
  unfolding is_listed has_fragment
  is_private_key key =
      is_listed private_keys (normalized key)
      || has_fragment private_fragments (without_underscores (normalized key))

  unfoldable mutual
    pub redact_mapping : Value → Value
    redact_mapping null = null
    redact_mapping (truth b) = truth b
    redact_mapping (number n) = number n
    redact_mapping (text s) = text s
    redact_mapping (object s) = text s
    redact_mapping (array vs) = array (redact_values vs)
    redact_mapping (dict es) = dict (redact_entries es)

    pub redact_values : Values → Values
    redact_values no_values = no_values
    redact_values (value_before v vs) = value_before (redact_mapping v) (redact_values vs)

    pub redact_entries : Entries → Entries
    redact_entries no_entries = no_entries
    redact_entries (entry key v es) =
        let first = redact_mapping v in
        let rest = redact_entries es in
        if not (is_private_key key) then entry key first rest else rest
