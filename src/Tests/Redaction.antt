-- ===== src/Tests/Redaction.antt =====
-- The redaction at a concrete mapping.
use its_middle_platform_agen.Prelude.Strip.{strip}
use its_middle_platform_agen.Runtime.Redaction.{
  has_fragment, redact_entries, is_listed, is_private_key, redact_mapping,
}
use its_middle_platform_agen.Runtime.Redaction.Keys.{
  redact_mapping-public, published, find, is_public,
}
use its_middle_platform_agen.Prelude.Values.{
  text, array, dict, no_values, value_before, no_entries, entry, Entries,
}
use its_middle_platform_agen.Prelude.{
  without_underscores, replace_dash, starts_with, contains, if◌then◌else◌, String, ◌≡◌, none, true,
  refl,
}

abbrev same : String → String
same s = s

abbrev arguments : Entries
arguments = entry "app" (text "orders") (
    entry "api-key" (text "k") (
      entry "items" (array (value_before (dict (entry "x_token" (text "t") no_entries)) no_values))
        no_entries))

published_arguments :
    redact_mapping same (dict arguments)
    ≡ dict (
        entry "app"
          (text "orders")
          (entry "items" (array (value_before (dict no_entries) no_values)) no_entries))
unfolding redact_mapping is_private_key is_listed has_fragment contains starts_with replace_dash
    without_underscores strip
published_arguments = refl

redact_mapping-public_example :
    (is_public same (redact_mapping same (dict arguments)) ≡ true)
    × (find same "app" (redact_entries same arguments)
        ≡ (if is_private_key same "app" then none else published same (find same "app" arguments)))
    × (redact_mapping same (redact_mapping same (dict arguments))
        ≡ redact_mapping same (dict arguments))
redact_mapping-public_example = redact_mapping-public same arguments "app"
