-- ===== src/Tests/Catalog.antt =====
-- The catalog's sources, versions and domain rules at concrete inputs.
use its_middle_platform_agen.Prelude.Result.{err, ok}
use its_middle_platform_agen.Prelude.Table.TextKey.{has_key}
use its_middle_platform_agen.Catalog.Contents.Rules.{stamped, with_rules}
use its_middle_platform_agen.Catalog.Contents.{
  list_domain_rules, insert_rules, replace_domain_rules,
}
use its_middle_platform_agen.Catalog.Versions.{set_version, is_current, update_version}
use its_middle_platform_agen.Prelude.Table.{
  insert_by, order_by, select_all, exists_row, delete_where, select_one, count_where,
}
use its_middle_platform_agen.Catalog.Library.{version_key, SourceDomainRule, Library}
use its_middle_platform_agen.Catalog.Models.{
  SourceVersion, git, KnowledgeSource, Catalog, integrity_error,
}
use its_middle_platform_agen.Catalog.Versions.Current.{IsValid, update_version-current}
use its_middle_platform_agen.Prelude.{
  arith, ◌==◌, Bool-cases, ◌≤◌, Bool, String, ℕ, ◌≡◌, none, some, [], ◌∷◌, true, false, inl, inr,
  refl,
}

abbrev source : KnowledgeSource
source = record {
  id = "s1";
  space_id = "middle-platform";
  domain_id = none;
  source_type = git;
  name = "backend";
  config = "{}";
  enabled = true;
  created_at = 1;
  updated_at = 1;
}

abbrev version : String → Bool → ℕ → SourceVersion
version i current at = record {
  id = i;
  source_id = "s1";
  version_ref = i;
  status = "ready";
  current = current;
  metadata = "{}";
  created_at = at;
  updated_at = at;
}

abbrev db : Catalog
db = record {
  sources = source ∷ [];
  versions = version "v1" true 1 ∷ version "v2" false 2 ∷ [];
  jobs = [];
}

v1_count : (s : String) → count_where (is_current s) db.versions ≤ 1
unfolding count_where
v1_count s = elim (Bool-cases ("s1" == s)) [
  | inl same ↦ rw same (ground arith)
  | inr other ↦ rw other (ground arith)
]

db-IsValid : IsValid db
unfolding select_one
db-IsValid = record { ids = (refl, (refl, tt)); single = v1_count }

stored_v2 : select_one (has_key version_key "v2") db.versions ≡ some (version "v2" false 2)
unfolding select_one
stored_v2 = refl

update_version-current_example :
    ((update_version "v2" none (some true) none 7 db).0
      ≡ ok (set_version none (some true) none 7 (version "v2" false 2)))
    × (count_where (is_current "s1") (update_version "v2" none (some true) none 7 db).1.versions
        ≡ 1)
update_version-current_example =
    update_version-current "v2" none none 7 db (version "v2" false 2) db-IsValid stored_v2

abbrev rule : String → String → ℕ → SourceDomainRule
rule i pattern priority = record {
  id = i;
  source_id = "s1";
  pattern = pattern;
  target_domain_id = some "backend";
  shared = false;
  priority = priority;
  created_at = 1;
}

abbrev library : Library
library = record {
  catalog = db;
  rules = rule "r1" "src/**" 1 ∷ [];
  files = [];
  symbols = [];
  chunks = [];
}

abbrev all_domains : String → Bool
all_domains d = true

replaced : replace_domain_rules all_domains "s1" (rule "r2" "docs/**" 2 ∷ []) 5 library ≡ (
  ok (stamped 5 (rule "r2" "docs/**" 2) ∷ []),
  with_rules (stamped 5 (rule "r2" "docs/**" 2) ∷ []) library,
)
unfolding replace_domain_rules insert_rules list_domain_rules select_one delete_where exists_row
    select_all order_by insert_by
replaced = refl

-- The second of two rules with one id breaks the primary key.
refused :
    replace_domain_rules all_domains "s1" (rule "r2" "a" 2 ∷ rule "r2" "b" 3 ∷ []) 5 library
    ≡ (err integrity_error, library)
unfolding replace_domain_rules insert_rules list_domain_rules select_one delete_where exists_row
refused = refl
