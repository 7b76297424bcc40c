-- ===== src/Catalog/Sources.antt =====
-- The methods of `CatalogRepository` (knowledge/catalog/repository.py) on `knowledge_sources`, with
-- what their deletions cascade to. `has_scope` says whether the foreign keys name a space and a
-- domain; the derived flag `credential_configured` is left out.
use its_middle_platform_agen.Catalog.Models.{document, swagger}
use its_middle_platform_agen.Prelude.Table.{
  select_all, count_where, update_where, order_by, select_one, delete_where,
}
use its_middle_platform_agen.Catalog.Jobs.{Outcome}
use its_middle_platform_agen.Prelude.Result.{ok, err, Result}
use its_middle_platform_agen.Catalog.Library.{
  SourceFile, SourceDomainRule, Library, ChunkCatalogEntry, delete_versions, delete_files,
}
use its_middle_platform_agen.Prelude.{
  text_leb, eqb, ◌++◌, ◌||◌, is_text, is_some, if◌then◌else◌, false, List, true, not, ltb, ◌==◌,
  ◌&&◌, String, Option, Bool, ℕ, none, some, [], ◌∷◌,
}
use its_middle_platform_agen.Catalog.Models.{
  source_by_id, git, CatalogError, SyncJob, SourceVersion, Catalog, SourceType, KnowledgeSource,
  value_error, integrity_error, not_found, type_error,
}

abbrev pub is_git : SourceType → Bool
is_git git = true
is_git _ = false

abbrev pub source_key : KnowledgeSource → String
source_key s = s.id

unfoldable pub get_source : String → Catalog → Option KnowledgeSource
get_source source_id db = select_one (source_by_id source_id) db.sources

-- `assert created is not None`.
abbrev pub asserted : Option KnowledgeSource → Result {0, 0} CatalogError KnowledgeSource
asserted none = err type_error
asserted (some s) = ok s

-- A Git source belongs to a space, and any other to a domain.
abbrev pub wrong_scope : KnowledgeSource → Bool
wrong_scope s =
    (is_git s.source_type && is_some s.domain_id)
    || (not (is_git s.source_type) && not (is_some s.domain_id))

-- `s` holds the arguments of the call.
unfoldable pub create_source :
    (String → Option String → Bool) → KnowledgeSource → ℕ → Catalog → Outcome KnowledgeSource
unfolding get_source
create_source has_scope s now db =
    let stored : KnowledgeSource = record s { created_at = now; updated_at = now } in
    let db' : Catalog = record db { sources = db.sources ++ stored ∷ [] } in
    if wrong_scope s
    then (err value_error, db)
    else if is_some (select_one (source_by_id s.id) db.sources)
        || not (has_scope s.space_id s.domain_id)
    then (err integrity_error, db)
    else (asserted (get_source s.id db'), db')

-- The type of a source, as a text compares it.
abbrev pub same_type : SourceType → SourceType → Bool
same_type git git = true
same_type document document = true
same_type swagger swagger = true
same_type _ _ = false

abbrev pub given {ℓ} : {A : Type ℓ} → Option A → (A → Bool) → Bool
given none test = true
given (some a) test = test a

abbrev pub same_flag : Bool → Bool → Bool
same_flag true b = b
same_flag false b = not b

-- The clauses that `list_sources` joins by AND.
abbrev pub source_test :
    Option String → Option String → Option SourceType → Option Bool → KnowledgeSource → Bool
source_test space_id domain_id source_type enabled s =
    given space_id (λ x. s.space_id == x)
    && given domain_id (λ x. is_text s.domain_id x)
    && given source_type (λ x. same_type s.source_type x)
    && given enabled (λ x. same_flag s.enabled x)

-- `ORDER BY s.created_at, s.id`.
abbrev pub source_precedes : KnowledgeSource → KnowledgeSource → Bool
source_precedes a b =
    ltb a.created_at b.created_at || (eqb a.created_at b.created_at && text_leb a.id b.id)

unfoldable pub list_sources :
    Option String → Option String → Option SourceType → Option Bool → Catalog → List KnowledgeSource
list_sources space_id domain_id source_type enabled db =
    order_by source_precedes
      (select_all (source_test space_id domain_id source_type enabled) db.sources)

abbrev pub value_or {ℓ} : {A : Type ℓ} → Option A → A → A
value_or none a = a
value_or (some x) a = x

abbrev pub set_source :
    Option String → Option String → Option Bool → ℕ → KnowledgeSource → KnowledgeSource
set_source name config enabled now s = record s {
  name = value_or name s.name;
  config = value_or config s.config;
  enabled = value_or enabled s.enabled;
  updated_at = now;
}

unfoldable pub update_source :
    String → Option String → Option String → Option Bool → ℕ → Catalog → Outcome KnowledgeSource
unfolding get_source
update_source source_id name config enabled now db =
    let db' : Catalog = record db {
      sources =
          update_where (source_by_id source_id) (set_source name config enabled now) db.sources;
    } in
    if not (eqb (count_where (source_by_id source_id) db.sources) 1)
    then (err not_found, db)
    else (asserted (get_source source_id db'), db')

abbrev pub version_of : String → SourceVersion → Bool
version_of source_id v = v.source_id == source_id

abbrev pub job_of : String → SyncJob → Bool
job_of source_id j = j.source_id == source_id

abbrev pub rule_of : String → SourceDomainRule → Bool
rule_of source_id r = r.source_id == source_id

abbrev pub file_of : String → SourceFile → Bool
file_of source_id f = f.source_id == source_id

abbrev pub chunk_of : String → ChunkCatalogEntry → Bool
chunk_of source_id c = c.source_id == source_id

-- The rows that refer to a source go with it (`ON DELETE CASCADE`), of the tables that the library
-- holds; the secrets of sources, of their webhooks and the Swagger cache have no rows here.
abbrev pub without_source : String → Library → Library
without_source source_id lib = record lib {
  catalog = record lib.catalog {
    sources = delete_where (source_by_id source_id) lib.catalog.sources;
    versions = delete_where (version_of source_id) lib.catalog.versions;
    jobs = delete_where (job_of source_id) lib.catalog.jobs;
  };
  rules = delete_where (rule_of source_id) lib.rules;
  chunks = delete_where (chunk_of source_id) lib.chunks;
}

unfoldable pub delete_source : String → Library → Bool × Library
unfolding delete_files
delete_source source_id lib =
    if is_some (select_one (source_by_id source_id) lib.catalog.sources)
    then (
      eqb (count_where (source_by_id source_id) lib.catalog.sources) 1,
      delete_files (file_of source_id) (without_source source_id lib),
    )
    else (false, lib)

-- The deletion of a source's content, of the tables that the library holds.
unfoldable pub purge_source_content_records :
    String → Library → Result {0, 0} CatalogError Unit × Library
unfolding delete_versions
purge_source_content_records source_id lib =
    if not (is_some (select_one (source_by_id source_id) lib.catalog.sources))
    then (err not_found, lib)
    else (
      ok tt,
      delete_versions (version_of source_id)
          (record lib { rules = delete_where (rule_of source_id) lib.rules }),
    )
