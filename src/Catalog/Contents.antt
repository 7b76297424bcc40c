-- ===== src/Catalog/Contents.antt =====
-- The domain rules, files, symbols and chunks of `CatalogRepository` (knowledge/catalog/repository.py).
-- `now` is the value of `_utc_now()`; `has_domain` says whether a foreign key names a domain.
pub mod Rules
use its_middle_platform_agen.Prelude.Table.TextKey.{has_key}
use its_middle_platform_agen.Catalog.Sources.{same_type, rule_of, given, file_of, is_git, chunk_of}
use its_middle_platform_agen.Prelude.Table.{
  update_where, select_one, select_all, exists_row, delete_where, order_by, count_where,
}
use its_middle_platform_agen.Prelude.Result.{ok, err, Result}
use its_middle_platform_agen.Catalog.Library.{
  symbol_key, file_key, chunk_key, of_version, Answer, Library, SourceFile, SourceDomainRule,
  CodeSymbol, ChunkCatalogEntry,
}
use its_middle_platform_agen.Prelude.{
  ◌&&◌, ◌||◌, ◌==◌, true, text_leb, not, ltb, is_some, false, eqb, ◌++◌, if◌then◌else◌, Bool,
  String, Option, List, ℕ, ◌≡◌, none, some, [], ◌∷◌,
}
use its_middle_platform_agen.Catalog.Models.{
  source_by_id, KnowledgeSource, CatalogError, SourceType, value_error, integrity_error, not_found,
  type_error, conflict,
}

abbrev pub rule_key : SourceDomainRule → String
rule_key r = r.id

-- `SourceDomainRuleCreate.__post_init__`, and the check of the table.
abbrev pub is_targeted : SourceDomainRule → Bool
is_targeted r = if r.shared then not (is_some r.target_domain_id) else is_some r.target_domain_id

abbrev pub breaks_rule : (String → Bool) → SourceDomainRule → Library → Bool
breaks_rule has_domain r lib =
    is_some (select_one (has_key rule_key r.id) lib.rules)
    || not (is_some (select_one (source_by_id r.source_id) lib.catalog.sources))
    || not (is_targeted r)
    || not (given r.target_domain_id has_domain)

abbrev pub add_rule : SourceDomainRule → ℕ → Library → Library
add_rule r now lib = record lib { rules = lib.rules ++ (record r { created_at = now }) ∷ [] }

-- `r` holds the arguments of the call, whose constructor checks the target.
unfoldable pub create_domain_rule :
    (String → Bool) → SourceDomainRule → ℕ → Library → Answer SourceDomainRule
create_domain_rule has_domain r now lib =
    if not (is_targeted r)
    then (err value_error, lib)
    else if breaks_rule has_domain r lib
    then (err integrity_error, lib)
    else (ok (record r { created_at = now }), add_rule r now lib)

-- `ORDER BY priority, id`.
abbrev pub rule_precedes : SourceDomainRule → SourceDomainRule → Bool
rule_precedes a b = ltb a.priority b.priority || (eqb a.priority b.priority && text_leb a.id b.id)

unfoldable pub list_domain_rules : String → Library → List SourceDomainRule
list_domain_rules source_id lib = order_by rule_precedes (select_all (rule_of source_id) lib.rules)

unfoldable pub delete_domain_rule : String → Library → Bool × Library
delete_domain_rule rule_id lib = (
  eqb (count_where (has_key rule_key rule_id) lib.rules) 1,
  record lib { rules = delete_where (has_key rule_key rule_id) lib.rules },
)

abbrev pub foreign_rule : String → SourceDomainRule → Bool
foreign_rule source_id r = not (r.source_id == source_id)

-- The loop of inserts; the first that breaks a constraint ends it.
unfoldable pub insert_rules : (String → Bool) → List SourceDomainRule → ℕ → Library → Option Library
insert_rules has_domain [] now lib = some lib
insert_rules has_domain (r ∷ rs) now lib =
    let rest = insert_rules has_domain rs now (add_rule r now lib) in
    if breaks_rule has_domain r lib then none else rest

abbrev pub committed : String → Library → Option Library → Answer (List SourceDomainRule)
committed source_id lib none = (err integrity_error, lib)
committed source_id lib (some lib') = (ok (list_domain_rules source_id lib'), lib')

abbrev pub replace_rules_of :
    (String → Bool)
    → KnowledgeSource
    → List SourceDomainRule
    → ℕ
    → Library
    → Answer (List SourceDomainRule)
replace_rules_of has_domain s rules now lib =
    if not (is_git s.source_type)
    then (err conflict, lib)
    else committed s.id lib (
        insert_rules has_domain rules now
          (record lib { rules = delete_where (rule_of s.id) lib.rules }))

unfoldable pub replace_domain_rules :
    (String → Bool) → String → List SourceDomainRule → ℕ → Library → Answer (List SourceDomainRule)
unfolding insert_rules list_domain_rules
replace_domain_rules has_domain source_id rules now lib =
    if exists_row (foreign_rule source_id) rules
    then (err value_error, lib)
    else elim (select_one (source_by_id source_id) lib.catalog.sources) [
      | none ↦ (err not_found, lib)
      | some s ↦ replace_rules_of has_domain s rules now lib
    ]

-- `rows[0]`.
abbrev pub head_or_error : {R : Type 0} → List R → Result {0, 0} CatalogError R
head_or_error [] = err type_error
head_or_error (r ∷ rs) = ok r

-- `FOREIGN KEY(version_id, source_id)` names a version.
abbrev pub has_version : String → String → Library → Bool
has_version version_id source_id lib = of_version lib.catalog.versions version_id source_id

abbrev pub file_precedes : SourceFile → SourceFile → Bool
file_precedes a b =
    not (text_leb b.relative_path a.relative_path)
    || (a.relative_path == b.relative_path && text_leb a.id b.id)

unfoldable pub list_files : String → Option String → Option String → Library → List SourceFile
list_files source_id version_id file_id lib = order_by file_precedes (
    select_all
      (λ (f : SourceFile).
        file_of source_id f
        && given version_id (λ x. f.version_id == x)
        && given file_id (λ x. f.id == x))
      lib.files)

abbrev pub breaks_file : SourceFile → Library → Bool
breaks_file f lib =
    is_some (select_one (has_key file_key f.id) lib.files)
    || exists_row
        (λ (x : SourceFile). x.version_id == f.version_id && x.relative_path == f.relative_path)
        lib.files
    || not (has_version f.version_id f.source_id lib)

unfoldable pub create_file : SourceFile → ℕ → Library → Answer SourceFile
unfolding list_files
create_file f now lib =
    let lib' : Library = record lib { files = lib.files ++ (record f { created_at = now }) ∷ [] } in
    if breaks_file f lib
    then (err integrity_error, lib)
    else (head_or_error (list_files f.source_id (some f.version_id) (some f.id) lib'), lib')

-- `ORDER BY start_line, end_line, id`.
abbrev pub symbol_precedes : CodeSymbol → CodeSymbol → Bool
symbol_precedes a b =
    ltb a.start_line b.start_line
    || (eqb a.start_line b.start_line
        && (ltb a.end_line b.end_line || (eqb a.end_line b.end_line && text_leb a.id b.id)))

unfoldable pub list_symbols : String → Option String → Library → List CodeSymbol
list_symbols source_file_id symbol_id lib = order_by symbol_precedes (
    select_all
      (λ (s : CodeSymbol). s.source_file_id == source_file_id && given symbol_id (λ x. s.id == x))
      lib.symbols)

abbrev pub breaks_symbol : CodeSymbol → Library → Bool
breaks_symbol s lib =
    is_some (select_one (has_key symbol_key s.id) lib.symbols)
    || not (exists_row (has_key file_key s.source_file_id) lib.files)
    || not (given s.parent_symbol_id (λ p. exists_row (has_key symbol_key p) lib.symbols))

unfoldable pub create_symbol : CodeSymbol → ℕ → Library → Answer CodeSymbol
unfolding list_symbols
create_symbol s now lib =
    let lib' : Library = record lib {
      symbols = lib.symbols ++ (record s { created_at = now }) ∷ [];
    } in
    if eqb s.start_line 0 || ltb s.end_line s.start_line
    then (err value_error, lib)
    else if breaks_symbol s lib
    then (err integrity_error, lib)
    else (head_or_error (list_symbols s.source_file_id (some s.id) lib'), lib')

-- The foreign keys of a chunk.
abbrev pub breaks_chunk : ChunkCatalogEntry → Library → Bool
breaks_chunk c lib =
    not (is_some (select_one (source_by_id c.source_id) lib.catalog.sources))
    || not (has_version c.version_id c.source_id lib)
    || not (
        given c.source_file_id (λ f.
          exists_row (λ (x : SourceFile). has_key file_key f x && x.source_id == c.source_id)
            lib.files))

abbrev pub replaced_chunk : ChunkCatalogEntry → ℕ → ChunkCatalogEntry → ChunkCatalogEntry
replaced_chunk c now old = record c { created_at = old.created_at; updated_at = now }

abbrev pub upserted : ChunkCatalogEntry → ℕ → List ChunkCatalogEntry → List ChunkCatalogEntry
upserted c now chunks =
    if is_some (select_one (has_key chunk_key c.chunk_id) chunks)
    then update_where (has_key chunk_key c.chunk_id) (replaced_chunk c now) chunks
    else chunks ++ (record c { created_at = now; updated_at = now }) ∷ []

abbrev pub chunk_precedes : ChunkCatalogEntry → ChunkCatalogEntry → Bool
chunk_precedes a b = text_leb a.chunk_id b.chunk_id

-- `chunk_id IN (…)`.
unfoldable pub is_among : List String → String → Bool
is_among [] k = false
is_among (x ∷ xs) k = x == k || is_among xs k

abbrev pub no_ids : Option (List String) → Bool
no_ids (some []) = true
no_ids _ = false

unfoldable pub list_chunks :
    Option String
    → Option String
    → Option String
    → Option SourceType
    → Option (List String)
    → Library
    → List ChunkCatalogEntry
unfolding is_among
list_chunks source_id version_id domain_key source_type chunk_ids lib =
    if no_ids chunk_ids
    then []
    else order_by chunk_precedes (
        select_all
          (λ (c : ChunkCatalogEntry).
            given source_id (λ x. c.source_id == x)
            && given version_id (λ x. c.version_id == x)
            && given domain_key (λ x. c.domain_key == x)
            && given source_type (λ x. same_type c.source_type x)
            && given chunk_ids (λ ids. is_among ids c.chunk_id))
          lib.chunks)

unfoldable pub upsert_chunk : ChunkCatalogEntry → ℕ → Library → Answer ChunkCatalogEntry
unfolding list_chunks
upsert_chunk c now lib =
    let lib' : Library = record lib { chunks = upserted c now lib.chunks } in
    if breaks_chunk c lib
    then (err integrity_error, lib)
    else (head_or_error (list_chunks none none none none (some (c.chunk_id ∷ [])) lib'), lib')

unfoldable pub delete_chunks : List String → Library → ℕ × Library
unfolding is_among
delete_chunks ids lib = (
  count_where (λ (c : ChunkCatalogEntry). is_among ids c.chunk_id) lib.chunks,
  record lib {
    chunks = delete_where (λ (c : ChunkCatalogEntry). is_among ids c.chunk_id) lib.chunks;
  },
)

unfoldable pub delete_chunks_for_source : String → Library → ℕ × Library
delete_chunks_for_source source_id lib = (
  count_where (chunk_of source_id) lib.chunks,
  record lib { chunks = delete_where (chunk_of source_id) lib.chunks },
)
