-- ===== src/Catalog/Library.antt =====
-- The tables of knowledge/catalog/migrations.py that hang on a source, beside those of
-- Catalog.Models, with the models of their rows (knowledge/catalog/models.py), and the deletions that
-- cascade along the foreign keys. Metadata is an opaque text.
use its_middle_platform_agen.Prelude.Table.TextKey.{has_key}
use its_middle_platform_agen.Prelude.Table.{update_where, select_all, exists_row, delete_where}
use its_middle_platform_agen.Prelude.Result.{Result}
use its_middle_platform_agen.Catalog.Models.{SourceType, CatalogError, SourceVersion, Catalog}
use its_middle_platform_agen.Prelude.{
  ◌==◌, ◌&&◌, true, if◌then◌else◌, false, Option, String, List, Bool, ℕ, none, some,
}

pub record SourceDomainRule : Type 0 where
  pub id : String
  pub source_id : String
  pub pattern : String
  pub target_domain_id : Option String
  pub shared : Bool
  pub priority : ℕ
  pub created_at : ℕ

pub record SourceFile : Type 0 where
  pub id : String
  pub source_id : String
  pub version_id : String
  pub relative_path : String
  pub domain_key : String
  pub language : Option String
  pub content_hash : String
  pub size_bytes : ℕ
  pub metadata : String
  pub created_at : ℕ

pub record CodeSymbol : Type 0 where
  pub id : String
  pub source_file_id : String
  pub symbol_type : String
  pub name : String
  pub qualified_name : Option String
  pub start_line : ℕ
  pub end_line : ℕ
  pub parent_symbol_id : Option String
  pub metadata : String
  pub created_at : ℕ

pub record ChunkCatalogEntry : Type 0 where
  pub chunk_id : String
  pub source_id : String
  pub version_id : String
  pub source_file_id : Option String
  pub source_type : SourceType
  pub domain_key : String
  pub locator : String
  pub content_hash : String
  pub metadata : String
  pub created_at : ℕ
  pub updated_at : ℕ

pub record Library : Type 0 where
  pub catalog : Catalog
  pub rules : List SourceDomainRule
  pub files : List SourceFile
  pub symbols : List CodeSymbol
  pub chunks : List ChunkCatalogEntry

-- A method's result beside the database.
abbrev pub Answer : Type 0 → Type 0
Answer A = Result {0, 0} CatalogError A × Library

abbrev pub version_key : SourceVersion → String
version_key v = v.id

abbrev pub file_key : SourceFile → String
file_key f = f.id

abbrev pub symbol_key : CodeSymbol → String
symbol_key s = s.id

abbrev pub chunk_key : ChunkCatalogEntry → String
chunk_key c = c.chunk_id

-- `parent_symbol_id … ON DELETE SET NULL`, where `gone` holds the deleted symbols.
abbrev pub without_parent : List CodeSymbol → CodeSymbol → CodeSymbol
without_parent gone s = elim s.parent_symbol_id [
  | none ↦ s
  | some p ↦
      if exists_row (has_key symbol_key p) gone then record s { parent_symbol_id = none } else s
]

abbrev pub always : CodeSymbol → Bool
always s = true

abbrev pub of_files : List SourceFile → CodeSymbol → Bool
of_files gone s = exists_row (has_key file_key s.source_file_id) gone

abbrev pub delete_symbols : List SourceFile → List CodeSymbol → List CodeSymbol
delete_symbols gone symbols =
    let lost = select_all (of_files gone) symbols in
    update_where always (without_parent lost) (delete_where (of_files gone) symbols)

-- `FOREIGN KEY(source_file_id, source_id)`, which a NULL does not bind.
abbrev pub chunk_of_files : List SourceFile → ChunkCatalogEntry → Bool
chunk_of_files gone c = elim c.source_file_id [
  | none ↦ false
  | some f ↦
      exists_row (λ (x : SourceFile). has_key file_key f x && x.source_id == c.source_id) gone
]

unfoldable pub delete_files : (SourceFile → Bool) → Library → Library
delete_files test lib =
    let gone = select_all test lib.files in
    record lib {
      files = delete_where test lib.files;
      symbols = delete_symbols gone lib.symbols;
      chunks = delete_where (chunk_of_files gone) lib.chunks;
    }

-- `FOREIGN KEY(version_id, source_id)`.
abbrev pub of_version : List SourceVersion → String → String → Bool
of_version gone version_id source_id =
    exists_row (λ (v : SourceVersion). has_key version_key version_id v && v.source_id == source_id)
      gone

abbrev pub without_versions : (SourceVersion → Bool) → Library → Library
without_versions test lib = record lib {
  catalog = record lib.catalog { versions = delete_where test lib.catalog.versions };
  chunks =
      delete_where
        (λ (c : ChunkCatalogEntry).
          of_version (select_all test lib.catalog.versions) c.version_id c.source_id)
        lib.chunks;
}

unfoldable pub delete_versions : (SourceVersion → Bool) → Library → Library
unfolding delete_files
delete_versions test lib =
    delete_files
      (λ (f : SourceFile).
        of_version (select_all test lib.catalog.versions) f.version_id f.source_id)
      (without_versions test lib)
