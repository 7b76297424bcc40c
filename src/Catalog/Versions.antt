-- ===== src/Catalog/Versions.antt =====
-- The methods of `CatalogRepository` (knowledge/catalog/repository.py) on `source_versions`. `now` is
-- the value of `_utc_now()`. The constraints are those of the SQLite migrations, whose partial unique
-- index admits one current version of a source; the PostgreSQL schema has no such constraint.
pub mod Current
use its_middle_platform_agen.Prelude.Table.TextKey.{has_key}
use its_middle_platform_agen.Prelude.Table.{
  select_one, select_all, count_where, update_where, order_by,
}
use its_middle_platform_agen.Catalog.Jobs.{Outcome}
use its_middle_platform_agen.Prelude.Result.{ok, err, Result}
use its_middle_platform_agen.Catalog.Library.{version_key, Library, delete_versions}
use its_middle_platform_agen.Prelude.{
  text_leb, ltb, ◌||◌, ◌++◌, true, not, if◌then◌else◌, is_some, eqb, ◌==◌, ◌&&◌, false, Bool,
  String, Option, List, ℕ, none, some, [], ◌∷◌,
}
use its_middle_platform_agen.Catalog.Models.{
  source_by_id, CatalogError, Catalog, SourceVersion, integrity_error, not_found, type_error,
}

abbrev pub of_source : String → SourceVersion → Bool
of_source source_id v = v.source_id == source_id

abbrev pub is_current : String → SourceVersion → Bool
is_current source_id v = v.current && of_source source_id v

abbrev pub outdated : ℕ → SourceVersion → SourceVersion
outdated now v = record v { current = false; updated_at = now }

abbrev pub same_ref : String → String → SourceVersion → Bool
same_ref source_id version_ref v = of_source source_id v && v.version_ref == version_ref

-- What the constraints of the table refuse of a new row, the partial unique index among them.
abbrev pub breaks_version : SourceVersion → Catalog → List SourceVersion → Bool
breaks_version v db versions =
    is_some (select_one (has_key version_key v.id) versions)
    || is_some (select_one (same_ref v.source_id v.version_ref) versions)
    || not (is_some (select_one (source_by_id v.source_id) db.sources))
    || (v.current && is_some (select_one (is_current v.source_id) versions))

-- `ORDER BY current DESC, created_at DESC, id`.
abbrev pub version_precedes : SourceVersion → SourceVersion → Bool
version_precedes a b =
    (a.current && not b.current)
    || (not (b.current && not a.current)
        && (ltb b.created_at a.created_at || (eqb a.created_at b.created_at && text_leb a.id b.id)))

abbrev pub version_test : String → Option String → SourceVersion → Bool
version_test source_id version_id v =
    of_source source_id v && (elim version_id [ none ↦ true | some i ↦ v.id == i ])

unfoldable pub list_versions : String → Option String → Catalog → List SourceVersion
list_versions source_id version_id db =
    order_by version_precedes (select_all (version_test source_id version_id) db.versions)

-- `rows[0]`, which raises on an empty list.
abbrev pub first_of : List SourceVersion → Result {0, 0} CatalogError SourceVersion
first_of [] = err type_error
first_of (v ∷ vs) = ok v

-- `v` holds the arguments of the call.
unfoldable pub create_version : SourceVersion → ℕ → Catalog → Outcome SourceVersion
unfolding list_versions
create_version v now db =
    let cleared =
      if v.current
      then update_where (of_source v.source_id) (outdated now) db.versions
      else db.versions in
    let stored : SourceVersion = record v { created_at = now; updated_at = now } in
    let db' : Catalog = record db { versions = cleared ++ stored ∷ [] } in
    if breaks_version v db cleared
    then (err integrity_error, db)
    else (first_of (list_versions v.source_id (some v.id) db'), db')

abbrev pub or_else {ℓ} : {A : Type ℓ} → Option A → A → A
or_else none a = a
or_else (some x) a = x

abbrev pub set_version :
    Option String → Option Bool → Option String → ℕ → SourceVersion → SourceVersion
set_version status current metadata now v = record v {
  status = or_else status v.status;
  current = or_else current v.current;
  metadata = or_else metadata v.metadata;
  updated_at = now;
}

-- The first `UPDATE`, which is sent for `current is True` alone.
abbrev pub is_other_current : String → String → SourceVersion → Bool
is_other_current source_id version_id v = is_current source_id v && not (v.id == version_id)

abbrev pub make_room : Option Bool → String → String → ℕ → List SourceVersion → List SourceVersion
make_room (some true) source_id version_id now versions =
    update_where (is_other_current source_id version_id) (outdated now) versions
make_room _ source_id version_id now versions = versions

abbrev pub version_result : Option SourceVersion → Result {0, 0} CatalogError SourceVersion
version_result none = err type_error
version_result (some v) = ok v

-- The partial unique index holds after the statement when no other version of the source is current.
unfoldable pub set_row :
    String
    → String
    → Option String
    → Option Bool
    → Option String
    → ℕ
    → Catalog
    → Outcome SourceVersion
set_row source_id version_id status current metadata now db =
    let room = make_room current source_id version_id now db.versions in
    let versions' =
      update_where (has_key version_key version_id) (set_version status current metadata now)
        room in
    if ltb 1 (count_where (is_current source_id) versions') then (err integrity_error, db) else (
      version_result (select_one (has_key version_key version_id) versions'),
      record db { versions = versions' },
    )

unfoldable pub update_version :
    String → Option String → Option Bool → Option String → ℕ → Catalog → Outcome SourceVersion
unfolding set_row
update_version version_id status current metadata now db =
    elim (select_one (has_key version_key version_id) db.versions) [
      | none ↦ (err not_found, db)
      | some v ↦ set_row v.source_id version_id status current metadata now db
    ]

unfoldable pub delete_version : String → Library → Bool × Library
unfolding delete_versions
delete_version version_id lib = (
  eqb (count_where (has_key version_key version_id) lib.catalog.versions) 1,
  delete_versions (has_key version_key version_id) lib,
)
