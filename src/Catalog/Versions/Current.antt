-- ===== src/Catalog/Versions/Current.antt =====
-- The current version of a source.
use its_middle_platform_agen.Prelude.Result.{ok}
use its_middle_platform_agen.Catalog.Library.{version_key}
use its_middle_platform_agen.Prelude.Table.TextKey.{has_key→eq, has_key}
use its_middle_platform_agen.Prelude.Table.{update_where, select_one, count_where}
use its_middle_platform_agen.Prelude.Table.Keys.{count_where_key, Unique}
use its_middle_platform_agen.Catalog.Versions.{
  outdated, set_version, of_source, is_other_current, is_current, set_row, update_version,
}
use its_middle_platform_agen.Catalog.Models.{SourceVersion, Catalog}
use its_middle_platform_agen.Prelude.{
  eq_refl, ◌∙◌, arith, ◌≤◌, if◌then◌else◌, List, ◌&&◌, Bool, Option, String, ℕ, ◌≡◌, some, [], ◌∷◌,
  true, refl,
}

-- The ids of the versions are distinct, and no source has two current versions.
pub record IsValid (db : Catalog) : Type 0 where
  pub ids : Unique (has_key version_key) version_key db.versions
  pub single : (s : String) → count_where (is_current s) db.versions ≤ 1

module _ (version_id s : String) (st : Option String) (md : Option String) (now : ℕ) where
  abbrev told : SourceVersion → Bool
  told v = has_key version_key version_id v && of_source s v

  promoted_row :
      (v : SourceVersion)
      → is_current s (if is_other_current s version_id v then outdated now v else v)
        ≡ (is_current s v && has_key version_key version_id v)
  promoted_row v = ground arith

  set_one :
      (v : SourceVersion)
      → is_current s
          (if has_key version_key version_id v then set_version st (some true) md now v else v)
        ≡ (if has_key version_key version_id v then of_source s v else is_current s v)
  set_one v = ground arith

  count-promoted :
      (vs : List SourceVersion)
      → count_where (is_current s) (
          update_where
            (has_key version_key version_id)
            (set_version st (some true) md now)
            (update_where (is_other_current s version_id) (outdated now) vs))
        ≡ count_where told vs
  unfolding count_where update_where
  count-promoted [] = refl
  count-promoted (v ∷ vs) = ground (arith, count-promoted vs)

  row-promoted :
      (vs : List SourceVersion) (v : SourceVersion)
      → select_one (has_key version_key version_id) vs ≡ some v
      → select_one (has_key version_key version_id) (
          update_where
            (has_key version_key version_id)
            (set_version st (some true) md now)
            (update_where (is_other_current s version_id) (outdated now) vs))
        ≡ some (set_version st (some true) md now v)
  unfolding select_one update_where
  row-promoted [] v h = absurd (ground arith)
  row-promoted (x ∷ vs) v h = ground (arith, row-promoted vs v)

-- A version that is made current is the one current version of its source: the call succeeds with
-- that row, whatever status and metadata come with it, and the source has no other current version.
pub update_version-current :
    (version_id : String) (st md : Option String) (now : ℕ) (db : Catalog) (v : SourceVersion)
    → IsValid db
    → select_one (has_key version_key version_id) db.versions ≡ some v
    → ((update_version version_id st (some true) md now db).0
        ≡ ok (set_version st (some true) md now v))
      × (count_where
            (is_current v.source_id)
            (update_version version_id st (some true) md now db).1.versions
          ≡ 1)
unfolding update_version set_row
update_version-current version_id st md now db v valid stored =
    let rows =
      update_where (has_key version_key version_id) (set_version st (some true) md now)
        (update_where (is_other_current v.source_id version_id) (outdated now) db.versions) in
    let one : count_where (is_current v.source_id) rows ≡ 1 =
      count-promoted version_id v.source_id st md now db.versions
      ∙ (count_where_key (has_key version_key) version_key (has_key→eq version_key) version_id
            (of_source v.source_id) db.versions valid.ids
          ∙ rw stored (rw (eq_refl v.source_id) refl)) in
    let found = row-promoted version_id v.source_id st md now db.versions v stored in
    rw (stored, update_version) (rw one (rw found (refl, one)))
