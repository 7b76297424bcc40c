-- ===== src/Auth/Merging/JobRows.antt =====
-- The row of a merge job under the updates of a merge.
use its_middle_platform_agen.Prelude.Result.{ok}
use its_middle_platform_agen.Prelude.Table.TextKey.{has_key}
use its_middle_platform_agen.Prelude.Table.{update_where, select_one}
use its_middle_platform_agen.Prelude.Table.Keys.{Unique-append, select_one-update_where, Unique}
use its_middle_platform_agen.Auth.MergeJobs.{
  new_merge_job, merge_updated, merge_key, is_pair, is_status, IdentityMergeJob, update_merge_job,
  insert_or_ignore, get_or_create_merge_job,
}
use its_middle_platform_agen.Prelude.{
  is_some-none, eq_comm, ◌∙◌, eq_refl, arith, ◌||◌, ◌&&◌, not, is_some, Bool-cases, Option, Bool,
  String, List, ℕ, ◌≡◌, some, true, false, inl, inr, refl,
}

abbrev pub AreJobs : List IdentityMergeJob → Type 0
AreJobs rows = Unique (has_key merge_key) merge_key rows

insert-AreJobs :
    (j : IdentityMergeJob) (rows : List IdentityMergeJob)
    → AreJobs rows
    → AreJobs (insert_or_ignore j rows)
unfolding insert_or_ignore
insert-AreJobs j rows u =
    let known = is_some (select_one (has_key merge_key j.id) rows) in
    let paired = is_some (select_one (is_pair j.source_anonymous_owner_id j.target_open_id) rows) in
    elim (Bool-cases (known || paired)) [
      | inl there ↦ rw there u
      | inr new ↦
          let free : known ≡ false = ground arith in
          rw new (
            Unique-append (has_key merge_key) merge_key rows j (λ x y. eq_comm y.id x.id)
              (is_some-none (select_one (has_key merge_key j.id) rows) free) u)
    ]

pub get_or_create-AreJobs :
    (has_owners : String → String → Bool) (i s t : String) (now : ℕ) (rows : List IdentityMergeJob)
    → AreJobs rows
    → AreJobs (get_or_create_merge_job has_owners i s t now rows).1
unfolding get_or_create_merge_job
get_or_create-AreJobs has_owners i s t now rows u =
    elim (Bool-cases (
      not (has_owners s t)
      && not (is_some (select_one (has_key merge_key i) rows))
      && not (is_some (select_one (is_pair s t) rows)))) [
        | inl bad ↦ rw bad u
        | inr good ↦ rw good (insert-AreJobs (new_merge_job i s t now) rows u)
      ]

-- A job that is there is written and returned.
pub update_there :
    (status result : String) (e : Option String) (now : ℕ) (rows : List IdentityMergeJob)
    (j : IdentityMergeJob)
    → is_status status ≡ true
    → select_one (has_key merge_key j.id) rows ≡ some j
    → update_merge_job j.id status result e now rows ≡ (
      ok (merge_updated status result e now j),
      update_where (has_key merge_key j.id) (merge_updated status result e now) rows,
    )
unfolding update_merge_job
update_there status result e now rows j known there = rw known (
    rw
      (select_one-update_where (has_key merge_key) j.id (has_key merge_key j.id)
        (merge_updated status result e now) rows (λ r. refl))
      (rw there (rw (eq_refl j.id) refl)))

pub pair_there :
    (s t status result : String) (e : Option String) (now : ℕ) (rows : List IdentityMergeJob)
    (j : IdentityMergeJob)
    → select_one (is_pair s t) rows ≡ some j
    → select_one
        (is_pair s t)
        (update_where (has_key merge_key j.id) (merge_updated status result e now) rows)
      ≡ some (merge_updated status result e now j)
pair_there s t status result e now rows j there =
    select_one-update_where (λ (k : String) (r : IdentityMergeJob). is_pair k t r) s
      (has_key merge_key j.id) (merge_updated status result e now) rows (λ r. refl)
    ∙ rw there (rw (eq_refl j.id) refl)
