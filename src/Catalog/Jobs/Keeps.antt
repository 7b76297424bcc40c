-- ===== src/Catalog/Jobs/Keeps.antt =====
-- Every write of the job queue keeps the invariant of its table.
use its_middle_platform_agen.Prelude.{
  ℕ, String, ◌≡◌, refl, true, Option, none, some, [], ◌∷◌, ◌++◌, arith, eq_comm,
}
use its_middle_platform_agen.Prelude.Table.{select_one, delete_where}
use its_middle_platform_agen.Prelude.Table.Laws.{All-delete_where, All-append}
use its_middle_platform_agen.Prelude.Table.Keys.{Unique-delete_where, Unique-append}
use its_middle_platform_agen.Catalog.Models.{SyncJob, Catalog, job_by_id}
use its_middle_platform_agen.Catalog.Jobs.{existing_request, new_job, is_queued_id}
use its_middle_platform_agen.Catalog.Jobs.Writes.{
  Update, leases, finishes, requeues, releases, test_of, set_of, Write, unchanged, updated, deleted,
  inserted,
}
use its_middle_platform_agen.Catalog.Jobs.Invariant.{
  IsRow, IsValid, HasSource, by_request, request_of, id_of, existing_request-eq, by_request_comm,
  KeepsKeys, update-IsValid,
}

pub set_of-KeepsKeys : (u : Update) → KeepsKeys (set_of u)
set_of-KeepsKeys (leases k w now) = record {
  id = λ j. refl;
  request = λ j. refl;
  same_id = λ k j. refl;
  source = λ j. refl;
}
set_of-KeepsKeys (finishes k e w n now) = record {
  id = λ j. refl;
  request = λ j. refl;
  same_id = λ k j. refl;
  source = λ j. refl;
}
set_of-KeepsKeys (requeues k c t now) = record {
  id = λ j. refl;
  request = λ j. refl;
  same_id = λ k j. refl;
  source = λ j. refl;
}
set_of-KeepsKeys (releases stale now) = record {
  id = λ j. refl;
  request = λ j. refl;
  same_id = λ k j. refl;
  source = λ j. refl;
}

set_of-IsRow : (u : Update) (j : SyncJob) → test_of u j ≡ true → IsRow j → IsRow (set_of u j)
set_of-IsRow (leases k w now) j t v = ground arith
set_of-IsRow (finishes k none w n now) j t v = ground arith
set_of-IsRow (finishes k (some e) w n now) j t v = ground arith
set_of-IsRow (requeues k c t' now) j t v = ground arith
set_of-IsRow (releases stale now) j t v = ground arith

deleted-IsValid :
    (k : String) (db : Catalog)
    → IsValid db
    → IsValid (record db { jobs = delete_where (is_queued_id k) db.jobs })
deleted-IsValid k db v = record {
  ids = Unique-delete_where job_by_id id_of (is_queued_id k) db.jobs v.ids;
  requests = Unique-delete_where by_request request_of (is_queued_id k) db.jobs v.requests;
  rows = All-delete_where IsRow (is_queued_id k) db.jobs v.rows;
  owned = All-delete_where (HasSource db) (is_queued_id k) db.jobs v.owned;
}

new_job-IsRow :
    (k s kind : String) (c : Option String) (t now : ℕ) → IsRow (new_job k s kind c t now)
new_job-IsRow k s kind c t now = ground arith

inserted-IsValid :
    (j : SyncJob) (db : Catalog)
    → IsRow j
    → select_one (job_by_id j.id) db.jobs ≡ none
    → HasSource db j
    → existing_request j.source_id j.kind j.target_commit db.jobs ≡ none
    → IsValid db
    → IsValid (record db { jobs = db.jobs ++ j ∷ [] })
inserted-IsValid j db row fresh source new v = record {
  ids = Unique-append job_by_id id_of db.jobs j (λ x y. eq_comm y.id x.id) fresh v.ids;
  requests =
      Unique-append by_request request_of db.jobs j by_request_comm
        (rw (← existing_request-eq j.source_id j.kind j.target_commit db.jobs) new) v.requests;
  rows = All-append IsRow db.jobs j v.rows row;
  owned = All-append (HasSource db) db.jobs j v.owned source;
}

pub Write-IsValid :
    {i : Option String} {db db' : Catalog} → Write i db db' → IsValid db → IsValid db'
Write-IsValid unchanged v = v
Write-IsValid {db = db} (updated u) v =
    update-IsValid (test_of u) (set_of u) db (set_of-KeepsKeys u) (set_of-IsRow u) v
Write-IsValid {db = db} (deleted k) v = deleted-IsValid k db v
Write-IsValid {db = db} (inserted k s kind c t now e fresh source new) v =
    inserted-IsValid (new_job k s kind c t now) db (new_job-IsRow k s kind c t now) fresh source new
      v
