-- ===== src/Catalog/Jobs/History.antt =====
-- Histories of the job queue: any workers call any of its methods, in any order.
use its_middle_platform_agen.Prelude.{ℕ, String, ◌≡◌, false, Option, ◌==◌}
use its_middle_platform_agen.Catalog.Models.{Catalog}
use its_middle_platform_agen.Catalog.Jobs.{
  enqueue_job, claim_next_job, delete_queued_job, complete_job, fail_job, requeue_job,
  requeue_stale_jobs,
}
use its_middle_platform_agen.Catalog.Jobs.Invariant.{IsValid}
use its_middle_platform_agen.Catalog.Jobs.Writes.{
  claim_next_job-Write, delete_queued_job-Write, enqueue_job-Write, complete_job-Write,
  fail_job-Write, requeue_job-Write, requeue_stale_jobs-Write,
}
use its_middle_platform_agen.Catalog.Jobs.Keeps.{Write-IsValid}

-- One call, of whatever result. `uuid4()` does not give the identifier `k`, which is in use.
pub data Step (k : String) (db : Catalog) : Catalog → Type 0 where
  enqueue :
      (job_id : String) (now : ℕ) (source_id kind : String) (target_commit : Option String)
      (available_at : Option ℕ)
      → (job_id == k) ≡ false
      → Step k db (enqueue_job job_id now source_id kind target_commit available_at db).1
  claim : (worker_id : String) (now : ℕ) → Step k db (claim_next_job worker_id now db).1
  cancel : (job_id : String) → Step k db (delete_queued_job job_id db).1
  complete :
      (job_id worker_id : String) (attempt now : ℕ)
      → Step k db (complete_job job_id worker_id attempt now db).1
  fail :
      (job_id error worker_id : String) (attempt now : ℕ)
      → Step k db (fail_job job_id error worker_id attempt now db).1
  requeue :
      (job_id : String) (available_at : ℕ) (worker_id : Option String) (attempt : Option ℕ)
      (now : ℕ)
      → Step k db (requeue_job job_id available_at worker_id attempt now db).1
  requeue_stale : (stale_before now : ℕ) → Step k db (requeue_stale_jobs stale_before now db).1

pub data Reach (k : String) (db : Catalog) : Catalog → Type 0 where
  here : Reach k db db
  next : {mid db' : Catalog} → Reach k db mid → Step k mid db' → Reach k db db'

Step-IsValid : {k : String} {db db' : Catalog} → Step k db db' → IsValid db → IsValid db'
Step-IsValid {db = db} (enqueue i now s kind c t other) v =
    Write-IsValid (enqueue_job-Write i now s kind c t db) v
Step-IsValid {db = db} (claim w now) v = Write-IsValid (claim_next_job-Write w now db) v
Step-IsValid {db = db} (cancel i) v = Write-IsValid (delete_queued_job-Write i db) v
Step-IsValid {db = db} (complete i w n now) v = Write-IsValid (complete_job-Write i w n now db) v
Step-IsValid {db = db} (fail i e w n now) v = Write-IsValid (fail_job-Write i e w n now db) v
Step-IsValid {db = db} (requeue i t w n now) v = Write-IsValid (requeue_job-Write i t w n now db) v
Step-IsValid {db = db} (requeue_stale stale now) v =
    Write-IsValid (requeue_stale_jobs-Write stale now db) v

-- Over SQLite, where BEGIN IMMEDIATE makes each call one step: from a valid table every history of
-- calls, failing ones included, leads to a valid table: the ids and the requests (source, kind,
-- commit) stay unique, every job has its source, a queued job has no worker, a running job has one,
-- and a job has an error exactly when it failed.
pub Reach-IsValid : {k : String} {db db' : Catalog} → Reach k db db' → IsValid db → IsValid db'
Reach-IsValid here v = v
Reach-IsValid (next r s) v = Step-IsValid s (Reach-IsValid r v)
