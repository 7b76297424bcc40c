-- ===== src/SourceSync/Worker/Keeps.antt =====
-- The worker keeps the invariant of the job queue on every ending, its exceptions included.
use its_middle_platform_agen.Catalog.Jobs.Writes.{
  fail_job-Write, requeue_job-Write, complete_job-Write, claim_next_job-Write,
}
use its_middle_platform_agen.Catalog.Jobs.Keeps.{Write-IsValid}
use its_middle_platform_agen.Catalog.Jobs.Invariant.{IsValid}
use its_middle_platform_agen.Catalog.Jobs.{
  fail_job, requeue_job, complete_job, claim_next_job, Outcome,
}
use its_middle_platform_agen.Catalog.Models.{Catalog, SyncJob}
use its_middle_platform_agen.SourceSync.Worker.{
  cancelled, done, retry_delay, raised, ok, err, reraised_cancel, processed, after_claim, after,
  Processed, settle, run_once, RunResult,
}
use its_middle_platform_agen.Prelude.{
  inr, ◌+◌, inl, leb, refl, none, Bool-cases, some, Option, String, ℕ, ◌≡◌,
}

after-db : (r : RunResult) (o : Outcome SyncJob) → (after r o).1 ≡ o.1
after-db r (ok j, db) = refl
after-db r (err e, db) = refl

settle-IsValid :
    (w : String) (job : SyncJob) (at : ℕ) (ending : Processed) (db : Catalog)
    → IsValid db
    → IsValid (settle w job at ending db).1
unfolding settle
settle-IsValid w job at done db v =
    rw (after-db processed (complete_job job.id w job.attempt at db))
      (Write-IsValid (complete_job-Write job.id w job.attempt at db) v)
settle-IsValid w job at cancelled db v =
    rw (after-db reraised_cancel (requeue_job job.id at (some w) (some job.attempt) at db))
      (Write-IsValid (requeue_job-Write job.id at (some w) (some job.attempt) at db) v)
settle-IsValid w job at (raised e) db v = elim (Bool-cases (leb job.attempt 3)) [
  | inl early ↦
      let t : ℕ = at + retry_delay job.attempt in
      rw early (
        rw (after-db processed (requeue_job job.id t (some w) (some job.attempt) at db))
          (Write-IsValid (requeue_job-Write job.id t (some w) (some job.attempt) at db) v))
  | inr late ↦ rw late (
      rw (after-db processed (fail_job job.id e w job.attempt at db))
        (Write-IsValid (fail_job-Write job.id e w job.attempt at db) v))
]

-- What the processor may do to the catalog.
abbrev pub KeepsValid : (SyncJob → Catalog → Processed × Catalog) → Type 0
KeepsValid process = (j : SyncJob) (d : Catalog) → IsValid d → IsValid (process j d).1

after_claim-IsValid :
    (w : String) (process : SyncJob → Catalog → Processed × Catalog) (at : ℕ)
    (o : Outcome (Option SyncJob))
    → KeepsValid process
    → IsValid o.1
    → IsValid (after_claim w process at o).1
after_claim-IsValid w process at (err e, db) keep v = v
after_claim-IsValid w process at (ok none, db) keep v = v
after_claim-IsValid w process at (ok (some j), db) keep v =
    settle-IsValid w j at (process j db).0 (process j db).1 (keep j db v)

-- Whatever the processor does that keeps the invariant, and however it ends, `run_once` keeps it,
-- also when the repository refuses the lease.
pub run_once-IsValid :
    (w : String) (process : SyncJob → Catalog → Processed × Catalog) (now at : ℕ) (db : Catalog)
    → KeepsValid process
    → IsValid db
    → IsValid (run_once w process now at db).1
unfolding run_once
run_once-IsValid w process now at db keep v =
    after_claim-IsValid w process at (claim_next_job w now db) keep
      (Write-IsValid (claim_next_job-Write w now db) v)
