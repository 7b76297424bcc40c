-- ===== src/SourceSync/Worker.antt =====
-- `SourceSyncWorker.run_once` (knowledge/source_sync/worker.py). What the processor does, and what
-- other workers do to the catalog meanwhile, is a parameter; so are the two readings of the clock.
pub mod Keeps
pub mod Retries
use its_middle_platform_agen.Prelude.{
  ℕ, zero, suc, ◌+◌, ◌-◌, ◌*◌, String, Option, none, some, List, [], ◌∷◌, leb, length,
  if◌then◌else◌,
}
use its_middle_platform_agen.Prelude.Result.{Result, ok, err}
use its_middle_platform_agen.Catalog.Models.{CatalogError, SyncJob, Catalog}
use its_middle_platform_agen.Catalog.Jobs.{
  Outcome, claim_next_job, complete_job, fail_job, requeue_job,
}

-- How `processor.process(job)` ends: it returns, is cancelled, or raises an error of some type.
pub data Processed : Type 0 where
  done cancelled : Processed
  raised : String → Processed

-- How `run_once` ends: it returns whether it ran a job, or raises again.
pub data RunResult : Type 0 where
  idle processed reraised_cancel : RunResult
  catalog_raised : CatalogError → RunResult

-- Timestamps are microseconds.
abbrev pub second : ℕ
second = 1000000

-- `_RETRY_DELAYS_SECONDS`.
abbrev pub retry_delays : List ℕ
retry_delays = 5 ∷ 30 ∷ 120 ∷ []

abbrev get_or : List ℕ → ℕ → ℕ → ℕ
get_or [] i d = d
get_or (x ∷ xs) zero d = x
get_or (x ∷ xs) (suc i) d = get_or xs i d

-- `_RETRY_DELAYS_SECONDS[job.attempt - 1]`, asked for attempts 1 to 3 alone.
unfoldable pub retry_delay : ℕ → ℕ
retry_delay attempt = get_or retry_delays (attempt - 1) 0 * second

-- The method returns `result` unless the repository raised.
abbrev pub after : RunResult → Outcome SyncJob → RunResult × Catalog
after result (ok j, db) = (result, db)
after result (err e, db) = (catalog_raised e, db)

-- The handlers after `process`: the lease is the one that `job` shows.
unfoldable pub settle : String → SyncJob → ℕ → Processed → Catalog → RunResult × Catalog
unfolding retry_delay
settle worker_id job at done db = after processed (complete_job job.id worker_id job.attempt at db)
settle worker_id job at cancelled db =
    after reraised_cancel (requeue_job job.id at (some worker_id) (some job.attempt) at db)
settle worker_id job at (raised error_type) db =
    if leb job.attempt (length retry_delays)
    then after processed (
        requeue_job job.id (at + retry_delay job.attempt) (some worker_id) (some job.attempt) at db)
    else after processed (fail_job job.id error_type worker_id job.attempt at db)

abbrev pub process_and_settle :
    String → (SyncJob → Catalog → Processed × Catalog) → ℕ → SyncJob → Catalog → RunResult × Catalog
process_and_settle worker_id process at job db =
    let (ending, db') = process job db in settle worker_id job at ending db'

abbrev pub after_claim :
    String
    → (SyncJob → Catalog → Processed × Catalog)
    → ℕ
    → Outcome (Option SyncJob)
    → RunResult × Catalog
after_claim worker_id process at (err e, db) = (catalog_raised e, db)
after_claim worker_id process at (ok none, db) = (idle, db)
after_claim worker_id process at (ok (some job), db) =
    process_and_settle worker_id process at job db

-- `worker_id` is stripped by the constructor of the worker.
unfoldable pub run_once :
    String → (SyncJob → Catalog → Processed × Catalog) → ℕ → ℕ → Catalog → RunResult × Catalog
unfolding settle
run_once worker_id process claimed_at settled_at db =
    after_claim worker_id process settled_at (claim_next_job worker_id claimed_at db)
