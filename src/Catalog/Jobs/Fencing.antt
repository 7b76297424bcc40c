-- ===== src/Catalog/Jobs/Fencing.antt =====
-- A worker that lost its lease cannot finish, fail or requeue the job, however long it was away.
use its_middle_platform_agen.Catalog.Jobs.Writes.{
  requeue_stale_jobs-Write, releases, claim_next_job-Write,
}
use its_middle_platform_agen.Catalog.Jobs.Keeps.{Write-IsValid}
use its_middle_platform_agen.Catalog.Jobs.History.{Reach-IsValid, Reach}
use its_middle_platform_agen.Catalog.Jobs.Claims.{Claims}
use its_middle_platform_agen.Catalog.Jobs.Leases.{
  Reach-is_over, over-IsRejected, row-updated, is_over, IsRejected, row,
}
use its_middle_platform_agen.Catalog.Jobs.Invariant.{IsValid}
use its_middle_platform_agen.Catalog.Models.{SyncJob, Catalog}
use its_middle_platform_agen.Catalog.Jobs.{claim_next_job, is_stale, requeue_stale_jobs}
use its_middle_platform_agen.Prelude.{eq_refl, arith, true, some, String, ℕ, ◌≡◌}

swept :
    (k : String) (n stale now : ℕ) (db : Catalog) (j : SyncJob)
    → row k db ≡ some j
    → is_stale stale j ≡ true
    → j.attempt ≡ n
    → is_over n (row k (requeue_stale_jobs stale now db).1) ≡ true
unfolding requeue_stale_jobs
swept k n stale now db j stored old held =
    rw (row-updated k (releases stale now) db) (rw stored (ground (arith, old)))

-- A job runs under attempt `n` and its lease is stale. Once the stale jobs are requeued, whatever
-- calls follow, a late completion, failure or retry under attempt `n` is refused and changes
-- nothing: it cannot end the attempt of the worker that claimed the job after it.
pub stale_lease-IsRejected :
    (k w : String) (n stale now : ℕ) (db db' : Catalog) (j : SyncJob)
    → IsValid db
    → row k db ≡ some j
    → is_stale stale j ≡ true
    → j.attempt ≡ n
    → Reach k (requeue_stale_jobs stale now db).1 db'
    → IsRejected k w n db'
stale_lease-IsRejected k w n stale now db db' j v stored old held r =
    let v' = Write-IsValid (requeue_stale_jobs-Write stale now db) v in
    over-IsRejected k w n db' (Reach-IsValid r v')
      (Reach-is_over n v' r (swept k n stale now db j stored old held))

-- A job that is claimed anew: the lease of its last attempt is refused from then on.
pub reclaimed-IsRejected :
    (k w w' : String) (n now : ℕ) (db db' : Catalog) (j : SyncJob)
    → IsValid db
    → Claims w' now db j
    → j.id ≡ k
    → j.attempt ≡ n
    → Reach k (claim_next_job w' now db).1 db'
    → IsRejected k w n db'
reclaimed-IsRejected k w w' n now db db' j v c same held r =
    let v' = Write-IsValid (claim_next_job-Write w' now db) v in
    let taken : is_over n (row k (claim_next_job w' now db).1) ≡ true =
      rw (c.rows k) (rw same (rw (eq_refl k) (ground arith))) in
    over-IsRejected k w n db' (Reach-IsValid r v') (Reach-is_over n v' r taken)
