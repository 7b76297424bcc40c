-- ===== src/SourceSync/Worker/Retries.antt =====
-- The retry schedule of a job: three retries after 5, 30 and 120 seconds, then failure, after which
-- an administrator may retry it.
use mathlib.Core.Path.{subst}
use its_middle_platform_agen.Prelude.Result.{Result}
use its_middle_platform_agen.Catalog.Jobs.Claims.{Claims}
use its_middle_platform_agen.Prelude.Strip.{strip, is_empty}
use its_middle_platform_agen.Catalog.Jobs.Finishing.{
  retry_failed-Stores, fail_job-Stores, requeue_job-Stores, complete_job-Stores, Stores,
}
use its_middle_platform_agen.Catalog.Jobs.Leases.{row}
use its_middle_platform_agen.Catalog.Jobs.Invariant.{IsValid}
use its_middle_platform_agen.Catalog.Jobs.{
  requeue_condition, claim_next_job, lease, fail_job, requeue_job, complete_job, requeue,
  holds_lease, Outcome, finish,
}
use its_middle_platform_agen.Catalog.Models.{
  CatalogError, queued, is_queued, failed, is_running, succeeded, Catalog, SyncJob,
}
use its_middle_platform_agen.SourceSync.Worker.{
  process_and_settle, after_claim, run_once, err, ok, retry_delay, cancelled, done, raised, settle,
  after, reraised_cancel, processed, RunResult, Processed,
}
use its_middle_platform_agen.Prelude.{
  ◌⊎◌, sym, ◌≤◌, ◌∙◌, suc, eq_refl, ap, Option, refl, arith, inr, inl, ◌+◌, leb, Bool-cases, false,
  eqb, ◌||◌, true, ◌==◌, some, none, if◌then◌else◌, String, ℕ, ◌≡◌,
}

-- The row that a worker leaves for the job that it ran.
abbrev pub settled_job : ℕ → Processed → SyncJob → SyncJob
settled_job at done j = finish succeeded none at j
settled_job at cancelled j = requeue at at j
settled_job at (raised e) j =
    if leb j.attempt 3
    then requeue (at + retry_delay j.attempt) at j
    else finish failed (some e) at j

abbrev pub ran : Processed → RunResult
ran done = processed
ran cancelled = reraised_cancel
ran (raised e) = processed

pub record Settles (at : ℕ) (ending : Processed) (job : SyncJob) (db : Catalog)
    (out : RunResult × Catalog) : Type 0 where
  pub result : out.0 ≡ ran ending
  pub rows :
      (i : String)
      → row i out.1 ≡ (if i == job.id then some (settled_job at ending job) else row i db)

-- The worker goes on when the repository stored the row.
Stores-after :
    (r : RunResult) (k : String) (j' : SyncJob) (db : Catalog) (out : Outcome SyncJob)
    → Stores k j' db out
    → ((after r out).0 ≡ r)
      × ((i : String) → row i (after r out).1 ≡ (if i == k then some j' else row i db))
Stores-after r k j' db (ok j, db') s = (refl, s.rows)
Stores-after r k j' db (err e, db') s = absurd (ground (arith, s.result))

stored-Settles :
    (at : ℕ) (ending : Processed) (job : SyncJob) (db : Catalog) (out : Outcome SyncJob)
    → Stores job.id (settled_job at ending job) db out
    → Settles at ending job db (after (ran ending) out)
stored-Settles at ending job db out s =
    let (result, rows) = Stores-after (ran ending) job.id (settled_job at ending job) db out s in
    record { result = result; rows = rows }

module _ (w : String) (at : ℕ) (job : SyncJob) (db : Catalog) (v : IsValid db)
    (stored : row job.id db ≡ some job) (held : holds_lease is_running w job.attempt job ≡ true)
    (named : (is_empty (strip w) || eqb job.attempt 0) ≡ false) where
  settle_raised : (e : String) → Settles at (raised e) job db (settle w job at (raised e) db)
  unfolding settle
  settle_raised e = elim (Bool-cases (leb job.attempt 3)) [
    | inl early ↦
        let t : ℕ = at + retry_delay job.attempt in
        let (result, rows) =
          Stores-after processed job.id (requeue t at job) db
            (requeue_job job.id t (some w) (some job.attempt) at db)
            (requeue_job-Stores job.id w job.attempt t at db job v stored held named) in
        record { result = rw early result; rows = λ i. rw early (rows i) }
    | inr late ↦
        let (result, rows) =
          Stores-after processed job.id (finish failed (some e) at job) db
            (fail_job job.id e w job.attempt at db)
            (fail_job-Stores job.id e w job.attempt at db job v stored held named) in
        record { result = rw late result; rows = λ i. rw late (rows i) }
  ]

  -- A worker whose job still holds its lease in the table after processing: the job succeeds, is
  -- queued again at once when the worker is cancelled, is queued again after the delay of its
  -- attempt when processing raises on attempt 1, 2 or 3, and else fails with the error's type.
  -- No other row changes.
  pub settle-Settles : (ending : Processed) → Settles at ending job db (settle w job at ending db)
  unfolding settle
  settle-Settles done =
      stored-Settles at done job db (complete_job job.id w job.attempt at db)
        (complete_job-Stores job.id w job.attempt at db job v stored held named)
  settle-Settles cancelled =
      stored-Settles at cancelled job db (requeue_job job.id at (some w) (some job.attempt) at db)
        (requeue_job-Stores job.id w job.attempt at at db job v stored held named)
  settle-Settles (raised e) = settle_raised e

-- A run of a worker whose id is stripped, on a job that `claim_next_job` gives it, where the row of
-- the job is the leased one after processing.
pub record Runs (w : String) (process : SyncJob → Catalog → Processed × Catalog) (now : ℕ)
    (db : Catalog) (j : SyncJob) : Type 0 where
  pub valid : IsValid db
  pub stripped : strip w ≡ w
  pub named : is_empty w ≡ false
  pub claims : Claims w now db j
  pub processed_valid : IsValid (process (lease w now j) (claim_next_job w now db).1).1
  pub kept : row j.id (process (lease w now j) (claim_next_job w now db).1).1 ≡ some (lease w now j)

after_claim-some :
    (w : String) (process : SyncJob → Catalog → Processed × Catalog) (at : ℕ)
    (o : Outcome (Option SyncJob)) (job : SyncJob)
    → o.0 ≡ ok (some job)
    → after_claim w process at o ≡ process_and_settle w process at job o.1
after_claim-some w process at (err e, db) job h = absurd (ground arith)
after_claim-some w process at (ok none, db) job h = absurd (ground arith)
after_claim-some w process at (ok (some x), db) job h = let e : x ≡ job = ground arith in rw e refl

lease_named :
    (w : String) (n : ℕ)
    → strip w ≡ w
    → is_empty w ≡ false
    → (is_empty (strip w) || eqb (n + 1) 0) ≡ false
lease_named w n stripped named = rw stripped (rw named (ground arith))

pub run_once-Settles :
    (w : String) (process : SyncJob → Catalog → Processed × Catalog) (now at : ℕ) (db : Catalog)
    (j : SyncJob)
    → Runs w process now db j
    → let (ending, db') = process (lease w now j) (claim_next_job w now db).1 in
      Settles at ending (lease w now j) db' (run_once w process now at db)
unfolding run_once
run_once-Settles w process now at db j r =
    let job = lease w now j in
    let given : (claim_next_job w now db).0 ≡ ok (some job) =
      r.claims.result
      ∙ ap {B = Result CatalogError (Option SyncJob)} (λ x. ok (some (lease x now j))) r.stripped in
    rw (after_claim-some w process at (claim_next_job w now db) job given) (
      settle-Settles w at job (process job (claim_next_job w now db).1).1 r.processed_valid r.kept
        (rw (eq_refl w) (ground arith)) (lease_named w j.attempt r.stripped r.named)
        (process job (claim_next_job w now db).1).0)

-- A history of the job `k`, counting runs and retries: runs of any workers whose processing raises,
-- calls of `requeue_job` without a lease, as `admin_retry_job` (knowledge/api/app.py) makes them, and
-- any other change of the catalog that leaves its row and the invariant.
pub data Failures (k : String) (db : Catalog) : ℕ → ℕ → Catalog → Type 0 where
  start : Failures k db 0 0 db
  other :
      {n r : ℕ} {mid db' : Catalog}
      → Failures k db n r mid
      → IsValid db'
      → row k db' ≡ row k mid
      → Failures k db n r db'
  fails :
      {n r : ℕ} {mid db' : Catalog} (w e : String) (now at : ℕ) (j : SyncJob)
      → Failures k db n r mid
      → j.id ≡ k
      → Runs w (λ _ d. (raised e, d)) now mid j
      → IsValid db'
      → db' ≡ (run_once w (λ _ d. (raised e, d)) now at mid).1
      → Failures k db (suc n) r db'
  retries :
      {n r : ℕ} {mid db' : Catalog} (t now : ℕ)
      → Failures k db n r mid
      → IsValid mid
      → db' ≡ (requeue_job k t none none now mid).1
      → Failures k db n (suc r) db'

-- What the row shows after `n` failed runs and `r` retries: it waits, or it is failed.
abbrev pub FailedTimes : ℕ → ℕ → SyncJob → Type 0
FailedTimes n r j =
    (j.attempt ≡ n)
    × ((j.state ≡ queued) × (n ≤ 3 + r) ⊎ (j.state ≡ failed) × (4 ≤ n) × (n ≤ 4 + r))

failed_once :
    (n r at now : ℕ) (w e : String) (j : SyncJob)
    → is_queued j.state ≡ true
    → FailedTimes n r j
    → FailedTimes (suc n) r (settled_job at (raised e) (lease w now j))
failed_once n r at now w e j waits (attempt, inr (failed', low, h)) = absurd (ground arith)
failed_once n r at now w e j waits (attempt, inl (queued', h)) =
    elim (Bool-cases (leb (j.attempt + 1) 3)) [
      | inl early ↦ rw early (ground arith, inl (refl, ground arith))
      | inr late ↦ rw late (ground arith, inr (refl, ground arith, ground arith))
    ]

-- A retry of a job that waits is a conflict.
waiting_refused :
    (k : String) (t now : ℕ) (db : Catalog) (j : SyncJob)
    → row k db ≡ some j
    → j.state ≡ queued
    → (requeue_job k t none none now db).1 ≡ db
unfolding requeue_job requeue_condition
waiting_refused k t now db j stored waits = rw (stored, requeue_job) (rw waits refl)

retried :
    (k : String) (n r t now : ℕ) (db : Catalog) (j : SyncJob)
    → IsValid db
    → row k db ≡ some j
    → FailedTimes n r j
    → (j' : SyncJob) × (row k (requeue_job k t none none now db).1 ≡ some j')
      × FailedTimes n (suc r) j'
retried k n r t now db j v stored (attempt, inl (waits, h)) =
    (j, rw (waiting_refused k t now db j stored waits) stored, (attempt, inl (waits, omega arith)))
retried k n r t now db j v stored (attempt, inr (failed', low, h)) = (
  requeue t now j,
  (retry_failed-Stores k t now db j v stored failed').rows k ∙ rw (eq_refl k) refl,
  (attempt, inl (refl, omega arith)),
)

failing_row :
    (w k e : String) (now at : ℕ) (db : Catalog) (j : SyncJob)
    → j.id ≡ k
    → Runs w (λ _ d. (raised e, d)) now db j
    → row k (run_once w (λ _ d. (raised e, d)) now at db).1
      ≡ some (settled_job at (raised e) (lease w now j))
failing_row w k e now at db j same r =
    rw (← same)
      ((run_once-Settles w (λ _ d. (raised e, d)) now at db j r).rows j.id ∙ rw (eq_refl j.id) refl)

-- However many workers run a queued job without attempts whose processing always raises, as long as
-- the job's row is else changed by retries of an administrator alone: after `n` failed runs and `r`
-- retries the row shows `n` attempts, and it waits, where `n` is at most `3 + r`, or it is failed,
-- where `n` is at least 4 and at most `4 + r`. So without retries it waits after each of the first
-- three failures and is failed after the fourth, its last, and each retry admits one run more at
-- most.
pub Failures-bounded :
    (k : String) (db : Catalog) (j : SyncJob)
    → row k db ≡ some j
    → j.attempt ≡ 0
    → j.state ≡ queued
    → {n r : ℕ} {db' : Catalog} → Failures k db n r db'
    → (j' : SyncJob) × (row k db' ≡ some j') × FailedTimes n r j'
Failures-bounded k db j stored fresh waits start = (j, stored, (fresh, inl (waits, omega arith)))
Failures-bounded k db j stored fresh waits (other f v same) =
    let (j', stored', times) = Failures-bounded k db j stored fresh waits f in
    (j', same ∙ stored', times)
Failures-bounded k db j stored fresh waits
      (fails {n = n} {r = r'} {mid = mid} w e now at i f same r v step) =
    let (j', stored', times) = Failures-bounded k db j stored fresh waits f in
    let found : row k mid ≡ some i = rw (← same) r.claims.stored in
    let both : some i ≡ some j' = sym found ∙ stored' in
    let same_job : j' ≡ i = ground arith in
    let queued_now : is_queued i.state ≡ true = ground (arith, r.claims.due) in
    (
      settled_job at (raised e) (lease w now i),
      rw step (failing_row w k e now at mid i same r),
      failed_once n r' at now w e i queued_now (subst (FailedTimes n r') same_job times),
    )
Failures-bounded k db j stored fresh waits (retries {n = n} {r = r'} {mid = mid} t now f v step) =
    let (j', stored', times) = Failures-bounded k db j stored fresh waits f in
    rw step (retried k n r' t now mid j' v stored' times)
