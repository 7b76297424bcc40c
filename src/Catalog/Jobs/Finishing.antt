-- ===== src/Catalog/Jobs/Finishing.antt =====
-- What the holder of a lease gets: the job is finished or queued again, and no other row changes.
use its_middle_platform_agen.Prelude.Table.TextKey.{count-keyed_self, select_one-keyed_update}
use its_middle_platform_agen.Prelude.Table.{update_where, count_where}
use its_middle_platform_agen.Prelude.Strip.{strip, is_empty}
use its_middle_platform_agen.Catalog.Jobs.Leases.{row}
use its_middle_platform_agen.Prelude.Result.{ok}
use its_middle_platform_agen.Catalog.Jobs.Invariant.{id_of, IsValid}
use its_middle_platform_agen.Catalog.Models.{
  succeeded, running, queued, is_failed, job_by_id, failed, is_running, SyncJobState, SyncJob,
  Catalog,
}
use its_middle_platform_agen.Catalog.Jobs.{
  finish, requeue, holds_lease, get_job, Outcome, requeue_where, requeue_job, requeue_condition,
  finish_job, fail_job, complete_job,
}
use its_middle_platform_agen.Prelude.{
  ◌∙◌, arith, refl, false, eqb, ◌&&◌, ◌||◌, none, eq_refl, ◌==◌, some, if◌then◌else◌, true, Option,
  Bool, String, ℕ, ◌≡◌,
}

-- The outcome of a write of one row: `set j` is returned and stored under the id `k`.
pub record Stores (k : String) (j' : SyncJob) (db : Catalog) (out : Outcome SyncJob) : Type 0 where
  pub result : out.0 ≡ ok j'
  pub rows : (i : String) → row i out.1 ≡ (if i == k then some j' else row i db)

get_job-row : (k : String) (db : Catalog) (j : SyncJob) → row k db ≡ some j → get_job k db ≡ ok j
unfolding get_job
get_job-row k db j stored = rw (stored, get_job) refl

module _ (k : String) (db : Catalog) (j : SyncJob) (v : IsValid db) (stored : row k db ≡ some j)
    (p : SyncJob → Bool) (set : SyncJob → SyncJob) (keep : (x : SyncJob) → (set x).id ≡ x.id)
    (meets : p j ≡ true) where
  abbrev db_after : Catalog
  db_after = record db { jobs = update_where (λ r. job_by_id k r && p r) set db.jobs }

  rows_after : (i : String) → row i db_after ≡ (if i == k then some (set j) else row i db)
  rows_after i = select_one-keyed_update id_of k p set i db.jobs j keep stored meets

  one_after : count_where (λ r. job_by_id k r && p r) db.jobs ≡ 1
  one_after = count-keyed_self id_of k p set db.jobs j v.ids stored meets

  get_after : get_job k db_after ≡ ok (set j)
  get_after = get_job-row k db_after (set j) (rows_after k ∙ rw (eq_refl k) refl)

finish_job-Stores :
    (k w : String) (n now : ℕ) (s : SyncJobState) (e : Option String) (db : Catalog) (j : SyncJob)
    → IsValid db
    → row k db ≡ some j
    → holds_lease is_running w n j ≡ true
    → (is_empty (strip w) || eqb n 0) ≡ false
    → Stores k (finish s e now j) db (finish_job k s w n e now db)
unfolding finish_job
finish_job-Stores k w n now s e db j v stored held named =
    let p = holds_lease is_running w n in
    let set = finish s e now in
    let one = one_after k db j v stored p set (λ x. refl) held in
    record {
      result = rw named (rw one (get_after k db j v stored p set (λ x. refl) held));
      rows = λ i. rw named (rw one (rows_after k db j v stored p set (λ x. refl) held i));
    }

-- The worker that holds the lease of a running job completes it: the job is `succeeded` with its
-- finish time, and no other row changes.
pub complete_job-Stores :
    (k w : String) (n now : ℕ) (db : Catalog) (j : SyncJob)
    → IsValid db
    → row k db ≡ some j
    → holds_lease is_running w n j ≡ true
    → (is_empty (strip w) || eqb n 0) ≡ false
    → Stores k (finish succeeded none now j) db (complete_job k w n now db)
unfolding complete_job
complete_job-Stores k w n now db j v stored held named =
    finish_job-Stores k w n now succeeded none db j v stored held named

pub fail_job-Stores :
    (k e w : String) (n now : ℕ) (db : Catalog) (j : SyncJob)
    → IsValid db
    → row k db ≡ some j
    → holds_lease is_running w n j ≡ true
    → (is_empty (strip w) || eqb n 0) ≡ false
    → Stores k (finish failed (some e) now j) db (fail_job k e w n now db)
unfolding fail_job
fail_job-Stores k e w n now db j v stored held named =
    finish_job-Stores k w n now failed (some e) db j v stored held named

requeue_where-Stores :
    (k : String) (p : SyncJob → Bool) (t now : ℕ) (db : Catalog) (j : SyncJob)
    → IsValid db
    → row k db ≡ some j
    → p j ≡ true
    → Stores k (requeue t now j) db (requeue_where k p t now db)
unfolding requeue_where
requeue_where-Stores k p t now db j v stored meets =
    let set = requeue t now in
    let one = one_after k db j v stored p set (λ x. refl) meets in
    record {
      result = rw one (get_after k db j v stored p set (λ x. refl) meets);
      rows = λ i. rw one (rows_after k db j v stored p set (λ x. refl) meets i);
    }

running_condition :
    (w : String) (n : ℕ) (s : SyncJobState)
    → is_running s ≡ true
    → (is_empty (strip w) || eqb n 0) ≡ false
    → requeue_condition s (some w) (some n) ≡ some (holds_lease is_running w n)
unfolding requeue_condition
running_condition w n queued h named = cc
running_condition w n running h named = rw named refl
running_condition w n succeeded h named = cc
running_condition w n failed h named = cc

-- The holder of a lease gives the job back, to run again from `t`.
pub requeue_job-Stores :
    (k w : String) (n t now : ℕ) (db : Catalog) (j : SyncJob)
    → IsValid db
    → row k db ≡ some j
    → holds_lease is_running w n j ≡ true
    → (is_empty (strip w) || eqb n 0) ≡ false
    → Stores k (requeue t now j) db (requeue_job k t (some w) (some n) now db)
unfolding requeue_job
requeue_job-Stores k w n t now db j v stored held named =
    let runs : is_running j.state ≡ true = ground (arith, held) in
    rw (stored, requeue_job)
      (rw (running_condition w n j.state runs named)
        (requeue_where-Stores k (holds_lease is_running w n) t now db j v stored held))

-- An administrator may retry a failed job without a lease.
pub retry_failed-Stores :
    (k : String) (t now : ℕ) (db : Catalog) (j : SyncJob)
    → IsValid db
    → row k db ≡ some j
    → j.state ≡ failed
    → Stores k (requeue t now j) db (requeue_job k t none none now db)
unfolding requeue_job requeue_condition
retry_failed-Stores k t now db j v stored failed' =
    rw (stored, requeue_job)
      (rw failed'
        (requeue_where-Stores k (λ x. is_failed x.state) t now db j v stored (rw failed' refl)))
