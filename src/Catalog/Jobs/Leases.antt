-- ===== src/Catalog/Jobs/Leases.antt =====
-- A lease, the pair of a worker and an attempt, is good for one claim only.
use its_middle_platform_agen.Prelude.{
  refl, ◌⊎◌, Option-cases, ◌∙◌, Bool-cases, inr, inl, eq→path, false, ◌==◌, ℕ, String, ◌≡◌, Bool,
  true, Option, none, some, arith, ltb, eqb, ◌&&◌, ◌||◌, if◌then◌else◌,
}
use its_middle_platform_agen.Prelude.Table.{delete_where, select_one, update_where}
use its_middle_platform_agen.Prelude.Table.Keys.{
  count_where_key, select_one-update_where, select_one-delete_where_or,
}
use its_middle_platform_agen.Catalog.Models.{
  running, queued, SyncJob, Catalog, is_queued, job_by_id,
}
use its_middle_platform_agen.Prelude.Table.Laws.{select_one-append}
use its_middle_platform_agen.Catalog.Jobs.{
  failed, conflict, succeeded, requeue_where, requeue_condition, missing_or_conflict, value_error,
  requeue_job, strip, fail_job, is_running, is_failed, is_empty, holds_lease, err, count_where,
  finish_job, complete_job, SyncJobState, CatalogError, is_queued_id, new_job,
}
use its_middle_platform_agen.Catalog.Jobs.Invariant.{IsValid, id_of}
use its_middle_platform_agen.Catalog.Jobs.Writes.{
  requeue_stale_jobs-Write, requeue_job-Write, fail_job-Write, complete_job-Write,
  delete_queued_job-Write, claim_next_job-Write, enqueue_job-Write, Write, unchanged, updated,
  deleted, inserted, inserted, deleted, updated, Write, Update, leases, finishes, requeues,
  releases, test_of, set_of,
}
use its_middle_platform_agen.Catalog.Jobs.History.{Step, Reach, Reach-IsValid}
use its_middle_platform_agen.Catalog.Jobs.Keeps.{set_of-KeepsKeys}

-- The row of the job `k`.
abbrev pub row : String → Catalog → Option SyncJob
row k db = select_one (job_by_id k) db.jobs

abbrev pub apply : Update → SyncJob → SyncJob
apply u j = if test_of u j then set_of u j else j

-- What an `UPDATE` of the queue does to one row.
pub row-updated :
    (k : String) (u : Update) (db : Catalog)
    → row k (record db { jobs = update_where (test_of u) (set_of u) db.jobs })
      ≡ (elim (row k db) [ none ↦ none | some j ↦ some (apply u j) ])
row-updated k u db =
    select_one-update_where job_by_id k (test_of u) (set_of u) db.jobs
      ((set_of-KeepsKeys u).same_id k)

-- The attempt `n` of the job is over: the job is gone, claimed again, or waiting to be.
abbrev pub is_over : ℕ → Option SyncJob → Bool
is_over n none = true
is_over n (some j) = ltb n j.attempt || (eqb n j.attempt && is_queued j.state)

is_over-apply :
    (n : ℕ) (u : Update) (j : SyncJob)
    → is_over n (some j) ≡ true
    → is_over n (some (apply u j)) ≡ true
is_over-apply n (leases k w now) j h = ground arith
is_over-apply n (finishes k e w m now) j h = ground arith
is_over-apply n (requeues k c t now) j h = ground arith
is_over-apply n (releases stale now) j h = ground arith

-- The identifier that a call may insert is not `k`.
abbrev pub OtherThan : String → Option String → Type 0
OtherThan k none = Unit
OtherThan k (some i) = (i == k) ≡ false

is_over-updated :
    (n : ℕ) (u : Update) (o : Option SyncJob)
    → is_over n o ≡ true
    → is_over n (elim o [ none ↦ none | some j ↦ some (apply u j) ]) ≡ true
is_over-updated n u none h = h
is_over-updated n u (some j) h = is_over-apply n u j h

pub id_key : (k : String) (j : SyncJob) → job_by_id k j ≡ true → id_of j ≡ k
id_key k j h = eq→path j.id k h

is_over-deleted :
    (n : ℕ) (k i : String) (db : Catalog)
    → IsValid db
    → is_over n (row k db) ≡ true
    → is_over n (select_one (job_by_id k) (delete_where (is_queued_id i) db.jobs)) ≡ true
is_over-deleted n k i db v h =
    elim (select_one-delete_where_or job_by_id id_of id_key k (is_queued_id i) db.jobs v.ids) [
      | inl gone ↦ rw gone
      | inr same ↦ rw same h
    ]

Write-is_over :
    (n : ℕ) (k : String) {i : Option String} {db db' : Catalog}
    → OtherThan k i
    → IsValid db
    → Write i db db'
    → is_over n (row k db) ≡ true
    → is_over n (row k db') ≡ true
Write-is_over n k other v unchanged h = h
Write-is_over n k {db = db} other v (updated u) h =
    rw (row-updated k u db) (is_over-updated n u (row k db) h)
Write-is_over n k {db = db} other v (deleted i) h = is_over-deleted n k i db v h
Write-is_over n k {db = db} other v (inserted j s kind c t now e fresh source new) h =
    let differs : (j == k) ≡ false = rw e at other in
    rw (select_one-append (job_by_id k) db.jobs (new_job j s kind c t now)) (ground arith)

Step-is_over :
    (n : ℕ) {k : String} {db db' : Catalog}
    → IsValid db
    → Step k db db'
    → is_over n (row k db) ≡ true
    → is_over n (row k db') ≡ true
Step-is_over n {k = k} {db = db} v (Step.enqueue i now s kind c t other) h =
    Write-is_over n k other v (enqueue_job-Write i now s kind c t db) h
Step-is_over n {k = k} {db = db} v (Step.claim w now) h =
    Write-is_over n k tt v (claim_next_job-Write w now db) h
Step-is_over n {k = k} {db = db} v (Step.cancel i) h =
    Write-is_over n k tt v (delete_queued_job-Write i db) h
Step-is_over n {k = k} {db = db} v (Step.complete i w m now) h =
    Write-is_over n k tt v (complete_job-Write i w m now db) h
Step-is_over n {k = k} {db = db} v (Step.fail i e w m now) h =
    Write-is_over n k tt v (fail_job-Write i e w m now db) h
Step-is_over n {k = k} {db = db} v (Step.requeue i t w m now) h =
    Write-is_over n k tt v (requeue_job-Write i t w m now db) h
Step-is_over n {k = k} {db = db} v (Step.requeue_stale stale now) h =
    Write-is_over n k tt v (requeue_stale_jobs-Write stale now db) h

-- An attempt that is over stays over, whatever is called.
pub Reach-is_over :
    (n : ℕ) {k : String} {db db' : Catalog}
    → IsValid db
    → Reach k db db'
    → is_over n (row k db) ≡ true
    → is_over n (row k db') ≡ true
Reach-is_over n v Reach.here h = h
Reach-is_over n v (Reach.next r s) h = Step-is_over n (Reach-IsValid r v) s (Reach-is_over n v r h)

not_held :
    (n : ℕ) (in_state : SyncJobState → Bool) (w : String) (j : SyncJob)
    → ((s : SyncJobState) → is_queued s ≡ true → in_state s ≡ false)
    → is_over n (some j) ≡ true
    → holds_lease in_state w n j ≡ false
not_held n in_state w j apart h = ground (arith, apart j.state)

no_row_held :
    (n : ℕ) (k w : String) (in_state : SyncJobState → Bool) (db : Catalog)
    → ((s : SyncJobState) → is_queued s ≡ true → in_state s ≡ false)
    → IsValid db
    → is_over n (row k db) ≡ true
    → count_where (λ j. job_by_id k j && holds_lease in_state w n j) db.jobs ≡ 0
no_row_held n k w in_state db apart v h =
    count_where_key job_by_id id_of id_key k (holds_lease in_state w n) db.jobs v.ids
    ∙ go (row k db) h
  where
    go :
        (o : Option SyncJob)
        → is_over n o ≡ true
        → ◌≡◌ {A = ℕ} (elim o [ none ↦ 0 | some j ↦ if holds_lease in_state w n j then 1 else 0 ]) 0
    go none h' = refl
    go (some j) h' = rw (not_held n in_state w j apart h')

-- How `_finish_job` answers a caller without the lease.
abbrev pub rejection : String → String → ℕ → Catalog → CatalogError
rejection k w n db = if is_empty (strip w) || eqb n 0 then value_error else missing_or_conflict k db

pub record IsRejected (k w : String) (n : ℕ) (db : Catalog) : Type 0 where
  pub completes : (now : ℕ) → complete_job k w n now db ≡ (err (rejection k w n db), db)
  pub fails : (e : String) (now : ℕ) → fail_job k e w n now db ≡ (err (rejection k w n db), db)
  pub requeues :
      (t now : ℕ) → requeue_job k t (some w) (some n) now db ≡ (err (missing_or_conflict k db), db)

running_apart : (s : SyncJobState) → is_queued s ≡ true → is_running s ≡ false
running_apart s h = ground arith

failed_apart : (s : SyncJobState) → is_queued s ≡ true → is_failed s ≡ false
failed_apart s h = ground arith

finish_rejected :
    (k w : String) (n now : ℕ) (s : SyncJobState) (e : Option String) (db : Catalog)
    → IsValid db
    → is_over n (row k db) ≡ true
    → finish_job k s w n e now db ≡ (err (rejection k w n db), db)
unfolding finish_job
finish_rejected k w n now s e db v h = elim (Bool-cases (is_empty (strip w) || eqb n 0)) [
  | inl bad ↦ rw bad
  | inr good ↦ rw good (rw (no_row_held n k w is_running db running_apart v h))
]

requeue_where_rejected :
    (k w : String) (n t now : ℕ) (in_state : SyncJobState → Bool) (db : Catalog)
    → ((s : SyncJobState) → is_queued s ≡ true → in_state s ≡ false)
    → IsValid db
    → is_over n (row k db) ≡ true
    → requeue_where k (holds_lease in_state w n) t now db ≡ (err conflict, db)
unfolding requeue_where
requeue_where_rejected k w n t now in_state db apart v h =
    rw (no_row_held n k w in_state db apart v h)

-- The condition that a lease gets is none, or the lease in a state that is not `queued`.
lease_condition_cases :
    (s : SyncJobState) (w : String) (n : ℕ)
    → (requeue_condition s (some w) (some n) ≡ none)
      ⊎ (requeue_condition s (some w) (some n) ≡ some (holds_lease is_running w n))
      ⊎ (requeue_condition s (some w) (some n) ≡ some (holds_lease is_failed w n))
unfolding requeue_condition
lease_condition_cases queued w n = inl refl
lease_condition_cases succeeded w n = inl refl
lease_condition_cases running w n = elim (Bool-cases (is_empty (strip w) || eqb n 0)) [
  | inl bad ↦ inl (rw bad)
  | inr good ↦ inr (inl (rw good))
]
lease_condition_cases failed w n = elim (Bool-cases (is_empty (strip w) || eqb n 0)) [
  | inl bad ↦ inl (rw bad)
  | inr good ↦ inr (inr (rw good))
]

requeue_rejected :
    (k w : String) (n t now : ℕ) (db : Catalog)
    → IsValid db
    → is_over n (row k db) ≡ true
    → requeue_job k t (some w) (some n) now db ≡ (err (missing_or_conflict k db), db)
unfolding requeue_job
requeue_rejected k w n t now db v h = elim (Option-cases (row k db)) [
  | inl gone ↦ rw (gone, requeue_job)
  | inr (j, found) ↦
      rw (found, requeue_job)
        (elim (lease_condition_cases j.state w n) [
          | inl refused ↦ rw refused
          | inr (inl held) ↦
              rw held (requeue_where_rejected k w n t now is_running db running_apart v h)
          | inr (inr held) ↦
              rw held (requeue_where_rejected k w n t now is_failed db failed_apart v h)
        ])
]

pub over-IsRejected :
    (k w : String) (n : ℕ) (db : Catalog)
    → IsValid db
    → is_over n (row k db) ≡ true
    → IsRejected k w n db
unfolding complete_job fail_job
over-IsRejected k w n db v h = record {
  completes = λ now. finish_rejected k w n now succeeded none db v h;
  fails = λ e now. finish_rejected k w n now failed (some e) db v h;
  requeues = λ t now. requeue_rejected k w n t now db v h;
}
