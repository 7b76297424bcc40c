-- ===== src/Catalog/Jobs/Writes.antt =====
-- What the methods of the job queue write: each leaves the database as it was, sends one `UPDATE`
-- of four kinds, deletes a queued row or inserts a new one.
use its_middle_platform_agen.Prelude.{
  not, ℕ, String, ◌≡◌, refl, inl, inr, Bool, true, ◌&&◌, ◌||◌, Option, none, some, [], ◌∷◌, ◌++◌,
  is_some, Bool-cases, Option-cases, ◌==◌, eqb,
}
use its_middle_platform_agen.Prelude.Strip.{strip, is_empty}
use its_middle_platform_agen.Prelude.Table.{select_one, delete_where, count_where, update_where}
use its_middle_platform_agen.Catalog.Models.{
  SyncJobState, succeeded, failed, SyncJob, Catalog, is_running, job_by_id, source_by_id,
}
use its_middle_platform_agen.Catalog.Jobs.{
  existing_request, new_job, insert_job, enqueue_request, enqueue_job, next_due, lease,
  is_queued_id, claim_job, claim_next_job, delete_queued_job, holds_lease, finish, finish_job,
  complete_job, fail_job, requeue, requeue_condition, requeue_where, requeue_job, is_stale, release,
  requeue_stale_jobs, strip_commit, get_or,
}

abbrev pub ends : Option String → SyncJobState
ends none = succeeded
ends (some e) = failed

pub data Update : Type 0 where
  leases : String → String → ℕ → Update
  finishes : String → Option String → String → ℕ → ℕ → Update
  requeues : String → (SyncJob → Bool) → ℕ → ℕ → Update
  releases : ℕ → ℕ → Update

abbrev pub test_of : Update → SyncJob → Bool
test_of (leases k w now) j = is_queued_id k j
test_of (finishes k e w n now) j = job_by_id k j && holds_lease is_running w n j
test_of (requeues k condition t now) j = job_by_id k j && condition j
test_of (releases stale_before now) j = is_stale stale_before j

abbrev pub set_of : Update → SyncJob → SyncJob
set_of (leases k w now) = lease w now
set_of (finishes k e w n now) = finish (ends e) e now
set_of (requeues k condition t now) = requeue t now
set_of (releases stale_before now) = release now

-- `i` is the identifier that the call may insert.
pub data Write (i : Option String) (db : Catalog) : Catalog → Type 0 where
  unchanged : Write i db db
  updated :
      (u : Update) → Write i db (record db { jobs = update_where (test_of u) (set_of u) db.jobs })
  deleted : (k : String) → Write i db (record db { jobs = delete_where (is_queued_id k) db.jobs })
  inserted :
      (k s kind : String) (c : Option String) (t now : ℕ)
      → i ≡ some k
      → select_one (job_by_id k) db.jobs ≡ none
      → is_some (select_one (source_by_id s) db.sources) ≡ true
      → existing_request s kind c db.jobs ≡ none
      → Write i db (record db { jobs = db.jobs ++ new_job k s kind c t now ∷ [] })

pub claim_next_job-Write :
    (w : String) (now : ℕ) (db : Catalog) → Write none db (claim_next_job w now db).1
unfolding claim_next_job claim_job
claim_next_job-Write w now db = elim (Bool-cases (is_empty (strip w))) [
  | inl blank ↦ rw blank unchanged
  | inr named ↦ rw named (elim (Option-cases (next_due now db.jobs)) [
    | inl idle ↦ rw idle unchanged
    | inr (j, due) ↦ rw due (updated (leases j.id (strip w) now))
  ])
]

pub delete_queued_job-Write : (k : String) (db : Catalog) → Write none db (delete_queued_job k db).1
unfolding delete_queued_job
delete_queued_job-Write k db = deleted k

insert_job-Write :
    (i s kind : String) (c : Option String) (t now : ℕ) (db : Catalog)
    → existing_request s kind c db.jobs ≡ none
    → Write (some i) db (insert_job (new_job i s kind c t now) db).1
unfolding insert_job
insert_job-Write i s kind c t now db new = elim (Option-cases (select_one (job_by_id i) db.jobs)) [
  | inr (x, e) ↦ rw e unchanged
  | inl fresh ↦ rw fresh (elim (Bool-cases (is_some (select_one (source_by_id s) db.sources))) [
    | inr missing ↦ rw missing unchanged
    | inl there ↦ rw there (inserted i s kind c t now refl fresh there new)
  ])
]

enqueue_request-Write :
    (i : String) (now : ℕ) (s kind : String) (c : Option String) (t : ℕ) (db : Catalog)
    → Write (some i) db (enqueue_request i now s kind c t db).1
unfolding enqueue_request
enqueue_request-Write i now s kind c t db =
    elim (Option-cases (existing_request s kind c db.jobs)) [
      | inr (x, e) ↦ rw (e, enqueue_request) unchanged
      | inl new ↦ rw (new, enqueue_request) (insert_job-Write i s kind c t now db new)
    ]

pub enqueue_job-Write :
    (i : String) (now : ℕ) (s kind : String) (c : Option String) (t : Option ℕ) (db : Catalog)
    → Write (some i) db (enqueue_job i now s kind c t db).1
unfolding enqueue_job
enqueue_job-Write i now s kind c t db = elim (Bool-cases (is_empty (strip kind))) [
  | inl blank ↦ rw blank unchanged
  | inr named ↦
      rw named (elim (Bool-cases (strip kind == "webhook" && not (is_some (strip_commit c)))) [
        | inl unsent ↦ rw unsent unchanged
        | inr sent ↦
            rw sent (enqueue_request-Write i now s (strip kind) (strip_commit c) (get_or t now) db)
      ])
]

finish_job-Write :
    (k w : String) (n : ℕ) (e : Option String) (now : ℕ) (db : Catalog)
    → Write none db (finish_job k (ends e) w n e now db).1
unfolding finish_job
finish_job-Write k w n e now db =
    let u : Update = finishes k e w n now in
    elim (Bool-cases (is_empty (strip w) || eqb n 0)) [
      | inl bad ↦ rw bad unchanged
      | inr good ↦ rw good (elim (Bool-cases (eqb (count_where (test_of u) db.jobs) 1)) [
        | inl one ↦ rw one (updated u)
        | inr other ↦ rw other unchanged
      ])
    ]

pub complete_job-Write :
    (k w : String) (n now : ℕ) (db : Catalog) → Write none db (complete_job k w n now db).1
unfolding complete_job
complete_job-Write k w n now db = finish_job-Write k w n none now db

pub fail_job-Write :
    (k e w : String) (n now : ℕ) (db : Catalog) → Write none db (fail_job k e w n now db).1
unfolding fail_job
fail_job-Write k e w n now db = finish_job-Write k w n (some e) now db

requeue_where-Write :
    (k : String) (condition : SyncJob → Bool) (t now : ℕ) (db : Catalog)
    → Write none db (requeue_where k condition t now db).1
unfolding requeue_where
requeue_where-Write k condition t now db =
    let u : Update = requeues k condition t now in
    elim (Bool-cases (eqb (count_where (test_of u) db.jobs) 1)) [
      | inl one ↦ rw one (updated u)
      | inr other ↦ rw other unchanged
    ]

pub requeue_job-Write :
    (k : String) (t : ℕ) (w : Option String) (n : Option ℕ) (now : ℕ) (db : Catalog)
    → Write none db (requeue_job k t w n now db).1
unfolding requeue_job
requeue_job-Write k t w n now db = elim (Option-cases (select_one (job_by_id k) db.jobs)) [
  | inl gone ↦ rw (gone, requeue_job) unchanged
  | inr (j, found) ↦
      rw (found, requeue_job)
        (elim (Option-cases (requeue_condition j.state w n)) [
          | inl refused ↦ rw refused unchanged
          | inr (condition, agreed) ↦ rw agreed (requeue_where-Write k condition t now db)
        ])
]

pub requeue_stale_jobs-Write :
    (stale_before now : ℕ) (db : Catalog) → Write none db (requeue_stale_jobs stale_before now db).1
unfolding requeue_stale_jobs
requeue_stale_jobs-Write stale_before now db = updated (releases stale_before now)
