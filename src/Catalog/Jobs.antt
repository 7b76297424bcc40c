-- ===== src/Catalog/Jobs.antt =====
-- The synchronisation jobs of `CatalogRepository` (knowledge/catalog/repository.py). A method takes
-- the database and returns its result or exception with the database that it leaves; a method that
-- rolls back returns the database that it was given. `now` is the value of `now or _utc_now()`.
pub mod Invariant
pub mod Writes
pub mod Keeps
pub mod History
pub mod Leases
pub mod Claims
pub mod Draining
pub mod Fencing
pub mod Finishing
pub mod Requests
use its_middle_platform_agen.Prelude.{
  ℕ, ◌+◌, String, Bool, false, not, ◌&&◌, ◌||◌, Option, none, some, List, [], ◌∷◌, ◌++◌, ltb, leb,
  eqb, ◌==◌, is_text, is_some, text_leb, if◌then◌else◌,
}
use its_middle_platform_agen.Prelude.Result.{Result, ok, err}
use its_middle_platform_agen.Prelude.Strip.{strip, is_empty}
use its_middle_platform_agen.Prelude.Table.{select_one, update_where, delete_where, count_where}
use its_middle_platform_agen.Catalog.Models.{
  CatalogError, value_error, not_found, conflict, integrity_error, type_error, SyncJobState, queued,
  running, succeeded, failed, SyncJob, Catalog, is_queued, is_running, is_failed, job_by_id,
  source_by_id,
}

-- A method's result beside the database.
abbrev pub Outcome : Type 0 → Type 0
Outcome A = Result CatalogError A × Catalog

-- `_job_from_row`: a row that is `None` cannot be subscripted.
abbrev pub job_from_row : Option SyncJob → Result CatalogError SyncJob
job_from_row none = err type_error
job_from_row (some j) = ok j

unfoldable pub get_job : String → Catalog → Result CatalogError SyncJob
get_job job_id db = elim (select_one (job_by_id job_id) db.jobs) [
  | none ↦ err not_found
  | some j ↦ ok j
]

-- The columns that the duplicate query of `enqueue_job` compares.
abbrev pub same_request : String → String → String → SyncJob → Bool
same_request source_id kind commit j =
    j.source_id == source_id && j.kind == kind && is_text j.target_commit commit

abbrev pub existing_request : String → String → Option String → List SyncJob → Option SyncJob
existing_request source_id kind none jobs = none
existing_request source_id kind (some commit) jobs =
    select_one (same_request source_id kind commit) jobs

abbrev pub new_job : String → String → String → Option String → ℕ → ℕ → SyncJob
new_job job_id source_id kind target_commit available_at now = record {
  id = job_id;
  source_id = source_id;
  kind = kind;
  state = queued;
  target_commit = target_commit;
  attempt = 0;
  error = none;
  worker_id = none;
  available_at = available_at;
  claimed_at = none;
  finished_at = none;
  created_at = now;
  updated_at = now;
}

-- `INSERT INTO sync_jobs` with the primary key and the foreign key, then the `SELECT` by the new id. An
-- error rolls back. The unique index on requests, which the SQLite migrations have and the
-- PostgreSQL schema has not, is left out: in the one transaction of `enqueue_job` the `SELECT` before
-- has excluded what it refuses.
unfoldable pub insert_job : SyncJob → Catalog → Outcome SyncJob
insert_job j db =
    let jobs' = db.jobs ++ j ∷ [] in
    if is_some (select_one (job_by_id j.id) db.jobs)
      || not (is_some (select_one (source_by_id j.source_id) db.sources))
    then (err integrity_error, db)
    else (job_from_row (select_one (job_by_id j.id) jobs'), record db { jobs = jobs' })

-- `target_commit.strip() or None`, where it is given.
abbrev pub strip_commit : Option String → Option String
strip_commit none = none
strip_commit (some c) = if is_empty (strip c) then none else some (strip c)

abbrev pub get_or : Option ℕ → ℕ → ℕ
get_or none d = d
get_or (some t) d = t

-- The body of `enqueue_job` once its arguments are normalised.
unfoldable pub enqueue_request :
    String → ℕ → String → String → Option String → ℕ → Catalog → Outcome SyncJob
enqueue_request job_id now source_id kind commit available_at db =
    elim (existing_request source_id kind commit db.jobs) [
      | some j ↦ (ok j, db)
      | none ↦ insert_job (new_job job_id source_id kind commit available_at now) db
    ]

-- `job_id` is the value of `uuid4()`.
unfoldable pub enqueue_job :
    String → ℕ → String → String → Option String → Option ℕ → Catalog → Outcome SyncJob
enqueue_job job_id now source_id kind target_commit available_at db =
    if is_empty (strip kind)
    then (err value_error, db)
    else if strip kind == "webhook" && not (is_some (strip_commit target_commit))
    then (err value_error, db)
    else enqueue_request job_id now source_id (strip kind) (strip_commit target_commit)
        (get_or available_at now) db

abbrev pub is_due : ℕ → SyncJob → Bool
is_due now j = is_queued j.state && leb j.available_at now

-- `ORDER BY available_at, created_at, id`.
abbrev pub precedes : SyncJob → SyncJob → Bool
precedes a b =
    ltb a.available_at b.available_at
    || (eqb a.available_at b.available_at
        && (ltb a.created_at b.created_at || (eqb a.created_at b.created_at && text_leb a.id b.id)))

unfoldable pub first_of_two : SyncJob → Option SyncJob → SyncJob
first_of_two j none = j
first_of_two j (some k) = if precedes j k then j else k

-- `SELECT id … WHERE state='queued' AND available_at<=? ORDER BY … LIMIT 1`.
unfoldable pub next_due : ℕ → List SyncJob → Option SyncJob
next_due now [] = none
next_due now (j ∷ js) =
    let rest = next_due now js in if is_due now j then some (first_of_two j rest) else rest

abbrev pub lease : String → ℕ → SyncJob → SyncJob
lease worker_id now j = record j {
  state = running;
  attempt = j.attempt + 1;
  worker_id = some worker_id;
  claimed_at = some now;
  finished_at = none;
  updated_at = now;
}

abbrev pub is_queued_id : String → SyncJob → Bool
is_queued_id job_id j = job_by_id job_id j && is_queued j.state

abbrev pub some_job : Result CatalogError SyncJob → Result CatalogError (Option SyncJob)
some_job (ok j) = ok (some j)
some_job (err e) = err e

-- The `UPDATE` of `claim_next_job` and the `SELECT` that reads the claimed row.
unfoldable pub claim_job : String → ℕ → SyncJob → Catalog → Outcome (Option SyncJob)
claim_job worker_id now j db =
    let jobs' = update_where (is_queued_id j.id) (lease worker_id now) db.jobs in
    (some_job (job_from_row (select_one (job_by_id j.id) jobs')), record db { jobs = jobs' })

unfoldable pub claim_next_job : String → ℕ → Catalog → Outcome (Option SyncJob)
claim_next_job worker_id now db =
    if is_empty (strip worker_id) then (err value_error, db) else elim (next_due now db.jobs) [
      | none ↦ (ok none, db)
      | some j ↦ claim_job (strip worker_id) now j db
    ]

unfoldable pub delete_queued_job : String → Catalog → Bool × Catalog
delete_queued_job job_id db = (
  eqb (count_where (is_queued_id job_id) db.jobs) 1,
  record db { jobs = delete_where (is_queued_id job_id) db.jobs },
)

-- `WHERE id=? AND state=? AND worker_id=? AND attempt=?`: the lease of one claim.
abbrev pub holds_lease : (SyncJobState → Bool) → String → ℕ → SyncJob → Bool
holds_lease in_state worker_id attempt j =
    in_state j.state && is_text j.worker_id worker_id && eqb j.attempt attempt

abbrev pub finish : SyncJobState → Option String → ℕ → SyncJob → SyncJob
finish state error now j = record j {
  state = state;
  error = error;
  finished_at = some now;
  updated_at = now;
}

-- `CatalogNotFoundError` where the row is missing, `CatalogConflictError` where it is not.
abbrev pub missing_or_conflict : String → Catalog → CatalogError
missing_or_conflict job_id db =
    if is_some (select_one (job_by_id job_id) db.jobs) then conflict else not_found

unfoldable pub finish_job :
    String → SyncJobState → String → ℕ → Option String → ℕ → Catalog → Outcome SyncJob
unfolding get_job
finish_job job_id state worker_id attempt error now db =
    let test = λ (j : SyncJob). job_by_id job_id j && holds_lease is_running worker_id attempt j in
    let db' = record db { jobs = update_where test (finish state error now) db.jobs } in
    if is_empty (strip worker_id) || eqb attempt 0
    then (err value_error, db)
    else if eqb (count_where test db.jobs) 1
    then (get_job job_id db', db')
    else (err (missing_or_conflict job_id db), db)

unfoldable pub complete_job : String → String → ℕ → ℕ → Catalog → Outcome SyncJob
unfolding finish_job
complete_job job_id worker_id attempt now db =
    finish_job job_id succeeded worker_id attempt none now db

unfoldable pub fail_job : String → String → String → ℕ → ℕ → Catalog → Outcome SyncJob
unfolding finish_job
fail_job job_id error worker_id attempt now db =
    finish_job job_id failed worker_id attempt (some error) now db

abbrev pub requeue : ℕ → ℕ → SyncJob → SyncJob
requeue available_at now j = record j {
  state = queued;
  error = none;
  worker_id = none;
  claimed_at = none;
  finished_at = none;
  available_at = available_at;
  updated_at = now;
}

-- The `WHERE` clause that `requeue_job` builds from the state that it read, or its conflict: a
-- lease is optional for a failed job and required for a running one.
abbrev pub lease_condition :
    (SyncJobState → Bool) → Option String → Option ℕ → Option (SyncJob → Bool)
lease_condition in_state (some worker_id) (some attempt) =
    if is_empty (strip worker_id) || eqb attempt 0
    then none
    else some (holds_lease in_state worker_id attempt)
lease_condition in_state _ _ = none

unfoldable pub requeue_condition : SyncJobState → Option String → Option ℕ → Option (SyncJob → Bool)
requeue_condition failed none none = some (λ j. is_failed j.state)
requeue_condition failed worker_id attempt = lease_condition is_failed worker_id attempt
requeue_condition running worker_id attempt = lease_condition is_running worker_id attempt
requeue_condition _ worker_id attempt = none

unfoldable pub requeue_where : String → (SyncJob → Bool) → ℕ → ℕ → Catalog → Outcome SyncJob
unfolding get_job
requeue_where job_id condition available_at now db =
    let test = λ (j : SyncJob). job_by_id job_id j && condition j in
    let db' = record db { jobs = update_where test (requeue available_at now) db.jobs } in
    if eqb (count_where test db.jobs) 1 then (get_job job_id db', db') else (err conflict, db)

unfoldable pub requeue_job : String → ℕ → Option String → Option ℕ → ℕ → Catalog → Outcome SyncJob
requeue_job job_id available_at worker_id attempt now db =
    elim (select_one (job_by_id job_id) db.jobs) [
      | none ↦ (err not_found, db)
      | some j ↦ elim (requeue_condition j.state worker_id attempt) [
        | none ↦ (err conflict, db)
        | some condition ↦ requeue_where job_id condition available_at now db
      ]
    ]

-- `claimed_at<=?`, where NULL passes no comparison.
abbrev pub claimed_before : ℕ → SyncJob → Bool
claimed_before stale_before j = elim j.claimed_at [ none ↦ false | some t ↦ leb t stale_before ]

abbrev pub is_stale : ℕ → SyncJob → Bool
is_stale stale_before j = is_running j.state && claimed_before stale_before j

abbrev pub release : ℕ → SyncJob → SyncJob
release now j = record j {
  state = queued;
  worker_id = none;
  claimed_at = none;
  finished_at = none;
  available_at = now;
  updated_at = now;
}

unfoldable pub requeue_stale_jobs : ℕ → ℕ → Catalog → ℕ × Catalog
requeue_stale_jobs stale_before now db = (
  count_where (is_stale stale_before) db.jobs,
  record db { jobs = update_where (is_stale stale_before) (release now) db.jobs },
)
