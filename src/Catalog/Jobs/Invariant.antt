-- ===== src/Catalog/Jobs/Invariant.antt =====
-- The invariant of the `sync_jobs` table, and that every method of the job queue keeps it.
use its_middle_platform_agen.Prelude.{
  is_text, ◌&&◌, ◌==◌, ◌<◌, String, ◌≡◌, ap, refl, Bool, true, false, Option, none, some, List, [],
  ◌∷◌, arith, eq_iff, eq_comm, is_some, All,
}
use its_middle_platform_agen.Prelude.Table.{select_one, update_where}
use its_middle_platform_agen.Prelude.Table.Laws.{All-update_where}
use its_middle_platform_agen.Prelude.Table.Keys.{Unique, Unique-update_where}
use its_middle_platform_agen.Catalog.Models.{
  queued, running, succeeded, failed, SyncJob, Catalog, job_by_id, source_by_id,
}
use its_middle_platform_agen.Catalog.Jobs.{existing_request}

-- What the columns of a row say of its state.
pub record IsRow (j : SyncJob) : Type 0 where
  pub waits :
      j.state ≡ queued
      → (j.worker_id ≡ none) × (j.claimed_at ≡ none) × (j.finished_at ≡ none) × (j.error ≡ none)
  pub runs :
      j.state ≡ running
      → (is_some j.worker_id ≡ true)
        × (is_some j.claimed_at ≡ true)
        × (j.finished_at ≡ none)
        × (j.error ≡ none)
        × (0 < j.attempt)
  pub has_succeeded :
      j.state ≡ succeeded
      → (is_some j.worker_id ≡ true)
        × (is_some j.finished_at ≡ true)
        × (j.error ≡ none)
        × (0 < j.attempt)
  pub has_failed :
      j.state ≡ failed
      → (is_some j.worker_id ≡ true)
        × (is_some j.finished_at ≡ true)
        × (is_some j.error ≡ true)
        × (0 < j.attempt)

-- The columns of a request: a row without a commit is none.
abbrev pub Request : Type 0
Request = String × String × Option String

abbrev pub request_of : SyncJob → Request
request_of j = (j.source_id, j.kind, j.target_commit)

abbrev pub matches : Request → Request → Bool
matches (s, k, none) q = false
matches (s, k, some c) q = q.0 == s && q.1 == k && is_text q.2 c

abbrev pub by_request : Request → SyncJob → Bool
by_request r j = matches r (request_of j)

abbrev pub id_of : SyncJob → String
id_of j = j.id

abbrev pub HasSource : Catalog → SyncJob → Type 0
HasSource db j = is_some (select_one (source_by_id j.source_id) db.sources) ≡ true

pub record IsValid (db : Catalog) : Type 0 where
  pub ids : Unique job_by_id id_of db.jobs
  pub requests : Unique by_request request_of db.jobs
  pub rows : All IsRow db.jobs
  pub owned : All (HasSource db) db.jobs

pub existing_request-eq :
    (s k : String) (c : Option String) (jobs : List SyncJob)
    → existing_request s k c jobs ≡ select_one (by_request (s, k, c)) jobs
unfolding select_one
existing_request-eq s k (some c) jobs = refl
existing_request-eq s k none [] = refl
existing_request-eq s k none (j ∷ jobs) = existing_request-eq s k none jobs

matches_comm : (q r : Request) → matches q r ≡ matches r q
matches_comm (s, k, none) (s', k', none) = refl
matches_comm (s, k, none) (s', k', some d) = ground (arith, eq_iff s s')
matches_comm (s, k, some c) (s', k', none) = ground (arith, eq_iff s s')
matches_comm (s, k, some c) (s', k', some d) =
    ground (arith, eq_comm s' s, eq_comm k' k, eq_comm d c)

pub by_request_comm : (x y : SyncJob) → by_request (request_of x) y ≡ by_request (request_of y) x
by_request_comm x y = matches_comm (request_of x) (request_of y)

-- An `UPDATE` that writes neither the key nor the request columns.
pub record KeepsKeys (set : SyncJob → SyncJob) : Type 0 where
  pub id : (j : SyncJob) → (set j).id ≡ j.id
  pub request : (j : SyncJob) → request_of (set j) ≡ request_of j
  pub same_id : (k : String) (j : SyncJob) → job_by_id k (set j) ≡ job_by_id k j
  pub source : (j : SyncJob) → (set j).source_id ≡ j.source_id

pub update-IsValid :
    (test : SyncJob → Bool) (set : SyncJob → SyncJob) (db : Catalog)
    → KeepsKeys set
    → ((j : SyncJob) → test j ≡ true → IsRow j → IsRow (set j))
    → IsValid db
    → IsValid (record db { jobs = update_where test set db.jobs })
update-IsValid test set db keep row v = record {
  ids = Unique-update_where job_by_id id_of test set db.jobs keep.id keep.same_id v.ids;
  requests =
      Unique-update_where by_request request_of test set db.jobs keep.request
        (λ r j. ap (matches r) (keep.request j)) v.requests;
  rows = All-update_where IsRow test set db.jobs row v.rows;
  owned = All-update_where (HasSource db) test set db.jobs (λ j t h. rw (keep.source j) h) v.owned;
}
