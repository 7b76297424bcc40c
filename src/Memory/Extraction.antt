-- ===== src/Memory/Extraction.antt =====
-- The extraction jobs of the memory repository (knowledge/memory/repository.py). The memory policy
-- is a parameter, and texts come as `" ".join(text.split())[:1800]`; `job_id` is the value of
-- `uuid4()` and `now` that of `_now()`. SQLite's order of rows with one `created_at` is not
-- specified; here it is the order of insertion.
pub mod Claims
use its_middle_platform_agen.Prelude.Strip.{is_empty, strip}
use its_middle_platform_agen.Prelude.Table.TextKey.{has_key}
use its_middle_platform_agen.Prelude.Table.{update_where, select_one, count_where}
use its_middle_platform_agen.Prelude.Result.{err, ok, Result}
use its_middle_platform_agen.Prelude.{
  ◌++◌, is_some, not, ◌||◌, ltb, leb, is_text, ◌-◌, true, if◌then◌else◌, eqb, ◌==◌, ◌+◌, ◌&&◌,
  String, Option, List, Bool, ℕ, none, some, [], ◌∷◌,
}

pub data ExtractionError : Type 0 where
  unsafe_payload extraction_key_error extraction_integrity_error : ExtractionError

pub record MemoryExtractionJob : Type 0 where
  pub id : String
  pub user_id : String
  pub conversation_id : String
  pub space_id : String
  pub domain_id : Option String
  pub channel : String
  pub question : String
  pub answer : Option String
  pub source_turn_id : Option String
  pub source_citations : List String
  pub status : String
  pub attempt : ℕ
  pub worker_id : Option String
  pub error_type : Option String
  pub created_at : ℕ
  pub updated_at : ℕ

abbrev pub extraction_key : MemoryExtractionJob → String
extraction_key j = j.id

abbrev pub has_status : String → MemoryExtractionJob → Bool
has_status status j = j.status == status

unfoldable pub get_extraction_job :
    String → List MemoryExtractionJob → Result ExtractionError MemoryExtractionJob
get_extraction_job job_id jobs = elim (select_one (has_key extraction_key job_id) jobs) [
  | none ↦ err extraction_key_error
  | some j ↦ ok j
]

abbrev pub allows_answer : (String → Bool) → Option String → Bool
allows_answer allows_text none = true
allows_answer allows_text (some a) = allows_text a

-- The row that `enqueue_extraction` inserts; its ids are stripped and its channel is cut.
unfoldable pub enqueue_extraction :
    (String → Bool)
    → MemoryExtractionJob
    → List MemoryExtractionJob
    → Result ExtractionError MemoryExtractionJob × List MemoryExtractionJob
unfolding get_extraction_job
enqueue_extraction allows_text j jobs =
    let stored : MemoryExtractionJob = record j {
      user_id = strip j.user_id;
      conversation_id = strip j.conversation_id;
      space_id = strip j.space_id;
      status = "queued";
      attempt = 0;
      worker_id = none;
      error_type = none;
    } in
    if is_empty (strip j.user_id)
      || is_empty (strip j.conversation_id)
      || is_empty (strip j.space_id)
      || not (allows_text j.question)
      || not (allows_answer allows_text j.answer)
    then (err unsafe_payload, jobs)
    else if is_some (select_one (has_key extraction_key j.id) jobs)
    then (err extraction_integrity_error, jobs)
    else (get_extraction_job j.id (jobs ++ stored ∷ []), jobs ++ stored ∷ [])

abbrev pub earlier : MemoryExtractionJob → Option MemoryExtractionJob → MemoryExtractionJob
earlier j none = j
earlier j (some k) = if leb j.created_at k.created_at then j else k

-- `WHERE status='queued' ORDER BY created_at LIMIT 1`.
unfoldable pub oldest_queued : List MemoryExtractionJob → Option MemoryExtractionJob
oldest_queued [] = none
oldest_queued (j ∷ js) =
    let rest = oldest_queued js in if has_status "queued" j then some (earlier j rest) else rest

abbrev pub claimed : String → ℕ → MemoryExtractionJob → MemoryExtractionJob
claimed worker_id now j = record j {
  status = "running";
  attempt = j.attempt + 1;
  worker_id = some worker_id;
  updated_at = now;
}

abbrev pub is_queued_job : String → MemoryExtractionJob → Bool
is_queued_job job_id j = has_key extraction_key job_id j && has_status "queued" j

abbrev pub some_result :
    Result ExtractionError MemoryExtractionJob → Result ExtractionError (Option MemoryExtractionJob)
some_result (ok j) = ok (some j)
some_result (err e) = err e

unfoldable pub claim_extraction_job :
    String
    → ℕ
    → List MemoryExtractionJob
    → Result ExtractionError (Option MemoryExtractionJob) × List MemoryExtractionJob
unfolding get_extraction_job oldest_queued
claim_extraction_job worker_id now jobs = elim (oldest_queued jobs) [
  | none ↦ (ok none, jobs)
  | some j ↦
      let jobs' = update_where (is_queued_job j.id) (claimed worker_id now) jobs in
      (some_result (get_extraction_job j.id jobs'), jobs')
]

abbrev pub completed_job : ℕ → MemoryExtractionJob → MemoryExtractionJob
completed_job now j = record j { status = "succeeded"; error_type = none; updated_at = now }

-- The statement names the job alone: neither its status nor its worker.
unfoldable pub complete_extraction_job :
    String → ℕ → List MemoryExtractionJob → List MemoryExtractionJob
complete_extraction_job job_id now jobs =
    update_where (has_key extraction_key job_id) (completed_job now) jobs

abbrev pub failed_job : String → String → ℕ → MemoryExtractionJob → MemoryExtractionJob
failed_job status error_type now j = record j {
  status = status;
  worker_id = none;
  error_type = some error_type;
  updated_at = now;
}

-- `error_type` is cut to 200 characters by the caller of this definition.
unfoldable pub fail_extraction_job :
    String
    → String
    → ℕ
    → ℕ
    → List MemoryExtractionJob
    → Result {0, 0} ExtractionError Unit × List MemoryExtractionJob
fail_extraction_job job_id error_type max_attempts now jobs =
    elim (select_one (has_key extraction_key job_id) jobs) [
      | none ↦ (err extraction_key_error, jobs)
      | some j ↦
          let status = if ltb j.attempt max_attempts then "queued" else "failed" in
          (
            ok tt,
            update_where (has_key extraction_key job_id) (failed_job status error_type now) jobs,
          )
    ]

abbrev pub requeued : ℕ → MemoryExtractionJob → MemoryExtractionJob
requeued now j = record j { status = "queued"; worker_id = none; updated_at = now }

abbrev pub is_run_by : String → String → MemoryExtractionJob → Bool
is_run_by job_id worker_id j =
    has_key extraction_key job_id j && (has_status "running" j && is_text j.worker_id worker_id)

unfoldable pub requeue_extraction_job :
    String → String → ℕ → List MemoryExtractionJob → Bool × List MemoryExtractionJob
requeue_extraction_job job_id worker_id now jobs = (
  eqb (count_where (is_run_by job_id worker_id) jobs) 1,
  update_where (is_run_by job_id worker_id) (requeued now) jobs,
)

abbrev pub is_stale_job : ℕ → MemoryExtractionJob → Bool
is_stale_job cutoff j = has_status "running" j && leb j.updated_at cutoff

-- The cutoff is `now` less the staleness; a negative one counts as 0, as the numbers do.
unfoldable pub recover_stale_extraction_jobs :
    ℕ → ℕ → List MemoryExtractionJob → ℕ × List MemoryExtractionJob
recover_stale_extraction_jobs stale now jobs = (
  count_where (is_stale_job (now - stale)) jobs,
  update_where (is_stale_job (now - stale)) (requeued now) jobs,
)
