-- ===== src/Quality/Runs.antt =====
-- The methods of `QualityRepository` (knowledge/quality/repository.py) on `eval_runs`. SQLite's
-- order of runs with one `created_at` is not specified; here it is that of the table.
use its_middle_platform_agen.Prelude.Table.{select_one, update_where, order_by, count_where}
use its_middle_platform_agen.Prelude.{
  ◌||◌, ltb, is_some, eqb, leb, if◌then◌else◌, ◌==◌, ◌&&◌, Option, Bool, ◌++◌, String, List, ℕ,
  none, some, [], ◌∷◌, true, false,
}
use its_middle_platform_agen.Prelude.Result.{Result, ok, err}
use its_middle_platform_agen.Quality.Records.{
  run_time_error, constraint_error, quality_not_found_error, run_by_id, QualityError, Evaluations,
  EvalRun, Outcome,
}

unfoldable pub get_eval_run : String → Evaluations → Option EvalRun
get_eval_run run_id db = select_one (run_by_id run_id) db.runs

abbrev pub run_found : QualityError → Option EvalRun → Result QualityError EvalRun
run_found e none = err e
run_found e (some r) = ok r

abbrev pub new_run : String → String → String → String → String → List String → ℕ → ℕ → EvalRun
new_run run_id status application_version provider model_name case_ids total_cases now = record {
  id = run_id;
  status = status;
  application_version = application_version;
  provider = provider;
  model_name = model_name;
  total_cases = total_cases;
  passed_cases = 0;
  failed_cases = 0;
  case_ids = case_ids;
  cancel_requested = false;
  current_case = 0;
  created_at = now;
  updated_at = now;
  completed_at = none;
}

-- The run is given as the row that the method inserts.
unfoldable pub create_eval_run : EvalRun → Evaluations → Outcome EvalRun
unfolding get_eval_run
create_eval_run r db =
    let db' : Evaluations = record db { runs = db.runs ++ r ∷ [] } in
    if is_some (select_one (run_by_id r.id) db.runs)
    then (err constraint_error, db)
    else (run_found run_time_error (get_eval_run r.id db'), db')

abbrev pub has_run_status : String → EvalRun → Bool
has_run_status status r = r.status == status

abbrev pub earlier_run : EvalRun → Option EvalRun → EvalRun
earlier_run r none = r
earlier_run r (some s) = if leb r.created_at s.created_at then r else s

-- `WHERE status='queued' ORDER BY created_at LIMIT 1`.
unfoldable pub next_queued : List EvalRun → Option EvalRun
next_queued [] = none
next_queued (r ∷ rs) =
    let rest = next_queued rs in
    if has_run_status "queued" r then some (earlier_run r rest) else rest

abbrev pub is_queued_run : String → EvalRun → Bool
is_queued_run run_id r = run_by_id run_id r && has_run_status "queued" r

abbrev pub started_run : ℕ → EvalRun → EvalRun
started_run now r = record r { status = "running"; updated_at = now }

unfoldable pub claim_next_eval_run : ℕ → Evaluations → Option EvalRun × Evaluations
unfolding next_queued get_eval_run
claim_next_eval_run now db = elim (next_queued db.runs) [
  | none ↦ (none, db)
  | some r ↦
      let db' : Evaluations = record db {
        runs = update_where (is_queued_run r.id) (started_run now) db.runs;
      } in
      if eqb (count_where (is_queued_run r.id) db.runs) 0
      then (none, db')
      else (get_eval_run r.id db', db')
]

abbrev pub is_live_run : String → EvalRun → Bool
is_live_run run_id r =
    run_by_id run_id r && (has_run_status "queued" r || has_run_status "running" r)

abbrev pub cancel_asked : ℕ → EvalRun → EvalRun
cancel_asked now r = record r { cancel_requested = true; updated_at = now }

unfoldable pub request_eval_run_cancel : String → ℕ → Evaluations → Outcome EvalRun
unfolding get_eval_run
request_eval_run_cancel run_id now db =
    let db' : Evaluations = record db {
      runs = update_where (is_live_run run_id) (cancel_asked now) db.runs;
    } in
    if eqb (count_where (is_live_run run_id) db.runs) 0
    then (err quality_not_found_error, db)
    else (run_found quality_not_found_error (get_eval_run run_id db'), db')

abbrev pub progressed : ℕ → ℕ → EvalRun → EvalRun
progressed current_case now r = record r { current_case = current_case; updated_at = now }

unfoldable pub update_eval_progress : String → ℕ → ℕ → Evaluations → Evaluations
update_eval_progress run_id current_case now db = record db {
  runs = update_where (run_by_id run_id) (progressed current_case now) db.runs;
}

abbrev pub cancelled_run : ℕ → EvalRun → EvalRun
cancelled_run now r = record r { status = "cancelled"; completed_at = some now; updated_at = now }

-- The statement names the run alone, not its status.
unfoldable pub mark_eval_run_cancelled : String → ℕ → Evaluations → Outcome EvalRun
unfolding get_eval_run
mark_eval_run_cancelled run_id now db =
    let db' : Evaluations = record db {
      runs = update_where (run_by_id run_id) (cancelled_run now) db.runs;
    } in
    (run_found quality_not_found_error (get_eval_run run_id db'), db')

abbrev pub is_stale_run : ℕ → EvalRun → Bool
is_stale_run cutoff r = has_run_status "running" r && ltb r.updated_at cutoff

abbrev pub requeued_run : ℕ → EvalRun → EvalRun
requeued_run now r = record r { status = "queued"; updated_at = now }

-- `cutoff` is `stale_seconds` before now.
unfoldable pub recover_eval_runs : ℕ → ℕ → Evaluations → ℕ × Evaluations
recover_eval_runs cutoff now db = (
  count_where (is_stale_run cutoff) db.runs,
  record db { runs = update_where (is_stale_run cutoff) (requeued_run now) db.runs },
)

abbrev pub newer_run : EvalRun → EvalRun → Bool
newer_run a b = leb b.created_at a.created_at

unfoldable pub list_eval_runs : Evaluations → List EvalRun
list_eval_runs db = order_by newer_run db.runs
