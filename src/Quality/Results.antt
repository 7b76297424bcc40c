-- ===== src/Quality/Results.antt =====
-- The methods of `QualityRepository` (knowledge/quality/repository.py) on `eval_results`, and the
-- completion of a run from them.
use its_middle_platform_agen.Prelude.Table.{
  update_where, select_one, select_all, order_by, count_where,
}
use its_middle_platform_agen.Quality.Runs.{run_found, get_eval_run}
use its_middle_platform_agen.Prelude.{
  ◌++◌, ◌||◌, ◌-◌, ◌&&◌, not, leb, is_some, eqb, if◌then◌else◌, List, Bool, String, Option, ℕ, none,
  some, [], ◌∷◌,
}
use its_middle_platform_agen.Prelude.Result.{Result, ok, err}
use its_middle_platform_agen.Quality.Records.{
  case_by_id, result_key, quality_not_found_error, run_by_id, result_of_case, result_by,
  run_time_error, result_of_run, constraint_error, QualityError, Evaluations, EvalRun, EvalResult,
  Outcome,
}

abbrev pub older_result : EvalResult → EvalResult → Bool
older_result a b = leb a.created_at b.created_at

unfoldable pub list_eval_results : String → Evaluations → List EvalResult
list_eval_results run_id db = order_by older_result (select_all (result_of_run run_id) db.results)

abbrev pub result_found : Option EvalResult → Result QualityError EvalResult
result_found none = err run_time_error
result_found (some r) = ok r

-- `DO UPDATE` sets every column but the two of the key, which are equal.
abbrev pub upserted_result : EvalResult → EvalResult → EvalResult
upserted_result new old = record new { run_id = old.run_id; case_id = old.case_id }

-- The two foreign keys.
abbrev pub breaks_result : EvalResult → Evaluations → Bool
breaks_result r db =
    not (is_some (select_one (run_by_id r.run_id) db.runs))
    || not (is_some (select_one (case_by_id r.case_id) db.cases))

abbrev pub put_result : EvalResult → List EvalResult → List EvalResult
put_result r results =
    if is_some (select_one (result_by (result_key r)) results)
    then update_where (result_by (result_key r)) (upserted_result r) results
    else results ++ r ∷ []

-- The row of the call's arguments, with `_optional(error_type)` and `created_at` put in.
unfoldable pub save_eval_result : EvalResult → Evaluations → Outcome EvalResult
unfolding list_eval_results
save_eval_result r db =
    let db' : Evaluations = record db { results = put_result r db.results } in
    if breaks_result r db then (err constraint_error, db) else (
      result_found (select_one (result_of_case r.case_id) (list_eval_results r.run_id db')),
      db',
    )

abbrev pub is_passed_of : String → EvalResult → Bool
is_passed_of run_id r = result_of_run run_id r && r.passed

abbrev pub finished_run : ℕ → ℕ → ℕ → EvalRun → EvalRun
finished_run total passed now r = record r {
  status = if eqb (total - passed) 0 then "completed" else "completed_with_failures";
  passed_cases = passed;
  failed_cases = total - passed;
  completed_at = some now;
  updated_at = now;
}

-- The statement names the run alone, not its status.
unfoldable pub complete_eval_run : String → ℕ → Evaluations → Outcome EvalRun
unfolding get_eval_run
complete_eval_run run_id now db =
    let total = count_where (result_of_run run_id) db.results in
    let passed = count_where (is_passed_of run_id) db.results in
    let db' : Evaluations = record db {
      runs = update_where (run_by_id run_id) (finished_run total passed now) db.runs;
    } in
    if eqb (count_where (run_by_id run_id) db.runs) 0
    then (err quality_not_found_error, db)
    else (run_found quality_not_found_error (get_eval_run run_id db'), db')
