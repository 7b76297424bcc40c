-- ===== src/Quality/Evaluation/Completing.antt =====
-- The completion of a run that is stored (knowledge/quality/repository.py).
use its_middle_platform_agen.Prelude.Table.Laws.{count_where-zero-select_one, select_one-true}
use its_middle_platform_agen.Prelude.Table.Orders.{count_where-and-le}
use its_middle_platform_agen.Prelude.Table.Keys.{select_one-update_where}
use its_middle_platform_agen.Prelude.Table.{update_where, count_where, select_one}
use its_middle_platform_agen.Quality.Runs.{get_eval_run}
use its_middle_platform_agen.Quality.Results.{finished_run, is_passed_of, complete_eval_run}
use its_middle_platform_agen.Prelude.{
  arith, Bool-cases, ◌+◌, eqb, if◌then◌else◌, List, String, ℕ, ◌≡◌, none, some, inl, inr, refl,
}
use its_middle_platform_agen.Prelude.Result.{ok}
use its_middle_platform_agen.Quality.Records.{
  result_of_run, run_by_id, Evaluations, EvalResult, EvalRun,
}

-- A run that is stored under its id, and is still there after an `UPDATE` of it.
pub get_eval_run-update :
    (run_id : String) (set : EvalRun → EvalRun) (rs : List EvalRun) (latest : EvalRun)
    → ((r : EvalRun) → (set r).id ≡ r.id)
    → select_one (run_by_id run_id) rs ≡ some latest
    → select_one (run_by_id run_id) (update_where (run_by_id run_id) set rs) ≡ some (set latest)
get_eval_run-update run_id set rs latest keep found =
    rw (select_one-update_where run_by_id run_id (run_by_id run_id) set rs (λ r. rw (keep r) refl))
      (rw found (rw (select_one-true (run_by_id run_id) rs found) refl))

abbrev pub final_status : ℕ → String
final_status failed = if eqb failed 0 then "completed" else "completed_with_failures"

-- The row that a completion leaves, by the results `rs` of the run.
pub record IsFinal (run_id : String) (rs : List EvalResult) (r : EvalRun) : Type 0 where
  pub passed : r.passed_cases ≡ count_where (is_passed_of run_id) rs
  pub sum : r.passed_cases + r.failed_cases ≡ count_where (result_of_run run_id) rs
  pub status : r.status ≡ final_status r.failed_cases

pub complete_eval_run-found :
    (run_id : String) (now : ℕ) (db : Evaluations) (latest : EvalRun)
    → get_eval_run run_id db ≡ some latest
    → (r : EvalRun) × (db' : Evaluations) × (complete_eval_run run_id now db ≡ (ok r, db'))
      × (get_eval_run run_id db' ≡ some r)
      × (db'.results ≡ db.results)
      × (r.total_cases ≡ latest.total_cases)
      × IsFinal run_id db.results r
unfolding complete_eval_run get_eval_run
complete_eval_run-found run_id now db latest found =
    let total = count_where (result_of_run run_id) db.results in
    let passed = count_where (is_passed_of run_id) db.results in
    let set : EvalRun → EvalRun = finished_run total passed now in
    let e = get_eval_run-update run_id set db.runs latest (λ r. refl) found in
    let le = count_where-and-le (result_of_run run_id) (λ r. r.passed) db.results in
    elim (Bool-cases (eqb (count_where (run_by_id run_id) db.runs) 0)) [
      | inl zero' ↦
          let missing = count_where-zero-select_one (run_by_id run_id) db.runs (ground arith) in
          let bad : some latest ≡ none = rw found at missing in absurd (ground arith)
      | inr some' ↦ (
        set latest,
        record db { runs = update_where (run_by_id run_id) set db.runs },
        rw some' (rw e refl),
        e,
        refl,
        refl,
        record { passed = refl; sum = omega (arith, le); status = refl },
      )
    ]
