-- ===== src/Quality/Evaluation.antt =====
-- `QualityEvaluationService` (knowledge/quality/evaluation.py): the choice of cases and the loop over
-- them. The agent's answer to a case, with all that others do to the tables while the case is
-- evaluated, is the parameter `chat`; `clock i` is the time in the round of case i.
pub mod Saving
pub mod Completing
pub mod Counting
pub mod Totals
pub mod Explaining
use its_middle_platform_agen.Prelude.Table.{select_all}
use its_middle_platform_agen.Quality.Results.{
  complete_eval_run, save_eval_result, list_eval_results,
}
use its_middle_platform_agen.Quality.Cases.{list_eval_cases}
use its_middle_platform_agen.Quality.Runs.{
  update_eval_progress, mark_eval_run_cancelled, new_run, get_eval_run, create_eval_run,
}
use its_middle_platform_agen.Quality.Judging.{error_result, assess, member, Judged, AgentResponse}
use its_middle_platform_agen.Prelude.{
  ◌+◌, is_nil, length, is_some, eqb, not, Bool, if◌then◌else◌, Option, String, List, ℕ, none, some,
  [], ◌∷◌, true,
}
use its_middle_platform_agen.Prelude.Result.{Result, ok, err}
use its_middle_platform_agen.Quality.Records.{
  run_time_error, cancelled_error, constraint_error, blank_value_error, Evaluations, EvalRun,
  quality_not_found_error, EvalCase, QualityError, EvalResult, Outcome,
}

-- How `_execute_turns` ends under `wait_for`: with a response and the time that it took, with an
-- exception and the time until then, or by the cancellation of the task.
pub data Ending : Type 0 where
  answered : AgentResponse → ℕ → Ending
  raised : String → ℕ → Ending
  cancelled : Ending

abbrev pub distinct : List String → List String
distinct [] = []
distinct (x ∷ xs) = let rest = distinct xs in if member x xs then rest else x ∷ rest

abbrev pub is_selected : List String → EvalCase → Bool
is_selected ids c = member c.id ids

abbrev pub some_cases : List EvalCase → Result QualityError (List EvalCase)
some_cases [] = err blank_value_error
some_cases (c ∷ cs) = ok (c ∷ cs)

-- `_select_cases`.
unfoldable pub select_cases :
    Option (List String) → Evaluations → Result QualityError (List EvalCase)
unfolding list_eval_cases
select_cases case_ids db =
    let available = list_eval_cases (some true) db in
    elim case_ids [
      | none ↦ some_cases available
      | some ids ↦
          let chosen = select_all (is_selected ids) available in
          if eqb (length chosen) (length (distinct ids))
          then some_cases chosen
          else err quality_not_found_error
    ]

abbrev pub case_ids_of : List EvalCase → List String
case_ids_of [] = []
case_ids_of (c ∷ cs) = c.id ∷ case_ids_of cs

-- The versions and names that the service is made with.
pub record Deployment : Type 0 where
  pub application_version : String
  pub provider : String
  pub model_name : String

abbrev pub run_for : Deployment → String → String → List EvalCase → ℕ → EvalRun
run_for d run_id status cases now =
    new_run run_id status d.application_version d.provider d.model_name (case_ids_of cases)
      (length cases) now

unfoldable pub queue_cases :
    Deployment → Option (List String) → String → ℕ → Evaluations → Outcome EvalRun
unfolding select_cases create_eval_run
queue_cases d case_ids run_id now db = elim (select_cases case_ids db) [
  | err e ↦ (err e, db)
  | ok cases ↦ create_eval_run (run_for d run_id "queued" cases now) db
]

abbrev pub failed_ids : List EvalResult → List String
failed_ids [] = []
failed_ids (r ∷ rs) = let rest = failed_ids rs in if r.passed then rest else r.case_id ∷ rest

-- `run_id` is that of the run, `new_id` that of the new one.
unfoldable pub retry_failed : Deployment → String → String → ℕ → Evaluations → Outcome EvalRun
unfolding get_eval_run list_eval_results queue_cases
retry_failed d run_id new_id now db =
    let ids = failed_ids (list_eval_results run_id db) in
    if not (is_some (get_eval_run run_id db))
    then (err quality_not_found_error, db)
    else if is_nil ids
    then (err blank_value_error, db)
    else queue_cases d (some ids) new_id now db

-- The name of the class of an exception that saving raises.
abbrev pub error_name : QualityError → String
error_name quality_not_found_error = "QualityNotFoundError"
error_name blank_value_error = "ValueError"
error_name constraint_error = "IntegrityError"
error_name run_time_error = "RuntimeError"
error_name cancelled_error = "CancelledError"

abbrev pub saved : Outcome EvalResult → Outcome Unit
saved (ok r, db) = (ok tt, db)
saved (err e, db) = (err e, db)

-- The `try` holds the call that saves the result too; the time of the case is not read again.
abbrev pub saved_or_error : String → EvalCase → ℕ → ℕ → Outcome EvalResult → Outcome Unit
saved_or_error run_id c duration now (ok r, db) = (ok tt, db)
saved_or_error run_id c duration now (err e, db) =
    saved (save_eval_result (error_result run_id c (error_name e) duration now) db)

abbrev pub save_assessed :
    String → EvalCase → ℕ → ℕ → Result (String × ℕ) EvalResult → Evaluations → Outcome Unit
save_assessed run_id c duration now (ok r) db =
    saved_or_error run_id c duration now (save_eval_result r db)
save_assessed run_id c duration now (err (error_type, until)) db =
    saved (save_eval_result (error_result run_id c error_type until now) db)

-- What `_run_case` saves for the end of a case.
unfoldable pub save_ending :
    (String → String)
    → Option (EvalCase → AgentResponse → Judged)
    → String
    → ℕ
    → EvalCase
    → Ending
    → Evaluations
    → Outcome Unit
unfolding assess error_result
save_ending casefold judge run_id now c (answered response duration) db =
    save_assessed run_id c duration now (assess casefold judge run_id c response duration now) db
save_ending casefold judge run_id now c (raised error_type duration) db =
    saved (save_eval_result (error_result run_id c error_type duration now) db)
save_ending casefold judge run_id now c cancelled db = (err cancelled_error, db)

module _ (casefold : String → String) (judge : Option (EvalCase → AgentResponse → Judged))
    (chat : EvalCase → Evaluations → Ending × Evaluations) (clock : ℕ → ℕ) where
  -- `_run_case`.
  unfoldable pub run_case : String → ℕ → EvalCase → Evaluations → Outcome Unit
  unfolding save_ending
  run_case run_id now c db =
      let (ending, db') = chat c db in save_ending casefold judge run_id now c ending db'

  abbrev pub after_case : (Evaluations → Outcome EvalRun) → Outcome Unit → Outcome EvalRun
  after_case next (ok done, db) = next db
  after_case next (err e, db) = (err e, db)

  -- `_run_selected` from case `index` on.
  unfoldable pub run_selected : String → ℕ → List EvalCase → Evaluations → Outcome EvalRun
  unfolding run_case complete_eval_run get_eval_run mark_eval_run_cancelled update_eval_progress
  run_selected run_id index [] db = complete_eval_run run_id (clock index) db
  run_selected run_id index (c ∷ cs) db =
      let next = run_selected run_id (index + 1) cs in
      elim (get_eval_run run_id db) [
        | none ↦ (err quality_not_found_error, db)
        | some latest ↦
            if latest.cancel_requested
            then mark_eval_run_cancelled run_id (clock index) db
            else after_case next (
                run_case run_id (clock index) c
                  (update_eval_progress run_id index (clock index) db))
      ]

  abbrev pub run_created : List EvalCase → Outcome EvalRun → Outcome EvalRun
  run_created cases (err e, db) = (err e, db)
  run_created cases (ok r, db) = run_selected r.id 1 cases db

  unfoldable pub run_cases :
      Deployment → Option (List String) → String → ℕ → Evaluations → Outcome EvalRun
  unfolding select_cases create_eval_run run_selected
  run_cases d case_ids run_id now db = elim (select_cases case_ids db) [
    | err e ↦ (err e, db)
    | ok cases ↦ run_created cases (create_eval_run (run_for d run_id "running" cases now) db)
  ]

  unfoldable pub run_existing : String → Evaluations → Outcome EvalRun
  unfolding get_eval_run select_cases run_selected
  run_existing run_id db = elim (get_eval_run run_id db) [
    | none ↦ (err quality_not_found_error, db)
    | some r ↦ elim (select_cases (some r.case_ids) db) [
      | err e ↦ (err e, db)
      | ok cases ↦ run_selected r.id 1 cases db
    ]
  ]
