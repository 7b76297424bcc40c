-- ===== src/Tests/Quality.antt =====
-- Evaluations at concrete cases, runs and results.
use its_middle_platform_agen.Quality.Postgres.{
  created_key, claim_first_eval_run-claim_next_eval_run, created_at_time, claim_first_eval_run,
}
use its_middle_platform_agen.Prelude.Table.Keys.{Unique}
use its_middle_platform_agen.Quality.Evaluation.Totals.{run_cases-total}
use its_middle_platform_agen.Quality.Results.{is_passed_of}
use its_middle_platform_agen.Quality.Evaluation.Completing.{final_status}
use its_middle_platform_agen.Quality.Evaluation.Counting.{HasResult, undisturbed}
use its_middle_platform_agen.Quality.Worker.Finishing.{
  claim_and_evaluate-ends, end_status, existing,
}
use its_middle_platform_agen.Quality.Behavior.{behavior_matches}
use its_middle_platform_agen.Quality.Worker.Days.{rounds-bounded, left, rounds, run_count}
use its_middle_platform_agen.Quality.Worker.{evaluated, claim_and_evaluate, Schedule, Moment}
use its_middle_platform_agen.Quality.Judging.Passing.{assess-passed, agrees, IsExplained}
use its_middle_platform_agen.Quality.Evaluation.Explaining.{run_case-Saves, HasRows, Saves}
use its_middle_platform_agen.Quality.Judging.{
  case_checks, verdict, failed_names, Judged, assess, AgentResponse,
}
use its_middle_platform_agen.Quality.Evaluation.Saving.{is_cancelled}
use its_middle_platform_agen.Prelude.Table.{
  update_where, count_where, insert_by, order_by, select_all, select_one,
}
use its_middle_platform_agen.Quality.Runs.{
  update_eval_progress, claim_next_eval_run, next_queued, new_run, get_eval_run,
}
use its_middle_platform_agen.Prelude.{
  All, ◌&&◌, ◌≤◌, starts_with, contains, is_nil, ◌+◌, ◌==◌, if◌then◌else◌, Bool-cases, Bool, String,
  ℕ, ◌≡◌, none, some, [], ◌∷◌, true, false, inl, inr, refl,
}
use its_middle_platform_agen.Prelude.Result.{ok, err}
use its_middle_platform_agen.Quality.Records.{
  EvalResult, quality_not_found_error, Evaluations, EvalRun, EvalCase, Outcome,
}
use its_middle_platform_agen.Quality.Invariant.{IsValid}
use its_middle_platform_agen.Quality.Evaluation.{
  run_case, run_cases, answered, Ending, select_cases, Deployment, raised,
}

abbrev metric_case : String → Bool → ℕ → EvalCase
metric_case case_id enabled created_at = record {
  id = case_id;
  source_turn_id = none;
  name = "metric";
  question = "which metric?";
  knowledge_space_id = "middle-platform";
  domain_id = none;
  required_tools = "query_metric" ∷ [];
  required_citation_types = [];
  required_facts = [];
  forbidden_facts = [];
  tags = [];
  enabled = enabled;
  expected_behavior = "answer";
  max_latency_ms = 60000;
  max_tool_calls = 6;
  max_citations = 10;
  created_at = created_at;
  updated_at = created_at;
  turns = [];
  task_type = "unknown";
  suite = "routing-breadth";
  priority = "normal";
  approval_state = "approved";
  version = 1;
}

abbrev first_case : EvalCase
first_case = metric_case "case-1" true 1

abbrev second_case : EvalCase
second_case = metric_case "case-2" true 2

abbrev queued_run : EvalRun
queued_run = new_run "run-0" "queued" "1.0" "deepseek" "chat" ("case-1" ∷ []) 1 3

abbrev three_cases : Evaluations
three_cases = record {
  cases = first_case ∷ second_case ∷ metric_case "case-3" false 3 ∷ [];
  runs = queued_run ∷ [];
  results = [];
}

three_cases-IsValid : IsValid three_cases
unfolding select_one
three_cases-IsValid = record {
  cases_unique = (refl, (refl, (refl, tt)));
  runs_unique = (refl, tt);
  results_unique = tt;
  linked = tt;
}

-- The first case is answered, the second one fails.
abbrev answer_first : EvalCase → Ending
answer_first c =
    if c.id == "case-1"
    then answered
        (record {
          status = "completed";
          answer = some "42";
          last_agent = "metrics";
          tool_runs = ("query_metric", "completed") ∷ [];
          citations = [];
        })
        900
    else raised "TimeoutError" 120000

answer_first_ends : (c : EvalCase) → is_cancelled (answer_first c) ≡ false
answer_first_ends c = elim (Bool-cases (c.id == "case-1")) [ inl e ↦ rw e refl | inr e ↦ rw e refl ]

abbrev plain : Deployment
plain = record { application_version = "1.0"; provider = "deepseek"; model_name = "chat" }

abbrev unfolded : String → String
unfolded s = s

three_cases_chosen : select_cases none three_cases ≡ ok (second_case ∷ first_case ∷ [])
unfolding select_cases select_all order_by insert_by
three_cases_chosen = refl

run-0_chosen : select_cases (some ("case-1" ∷ [])) three_cases ≡ ok (first_case ∷ [])
unfolding select_cases select_all order_by insert_by
run-0_chosen = refl

run-1_fresh : get_eval_run "run-1" three_cases ≡ none
unfolding get_eval_run select_one
run-1_fresh = refl

run_cases-total_example :
    (r : EvalRun) × (db' : Evaluations) × (run_cases unfolded none
        (undisturbed answer_first)
        (λ i. i)
        plain
        none
        "run-1"
        5
        three_cases
      ≡ (ok r, db'))
    × (r.total_cases ≡ 2)
    × (r.passed_cases + r.failed_cases ≡ r.total_cases)
    × (r.status ≡ final_status r.failed_cases)
    × (r.passed_cases ≡ count_where (is_passed_of "run-1") db'.results)
    × All (HasResult db'.results "run-1") (second_case ∷ first_case ∷ [])
run_cases-total_example =
    run_cases-total unfolded none answer_first (λ i. i) answer_first_ends plain none "run-1" 5
      three_cases (second_case ∷ first_case ∷ []) three_cases-IsValid three_cases_chosen run-1_fresh

-- Another service writes the progress of the run while the agent answers.
abbrev meddling : EvalCase → Evaluations → Ending × Evaluations
meddling c db = (answer_first c, update_eval_progress "run-0" 7 6 db)

meddling_there : HasRows "run-0" first_case (meddling first_case three_cases).1
unfolding select_one update_eval_progress update_where
meddling_there = (refl, refl)

run_case-Saves_example :
    Saves
      ("run-0", "case-1")
      (meddling first_case three_cases).1
      (run_case unfolded none meddling (λ i. i) "run-0" 5 first_case three_cases)
run_case-Saves_example =
    run_case-Saves unfolded none meddling (λ i. i) "run-0" 5 first_case three_cases
      (answer_first_ends first_case) meddling_there

abbrev at_two : ℕ → Moment
at_two now = record {
  day = "2026-03-01";
  weekday = 6;
  hour = 2;
  minute = 0;
  now = now;
  daily_id = "daily";
  weekly_id = "weekly";
}

abbrev no_day : Schedule
no_day = record { last_daily = ""; last_weekly = "" }

abbrev evaluate_none : String → Evaluations → Outcome EvalRun
evaluate_none id db = (err quality_not_found_error, db)

abbrev two_rounds : Schedule × Evaluations
two_rounds =
    rounds evaluate_none (λ id db. refl) plain true (at_two 7 ∷ at_two 8 ∷ []) no_day three_cases

rounds-bounded_example : run_count two_rounds.1 + left "2026-03-01" two_rounds.0 ≤ 3
rounds-bounded_example =
    rounds-bounded evaluate_none (λ id db. refl) plain true "2026-03-01" (at_two 7 ∷ at_two 8 ∷ [])
      no_day three_cases (refl, (refl, tt))

run-0_next : next_queued three_cases.runs ≡ some queued_run
unfolding next_queued
run-0_next = refl

claim_and_evaluate-ends_example :
    (db' : Evaluations) × (after : EvalRun) × (claim_and_evaluate
        (existing unfolded none answer_first (λ i. i) answer_first_ends)
        4
        three_cases
      ≡ (evaluated, db'))
    × (get_eval_run "run-0" db' ≡ some after)
    × (after.status ≡ end_status queued_run after)
claim_and_evaluate-ends_example =
    claim_and_evaluate-ends unfolded none answer_first (λ i. i) answer_first_ends 4 three_cases
      queued_run (first_case ∷ []) three_cases-IsValid run-0_next run-0_chosen tt

abbrev good_answer : AgentResponse
good_answer = record {
  status = "completed";
  answer = some "42";
  last_agent = "metrics";
  tool_runs = ("query_metric", "completed") ∷ ("search", "skipped") ∷ [];
  citations = [];
}

abbrev doubtful : EvalCase → AgentResponse → Judged
doubtful c response = verdict 79999 true false

doubtful_row :
    (r : EvalResult) × (assess unfolded (some doubtful) "run-0" first_case good_answer 900 5 ≡ ok r)
unfolding assess behavior_matches contains starts_with
doubtful_row = (_, refl)

assess-passed_example :
    IsExplained doubtful_row.0
    × (doubtful_row.0.passed ≡ (
        is_nil (failed_names (case_checks unfolded true first_case good_answer 900))
        && agrees (some doubtful) first_case good_answer))
assess-passed_example =
    assess-passed unfolded (some doubtful) "run-0" first_case good_answer 900 5 doubtful_row.0
      doubtful_row.1

three_cases_times : Unique created_at_time created_key three_cases.runs
unfolding select_one
three_cases_times = (refl, tt)

claim_first_eval_run-claim_next_eval_run_example :
    claim_first_eval_run 4 three_cases ≡ claim_next_eval_run 4 three_cases
claim_first_eval_run-claim_next_eval_run_example =
    claim_first_eval_run-claim_next_eval_run 4 three_cases three_cases-IsValid three_cases_times
