-- ===== src/Quality/Records.antt =====
-- The rows that the quality repository keeps for evaluations (knowledge/quality/models.py and the
-- tables of knowledge/quality/repository.py). Timestamps, durations and scores are whole numbers of
-- a fixed small unit. Left out are the columns `config_snapshot`, `judge` and `case_snapshot`, on
-- which no operation depends, and the `uuid4()` ids of results, which are named by run and case.
use its_middle_platform_agen.Prelude.{ℕ, String, Bool, Option, List, ◌&&◌, ◌==◌}
use its_middle_platform_agen.Prelude.Result.{Result}
use its_middle_platform_agen.Prelude.Table.TextKey.{has_key}

-- What the methods raise; `run_time_error` also for `next` of nothing, `cancelled_error` when the
-- task is cancelled.
pub data QualityError : Type 0 where
  quality_not_found_error : QualityError
  blank_value_error : QualityError
  constraint_error : QualityError
  run_time_error : QualityError
  cancelled_error : QualityError

pub record EvalCaseCreate : Type 0 where
  pub name : String
  pub question : String
  pub source_turn_id : Option String
  pub knowledge_space_id : String
  pub domain_id : Option String
  pub required_tools : List String
  pub required_citation_types : List String
  pub required_facts : List String
  pub forbidden_facts : List String
  pub tags : List String
  pub enabled : Bool
  pub expected_behavior : String
  pub max_latency_ms : ℕ
  pub max_tool_calls : ℕ
  pub max_citations : ℕ
  pub turns : List String
  pub task_type : String
  pub suite : String
  pub priority : String
  pub approval_state : String

pub record EvalCase : Type 0 where
  pub id : String
  pub source_turn_id : Option String
  pub name : String
  pub question : String
  pub knowledge_space_id : String
  pub domain_id : Option String
  pub required_tools : List String
  pub required_citation_types : List String
  pub required_facts : List String
  pub forbidden_facts : List String
  pub tags : List String
  pub enabled : Bool
  pub expected_behavior : String
  pub max_latency_ms : ℕ
  pub max_tool_calls : ℕ
  pub max_citations : ℕ
  pub created_at : ℕ
  pub updated_at : ℕ
  pub turns : List String
  pub task_type : String
  pub suite : String
  pub priority : String
  pub approval_state : String
  pub version : ℕ

pub record EvalRun : Type 0 where
  pub id : String
  pub status : String
  pub application_version : String
  pub provider : String
  pub model_name : String
  pub total_cases : ℕ
  pub passed_cases : ℕ
  pub failed_cases : ℕ
  pub case_ids : List String
  pub cancel_requested : Bool
  pub current_case : ℕ
  pub created_at : ℕ
  pub updated_at : ℕ
  pub completed_at : Option ℕ

pub record EvalResult : Type 0 where
  pub run_id : String
  pub case_id : String
  pub status : String
  pub answer : Option String
  pub last_agent : String
  pub tool_names : List String
  pub citation_types : List String
  pub duration_ms : Option ℕ
  pub checks : List (String × Bool)
  pub passed : Bool
  pub error_type : Option String
  pub created_at : ℕ
  pub judge_score : Option ℕ
  pub failure_codes : List String
  pub review_state : String

-- The tables `eval_cases`, `eval_runs` and `eval_results`.
pub record Evaluations : Type 0 where
  pub cases : List EvalCase
  pub runs : List EvalRun
  pub results : List EvalResult

-- A method's result or exception beside the tables that it leaves.
abbrev pub Outcome : Type 0 → Type 0
Outcome A = Result QualityError A × Evaluations

abbrev pub case_key : EvalCase → String
case_key c = c.id

abbrev pub run_key : EvalRun → String
run_key r = r.id

-- The columns of `UNIQUE(run_id, case_id)`.
abbrev pub result_key : EvalResult → String × String
result_key r = (r.run_id, r.case_id)

abbrev pub case_by_id : String → EvalCase → Bool
case_by_id case_id c = has_key case_key case_id c

abbrev pub run_by_id : String → EvalRun → Bool
run_by_id run_id r = has_key run_key run_id r

abbrev pub result_by : String × String → EvalResult → Bool
result_by k r = r.run_id == k.0 && r.case_id == k.1

abbrev pub result_of_run : String → EvalResult → Bool
result_of_run run_id r = r.run_id == run_id

abbrev pub result_of_case : String → EvalResult → Bool
result_of_case case_id r = r.case_id == case_id
