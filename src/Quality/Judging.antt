-- ===== src/Quality/Judging.antt =====
-- How `QualityEvaluationService._run_case` (knowledge/quality/evaluation.py) turns an agent's answer
-- into a result: the checks, and what the semantic judge adds. `casefold` is Python's, and `judge`
-- what `DeepSeekSemanticJudge.judge` gives for a case and a response, with its evidence.
pub mod Passing
use its_middle_platform_agen.Quality.Behavior.{behavior_matches}
use its_middle_platform_agen.Quality.Records.{EvalResult, EvalCase}
use its_middle_platform_agen.Prelude.{
  starts_with, ltb, ◌||◌, length, is_some, is_nil, ◌++◌, ◌*◌, not, leb, if◌then◌else◌, contains,
  ◌==◌, ◌&&◌, String, Option, List, Bool, ℕ, none, some, [], ◌∷◌, true, false,
}
use its_middle_platform_agen.Prelude.Result.{Result, ok, err}

-- The attributes that are read of a response: a tool run has a name and a status, and a citation
-- is its `source_type`.
pub record AgentResponse : Type 0 where
  pub status : String
  pub answer : Option String
  pub last_agent : String
  pub tool_runs : List (String × String)
  pub citations : List String

-- How the judge ends: with a score and two flags, with its own error, by its time limit, or with any
-- other exception and the time that the case took until then.
pub data Judged : Type 0 where
  verdict : ℕ → Bool → Bool → Judged
  judge_failed : Judged
  judge_timed_out : Judged
  judge_raised : String → ℕ → Judged

-- A score of 1: scores come in thousandths.
abbrev pub score_unit : ℕ
score_unit = 1000

abbrev pub or_empty : Option String → String
or_empty none = ""
or_empty (some s) = s

abbrev pub counted_tools : List (String × String) → List String
counted_tools [] = []
counted_tools ((name, status) ∷ ts) =
    let rest = counted_tools ts in if status == "skipped" then rest else name ∷ rest

abbrev pub member : String → List String → Bool
member s [] = false
member s (t ∷ ts) = t == s || member s ts

-- `set(xs).issubset(ys)`.
abbrev pub subset : List String → List String → Bool
subset [] ys = true
subset (x ∷ xs) ys = member x ys && subset xs ys

abbrev pub failed_names : List (String × Bool) → List String
failed_names [] = []
failed_names ((name, holds) ∷ cs) =
    let rest = failed_names cs in if holds then rest else name ∷ rest

abbrev pub code_if : Bool → String → List String
code_if true code = code ∷ []
code_if false code = []

module _ (casefold : String → String) where
  -- `all(fact.casefold() in normalized_answer for fact in facts)`.
  abbrev pub all_in : List String → String → Bool
  all_in [] answer = true
  all_in (f ∷ fs) answer = contains (casefold f) answer && all_in fs answer

  abbrev pub none_in : List String → String → Bool
  none_in [] answer = true
  none_in (f ∷ fs) answer = not (contains (casefold f) answer) && none_in fs answer

  unfoldable pub case_checks : Bool → EvalCase → AgentResponse → ℕ → List (String × Bool)
  unfolding behavior_matches
  case_checks has_judge c response duration =
      let answer = or_empty response.answer in
      let tool_names = counted_tools response.tool_runs in
      let folded = casefold answer in
      ("status", response.status == "completed")
      ∷ ("required_tools", subset c.required_tools tool_names)
      ∷ ("required_citations", subset c.required_citation_types response.citations)
      ∷ (
        "required_facts",
        (if c.suite == "critical-v2" && has_judge then true else all_in c.required_facts folded),
      )
      ∷ ("forbidden_facts", none_in c.forbidden_facts folded)
      ∷ ("behavior", behavior_matches c.expected_behavior answer tool_names)
      ∷ ("tool_count", leb (length tool_names) c.max_tool_calls)
      ∷ ("citation_count", leb (length response.citations) c.max_citations)
      ∷ ("latency", leb duration c.max_latency_ms)
      ∷ (
        "deployment_wording",
        not (member "code" response.citations && starts_with "本次检索暂未找到该能力的明确实现" answer),
      )
      ∷ []

  -- The result before a judge sees it.
  unfoldable pub checked_result : Bool → String → EvalCase → AgentResponse → ℕ → ℕ → EvalResult
  unfolding case_checks
  checked_result has_judge run_id c response duration now =
      let checks = case_checks has_judge c response duration in
      record {
        run_id = run_id;
        case_id = c.id;
        status = response.status;
        answer = some (or_empty response.answer);
        last_agent = response.last_agent;
        tool_names = counted_tools response.tool_runs;
        citation_types = response.citations;
        duration_ms = some duration;
        checks = checks;
        passed = is_nil (failed_names checks);
        error_type = none;
        created_at = now;
        judge_score = none;
        failure_codes = failed_names checks;
        review_state = "not_required";
      }

-- `judge_score >= 80 and facts_supported and no_contradiction`.
abbrev pub verdict_passes : ℕ → Bool → Bool → Bool
verdict_passes score facts_supported contradiction =
    leb (80 * score_unit) score && (facts_supported && not contradiction)

-- What the judge's end makes of a result that passed its checks.
unfoldable pub judged_result : EvalCase → EvalResult → Judged → Result (String × ℕ) EvalResult
judged_result c r (verdict score facts_supported contradiction) = ok (record r {
  passed = verdict_passes score facts_supported contradiction;
  failure_codes =
      r.failure_codes
      ++ (code_if (not facts_supported) "evidence_support"
          ++ (code_if contradiction "critical_contradiction"
              ++ code_if (ltb score (80 * score_unit)) "semantic_score"));
  judge_score = some score;
  review_state =
      if leb (70 * score_unit) score && leb score (84 * score_unit)
      then "review_required"
      else r.review_state;
  checks =
      if c.suite == "critical-v2"
      then r.checks ++ ("required_facts_supported", facts_supported) ∷ []
      else r.checks;
})
judged_result c r judge_failed = ok (record r {
  passed = false;
  failure_codes = r.failure_codes ++ "judge_error" ∷ [];
  review_state = "review_required";
})
judged_result c r judge_timed_out = ok (record r {
  passed = false;
  failure_codes = r.failure_codes ++ "judge_timeout" ∷ [];
  review_state = "review_required";
})
judged_result c r (judge_raised error_type duration) = err (error_type, duration)

-- The judge is asked for answers that pass their checks alone.
unfoldable pub with_judge :
    Option (EvalCase → AgentResponse → Judged)
    → EvalCase
    → AgentResponse
    → EvalResult
    → Result (String × ℕ) EvalResult
unfolding judged_result
with_judge none c response r = ok r
with_judge (some judge) c response r =
    if r.passed && c.expected_behavior == "answer"
    then judged_result c r (judge c response)
    else ok r

-- The result of an answer, or the type of the exception that the judge's call let through.
unfoldable pub assess :
    (String → String)
    → Option (EvalCase → AgentResponse → Judged)
    → String
    → EvalCase
    → AgentResponse
    → ℕ
    → ℕ
    → Result (String × ℕ) EvalResult
unfolding checked_result with_judge
assess casefold judge run_id c response duration now =
    with_judge judge c response
      (checked_result casefold (is_some judge) run_id c response duration now)

abbrev pub failed_checks : List (String × Bool)
failed_checks =
    ("status", false)
    ∷ ("required_tools", false)
    ∷ ("required_citations", false)
    ∷ ("required_facts", false)
    ∷ ("forbidden_facts", true)
    ∷ ("behavior", false)
    ∷ ("tool_count", false)
    ∷ ("citation_count", false)
    ∷ ("latency", false)
    ∷ ("deployment_wording", true)
    ∷ []

-- The row of the `except` branch; `_optional` strips a class's name in vain.
unfoldable pub error_result : String → EvalCase → String → ℕ → ℕ → EvalResult
error_result run_id c error_type duration now = record {
  run_id = run_id;
  case_id = c.id;
  status = "error";
  answer = none;
  last_agent = "";
  tool_names = [];
  citation_types = [];
  duration_ms = some duration;
  checks = failed_checks;
  passed = false;
  error_type = some error_type;
  created_at = now;
  judge_score = none;
  failure_codes = error_type ∷ [];
  review_state = "not_required";
}
