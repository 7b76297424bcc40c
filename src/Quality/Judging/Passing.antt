-- ===== src/Quality/Judging/Passing.antt =====
-- Which results pass (knowledge/quality/evaluation.py).
use its_middle_platform_agen.Quality.Judging.{
  with_judge, judge_timed_out, judge_failed, judge_raised, verdict_passes, verdict, case_checks,
  failed_names, checked_result, assess, AgentResponse, judged_result, Judged,
}
use its_middle_platform_agen.Quality.Records.{EvalCase, EvalResult}
use its_middle_platform_agen.Prelude.{
  arith, ◌&&◌, is_some, ◌||◌, ◌==◌, not, is_nil, Bool, String, Option, ℕ, ◌≡◌, none, some, true,
  false, refl,
}
use its_middle_platform_agen.Prelude.Result.{ok}

-- A result passes exactly when it names no failure.
abbrev pub IsExplained : EvalResult → Type 0
IsExplained r = r.passed ≡ is_nil r.failure_codes

abbrev pub verdict_agrees : Judged → Bool
verdict_agrees (verdict score supported contradiction) =
    verdict_passes score supported contradiction
verdict_agrees judge_failed = false
verdict_agrees judge_timed_out = false
verdict_agrees (judge_raised error_type duration) = false

-- The judge's say in a case: none where it is not asked.
abbrev pub agrees : Option (EvalCase → AgentResponse → Judged) → EvalCase → AgentResponse → Bool
agrees none c response = true
agrees (some judge) c response =
    not (c.expected_behavior == "answer") || verdict_agrees (judge c response)

judged_result_lem :
    (c : EvalCase) (r out : EvalResult) (j : Judged)
    → is_nil r.failure_codes ≡ true
    → judged_result c r j ≡ ok out
    → IsExplained out × (out.passed ≡ verdict_agrees j)
unfolding judged_result
judged_result_lem c r out (verdict score supported contradiction) clean h = ground arith
judged_result_lem c r out judge_failed clean h = ground arith
judged_result_lem c r out judge_timed_out clean h = ground arith
judged_result_lem c r out (judge_raised error_type duration) clean h = absurd (ground arith)

with_judge_lem :
    (judge : Option (EvalCase → AgentResponse → Judged)) (c : EvalCase) (response : AgentResponse)
    (r out : EvalResult)
    → IsExplained r
    → with_judge judge c response r ≡ ok out
    → IsExplained out × (out.passed ≡ (r.passed && agrees judge c response))
unfolding with_judge
with_judge_lem none c response r out e h = ground arith
with_judge_lem (some judge) c response r out e h =
    ground (arith, judged_result_lem c r out (judge c response))

module _ (casefold : String → String) (judge : Option (EvalCase → AgentResponse → Judged)) where
  -- The result of an answered case passes exactly when it names no failure code, and exactly when
  -- every check of the answer holds and the judge, where it is asked, agrees.
  pub assess-passed :
      (run_id : String) (c : EvalCase) (response : AgentResponse) (duration now : ℕ)
      (r : EvalResult)
      → assess casefold judge run_id c response duration now ≡ ok r
      → IsExplained r
        × (r.passed ≡ (
            is_nil (failed_names (case_checks casefold (is_some judge) c response duration))
            && agrees judge c response))
  unfolding assess checked_result
  assess-passed run_id c response duration now r h =
      with_judge_lem judge c response
        (checked_result casefold (is_some judge) run_id c response duration now) r refl h
