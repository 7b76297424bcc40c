-- ===== src/Quality/Worker.antt =====
-- `QualityEvalWorker` (knowledge/quality/worker.py): the queueing of the daily and the weekly suite,
-- and the body of its loop. The readings of the clock and the `uuid4()` ids are parameters; the
-- waiting between two rounds is left out.
pub mod Days
pub mod Claiming
pub mod Finishing
use its_middle_platform_agen.Quality.Cases.{list_eval_cases}
use its_middle_platform_agen.Prelude.Table.{select_all}
use its_middle_platform_agen.Quality.Judging.{member}
use its_middle_platform_agen.Quality.Runs.{claim_next_eval_run}
use its_middle_platform_agen.Quality.Evaluation.{queue_cases, case_ids_of, Deployment}
use its_middle_platform_agen.Prelude.{
  Option, not, is_nil, if◌then◌else◌, ◌&&◌, eqb, List, ◌==◌, String, Bool, ℕ, none, some, true,
}
use its_middle_platform_agen.Prelude.Result.{Result, ok, err}
use its_middle_platform_agen.Quality.Records.{
  cancelled_error, Evaluations, QualityError, EvalRun, EvalCase, Outcome,
}

-- A reading of the clock: the date, the time and the weekday from Monday, 0, on; `now` is the
-- repository's timestamp.
pub record Moment : Type 0 where
  pub day : String
  pub weekday : ℕ
  pub hour : ℕ
  pub minute : ℕ
  pub now : ℕ
  pub daily_id : String
  pub weekly_id : String

-- `_last_daily` and `_last_weekly`.
pub record Schedule : Type 0 where
  pub last_daily : String
  pub last_weekly : String

abbrev pub is_official : EvalCase → Bool
is_official c =
    c.priority == "critical"
    && c.approval_state == "approved"
    && member "official-critical-v2" c.tags

abbrev pub is_approved : EvalCase → Bool
is_approved c = c.approval_state == "approved"

abbrev pub daily_due : Moment → Schedule → Bool
daily_due m s = eqb m.hour 2 && eqb m.minute 0 && not (s.last_daily == m.day)

abbrev pub weekly_due : Moment → Schedule → Bool
weekly_due m s = eqb m.weekday 6 && eqb m.hour 3 && eqb m.minute 0 && not (s.last_weekly == m.day)

abbrev pub queued_unit : Outcome EvalRun → Outcome Unit
queued_unit (ok r, db) = (ok tt, db)
queued_unit (err e, db) = (err e, db)

-- `if ids: await self.evaluator.queue_cases(ids)`.
unfoldable pub queue_suite : Deployment → List String → String → ℕ → Evaluations → Outcome Unit
queue_suite d ids run_id now db =
    if is_nil ids then (ok tt, db) else queued_unit (queue_cases d (some ids) run_id now db)

abbrev pub Scheduled : Type 0
Scheduled = Result {0, 0} QualityError Unit × Schedule × Evaluations

-- The day is noted when the suite was queued, not when queueing raised.
abbrev pub noted : Schedule → Schedule → Outcome Unit → Scheduled
noted before after (ok done, db) = (ok tt, after, db)
noted before after (err e, db) = (err e, before, db)

unfoldable pub schedule_daily : Deployment → Moment → Schedule → Evaluations → Scheduled
unfolding queue_suite
schedule_daily d m s db =
    let ids = case_ids_of (select_all is_official (list_eval_cases (some true) db)) in
    if daily_due m s
    then noted s (record s { last_daily = m.day }) (queue_suite d ids m.daily_id m.now db)
    else (ok tt, s, db)

unfoldable pub schedule_weekly : Deployment → Moment → Schedule → Evaluations → Scheduled
unfolding queue_suite
schedule_weekly d m s db =
    let ids = case_ids_of (select_all is_approved (list_eval_cases (some true) db)) in
    if weekly_due m s
    then noted s (record s { last_weekly = m.day }) (queue_suite d ids m.weekly_id m.now db)
    else (ok tt, s, db)

abbrev pub then_weekly : Deployment → Moment → Scheduled → Scheduled
then_weekly d m (ok done, s, db) = schedule_weekly d m s db
then_weekly d m (err e, s, db) = (err e, s, db)

-- `_schedule_due_runs`.
unfoldable pub schedule_due_runs : Deployment → Moment → Schedule → Evaluations → Scheduled
unfolding schedule_daily schedule_weekly
schedule_due_runs d m s db = then_weekly d m (schedule_daily d m s db)

-- How a round of `_run` ends: it found no run, evaluated one, logged an exception, or was cancelled.
pub data Round : Type 0 where
  idle evaluated logged stopped : Round

abbrev pub round_of : Result QualityError EvalRun → Round
round_of (ok r) = evaluated
round_of (err cancelled_error) = stopped
round_of (err e) = logged

abbrev pub round_after : Outcome EvalRun → Round × Evaluations
round_after (ending, db) = (round_of ending, db)

module _ (evaluate : String → Evaluations → Outcome EvalRun) where
  abbrev pub evaluate_claimed : Option EvalRun × Evaluations → Round × Evaluations
  evaluate_claimed (none, db) = (idle, db)
  evaluate_claimed (some r, db) = round_after (evaluate r.id db)

  -- What follows the scheduling: `evaluate` is `run_existing` of the evaluator.
  unfoldable pub claim_and_evaluate : ℕ → Evaluations → Round × Evaluations
  claim_and_evaluate now db = evaluate_claimed (claim_next_eval_run now db)

  abbrev pub after_schedule : ℕ → Scheduled → Round × Schedule × Evaluations
  after_schedule now (err e, s, db) = (logged, s, db)
  after_schedule now (ok done, s, db) =
      let (round, db') = claim_and_evaluate now db in (round, s, db')

  -- A round of `_run`; `scheduled` is the flag of the worker.
  unfoldable pub run_round :
      Deployment → Bool → Moment → Schedule → Evaluations → Round × Schedule × Evaluations
  unfolding schedule_due_runs claim_and_evaluate
  run_round d scheduled m s db =
      after_schedule m.now (if scheduled then schedule_due_runs d m s db else (ok tt, s, db))
