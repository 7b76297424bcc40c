-- ===== src/Quality/Worker/Days.antt =====
-- How often a worker queues its suites on one day (knowledge/quality/worker.py).
use its_middle_platform_agen.Quality.Cases.{list_eval_cases}
use its_middle_platform_agen.Prelude.Table.{count_where, select_all, select_one}
use its_middle_platform_agen.Prelude.Table.Laws.{length-update_where, select_one-append}
use its_middle_platform_agen.Prelude.Table.Counts.{bit}
use its_middle_platform_agen.Quality.Worker.{
  evaluate_claimed, is_official, is_approved, weekly_due, daily_due, after_schedule, then_weekly,
  noted, schedule_weekly, schedule_due_runs, schedule_daily, run_round, queued_unit,
  claim_and_evaluate, Scheduled, Schedule, Moment, queue_suite,
}
use its_middle_platform_agen.Quality.Runs.{
  started_run, is_queued_run, next_queued, claim_next_eval_run, get_eval_run, create_eval_run,
}
use its_middle_platform_agen.Quality.Evaluation.{
  select_cases, run_for, case_ids_of, queue_cases, Deployment,
}
use its_middle_platform_agen.Prelude.{
  eqb, ◌∙◌, length-append, eq_refl, is_some, ◌==◌, not, if◌then◌else◌, arith, Option-cases, Option,
  Bool-cases, All, List, Bool, ◌++◌, ◌+◌, ◌≤◌, length, String, ℕ, ◌≡◌, none, some, [], ◌∷◌, true,
  false, inl, inr, refl,
}
use mathlib.Core.Path.{subst}
use its_middle_platform_agen.Prelude.Result.{Result, ok, err}
use its_middle_platform_agen.Quality.Records.{
  EvalCase, run_by_id, QualityError, EvalRun, Evaluations, Outcome,
}

abbrev pub run_count : Evaluations → ℕ
run_count db = length db.runs

-- The suites that may still be queued on the day.
abbrev pub left : String → Schedule → ℕ
left day s = bit (not (s.last_daily == day)) + bit (not (s.last_weekly == day))

create_eval_run-count :
    (r : EvalRun) (db : Evaluations) → (run_count (create_eval_run r db).1 ≤ run_count db + 1)
unfolding create_eval_run
create_eval_run-count r db = elim (Bool-cases (is_some (select_one (run_by_id r.id) db.runs))) [
  | inl e ↦ rw e (omega arith)
  | inr e ↦ rw e (omega (arith, length-append {0} db.runs (r ∷ [])))
]

-- A call that raises adds no run.
abbrev AddsAtMost : ℕ → Evaluations → Outcome Unit → Type 0
AddsAtMost n db (ok done, db') = run_count db' ≤ run_count db + n
AddsAtMost n db (err e, db') = run_count db' ≤ run_count db

create_eval_run-raised :
    (r : EvalRun) (db : Evaluations)
    → get_eval_run r.id db ≡ none
    → get_eval_run r.id (record db { runs = db.runs ++ r ∷ [] }) ≡ some r
unfolding get_eval_run
create_eval_run-raised r db fresh =
    rw (select_one-append (run_by_id r.id) db.runs r) (rw fresh (rw (eq_refl r.id) refl))

created_once :
    (r : EvalRun) (db : Evaluations) → AddsAtMost 1 db (queued_unit (create_eval_run r db))
unfolding create_eval_run get_eval_run
created_once r db = elim (Option-cases (select_one (run_by_id r.id) db.runs)) [
  | inl fresh ↦
      rw fresh
        (rw (create_eval_run-raised r db fresh) (omega (arith, length-append {0} db.runs (r ∷ []))))
  | inr (old, taken) ↦ rw taken (omega arith)
]

queue_suite-once :
    (d : Deployment) (ids : List String) (run_id : String) (now : ℕ) (db : Evaluations)
    → AddsAtMost 1 db (queue_suite d ids run_id now db)
unfolding queue_suite queue_cases
queue_suite-once d [] run_id now db = omega arith
queue_suite-once d (i ∷ ids) run_id now db = go (select_cases (some (i ∷ ids)) db)
  where
    go :
        (s : Result QualityError (List EvalCase))
        → let out : Outcome EvalRun = elim s [
          | err e ↦ (err e, db)
          | ok cases ↦ create_eval_run (run_for d run_id "queued" cases now) db
        ] in
          AddsAtMost 1 db (queued_unit out)
    go (err e) = omega arith
    go (ok cases) = created_once (run_for d run_id "queued" cases now) db

-- What a scheduling leaves: no more runs than were left for the day.
abbrev Fits : String → Schedule → Evaluations → Scheduled → Type 0
Fits day s db out = run_count out.2 + left day out.1 ≤ run_count db + left day s

noted-Fits :
    (day : String) (s after : Schedule) (db : Evaluations) (out : Outcome Unit)
    → left day after + 1 ≤ left day s
    → AddsAtMost 1 db out
    → Fits day s db (noted s after out)
noted-Fits day s after db (ok done, db') h a = omega arith
noted-Fits day s after db (err e, db') h a = omega arith

module _ (d : Deployment) (m : Moment) where
  schedule_daily-Fits :
      (s : Schedule) (db : Evaluations) → Fits m.day s db (schedule_daily d m s db)
  unfolding schedule_daily
  schedule_daily-Fits s db = elim (Bool-cases (daily_due m s)) [
    | inl due ↦
        let once =
          queue_suite-once d (case_ids_of (select_all is_official (list_eval_cases (some true) db)))
            m.daily_id m.now db in
        rw due (
          noted-Fits m.day s (record s { last_daily = m.day }) db
            (queue_suite d (case_ids_of (select_all is_official (list_eval_cases (some true) db)))
              m.daily_id m.now db)
            (ground (arith, eq_refl m.day)) once)
    | inr not_due ↦ rw not_due (omega arith)
  ]

  schedule_weekly-Fits :
      (s : Schedule) (db : Evaluations) → Fits m.day s db (schedule_weekly d m s db)
  unfolding schedule_weekly
  schedule_weekly-Fits s db = elim (Bool-cases (weekly_due m s)) [
    | inl due ↦
        let once =
          queue_suite-once d (case_ids_of (select_all is_approved (list_eval_cases (some true) db)))
            m.weekly_id m.now db in
        rw due (
          noted-Fits m.day s (record s { last_weekly = m.day }) db
            (queue_suite d (case_ids_of (select_all is_approved (list_eval_cases (some true) db)))
              m.weekly_id m.now db)
            (ground (arith, eq_refl m.day)) once)
    | inr not_due ↦ rw not_due (omega arith)
  ]

  schedule_due_runs-Fits :
      (s : Schedule) (db : Evaluations) → Fits m.day s db (schedule_due_runs d m s db)
  unfolding schedule_due_runs
  schedule_due_runs-Fits s db = go (schedule_daily d m s db) (schedule_daily-Fits s db)
    where
      go : (out : Scheduled) → Fits m.day s db out → Fits m.day s db (then_weekly d m out)
      go (err e, s', db') h = h
      go (ok done, s', db') h = omega (arith, schedule_weekly-Fits s' db')

module _ (evaluate : String → Evaluations → Outcome EvalRun)
    (adds_none : (id : String) (db : Evaluations)
      → run_count (evaluate id db).1 ≡ run_count db) where
  claim-count :
      (now : ℕ) (db : Evaluations) → run_count (claim_next_eval_run now db).1 ≡ run_count db
  unfolding claim_next_eval_run
  claim-count now db = elim (Option-cases (next_queued db.runs)) [
    | inl none' ↦ rw (none', claim_next_eval_run) refl
    | inr (r, found) ↦
        let same = length-update_where (is_queued_run r.id) (started_run now) db.runs in
        elim (Bool-cases (eqb (count_where (is_queued_run r.id) db.runs) 0)) [
          | inl lost ↦ rw (found, claim_next_eval_run, lost) same
          | inr won ↦ rw (found, claim_next_eval_run, won) same
        ]
  ]

  claim_and_evaluate-count :
      (now : ℕ) (db : Evaluations) → run_count (claim_and_evaluate evaluate now db).1 ≡ run_count db
  unfolding claim_and_evaluate
  claim_and_evaluate-count now db = go (claim_next_eval_run now db) (claim-count now db)
    where
      go :
          (c : Option EvalRun × Evaluations)
          → run_count c.1 ≡ run_count db
          → run_count (evaluate_claimed evaluate c).1 ≡ run_count db
      go (none, db') e = e
      go (some r, db') e = adds_none r.id db' ∙ e

  abbrev pub rounds :
      Deployment → Bool → List Moment → Schedule → Evaluations → Schedule × Evaluations
  rounds d scheduled [] s db = (s, db)
  rounds d scheduled (m ∷ ms) s db =
      let (round, s', db') = run_round evaluate d scheduled m s db in rounds d scheduled ms s' db'

  run_round-Fits :
      (d : Deployment) (scheduled : Bool) (m : Moment) (s : Schedule) (db : Evaluations)
      → run_count (run_round evaluate d scheduled m s db).2
          + left m.day (run_round evaluate d scheduled m s db).1
        ≤ run_count db + left m.day s
  unfolding run_round
  run_round-Fits d scheduled m s db =
      go (if scheduled then schedule_due_runs d m s db else (ok tt, s, db)) (start scheduled)
    where
      start :
          (b : Bool) → Fits m.day s db (if b then schedule_due_runs d m s db else (ok tt, s, db))
      start true = schedule_due_runs-Fits d m s db
      start false = omega arith

      go :
          (out : Scheduled)
          → Fits m.day s db out
          → run_count (after_schedule evaluate m.now out).2
              + left m.day (after_schedule evaluate m.now out).1
            ≤ run_count db + left m.day s
      go (err e, s', db') h = h
      go (ok done, s', db') h = omega (arith, claim_and_evaluate-count m.now db', h)

  -- If evaluations add no runs, then in however many rounds of one day a worker adds at most one run
  -- for each of its two suites that was not yet noted for that day: the runs that it adds and the
  -- suites then still to be queued are together no more than those to be queued before.
  pub rounds-bounded :
      (d : Deployment) (scheduled : Bool) (day : String) (ms : List Moment) (s : Schedule)
      (db : Evaluations)
      → All (λ m. m.day ≡ day) ms
      → run_count (rounds d scheduled ms s db).1 + left day (rounds d scheduled ms s db).0
        ≤ run_count db + left day s
  rounds-bounded d scheduled day [] s db a = omega arith
  rounds-bounded d scheduled day (m ∷ ms) s db a =
      let (round, s', db') = run_round evaluate d scheduled m s db in
      let first : run_count db' + left day s' ≤ run_count db + left day s =
        subst (λ x. run_count db' + left x s' ≤ run_count db + left x s) (a.0)
          (run_round-Fits d scheduled m s db) in
      omega (arith, first, rounds-bounded d scheduled day ms s' db' a.1)
