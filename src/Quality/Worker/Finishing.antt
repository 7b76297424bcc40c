-- ===== src/Quality/Worker/Finishing.antt =====
-- A queued run reaches its end in the round that claims it (knowledge/quality/worker.py).
use its_middle_platform_agen.Quality.Worker.Claiming.{claim-next}
use its_middle_platform_agen.Quality.Worker.{
  round_after, evaluate_claimed, evaluated, claim_and_evaluate,
}
use its_middle_platform_agen.Quality.Evaluation.Counting.{loop_ends, IsRunning, undisturbed, loop}
use its_middle_platform_agen.Quality.Evaluation.Totals.{
  select_cases-AreCases, none_of_run, all_fresh, AreCases,
}
use its_middle_platform_agen.Quality.Evaluation.Saving.{is_cancelled}
use its_middle_platform_agen.Quality.Evaluation.Completing.{get_eval_run-update, final_status}
use its_middle_platform_agen.Prelude.Result.{err, Result, ok}
use its_middle_platform_agen.Quality.Cases.{list_eval_cases}
use its_middle_platform_agen.Quality.Judging.{Judged, AgentResponse}
use its_middle_platform_agen.Quality.Evaluation.{
  run_selected, distinct, run_existing, is_selected, Ending, some_cases, select_cases,
}
use its_middle_platform_agen.Quality.Records.{Outcome}
use its_middle_platform_agen.Prelude.Table.{update_where, select_all}
use its_middle_platform_agen.Quality.Runs.{
  mark_eval_run_cancelled, cancelled_run, started_run, next_queued, get_eval_run,
}
use its_middle_platform_agen.Prelude.{
  sym, ◌∙◌, length, ◌==◌, eqb, false, is_nil, if◌then◌else◌, String, arith, Bool-cases, ap, All,
  Option, List, ℕ, ◌≡◌, some, [], ◌∷◌, true, inl, inr, refl,
}
use mathlib.Core.Path.{subst}
use its_middle_platform_agen.Quality.Records.{
  quality_not_found_error, QualityError, EvalCase, run_by_id, Evaluations, EvalRun,
}
use its_middle_platform_agen.Quality.Invariant.{claim_next_eval_run-IsValid, IsValid}

select_cases-same :
    (ids : Option (List String)) (db db' : Evaluations)
    → db'.cases ≡ db.cases
    → select_cases ids db' ≡ select_cases ids db
unfolding select_cases list_eval_cases
select_cases-same ids db db' same = rw same refl

some_cases-some : (xs cs : List EvalCase) → some_cases xs ≡ ok cs → is_nil cs ≡ false
some_cases-some [] cs h = absurd (ground arith)
some_cases-some (x ∷ xs) cs h = ground arith

select_cases-some :
    (ids : List String) (db : Evaluations) (cs : List EvalCase)
    → select_cases (some ids) db ≡ ok cs
    → is_nil cs ≡ false
unfolding select_cases
select_cases-some ids db cs h = elim (Bool-cases (eqb (length chosen) (length (distinct ids)))) [
  | inl all ↦ some_cases-some chosen cs (rw all at h)
  | inr few ↦
      let bad : ◌≡◌ {A = Result QualityError (List EvalCase)} (err quality_not_found_error)
          (ok cs) =
        rw few at h in
      absurd (ground arith)
]
  where
    chosen : List EvalCase
    chosen = select_all (is_selected ids) (list_eval_cases (some true) db)

-- How an evaluation ends a run: cancelled if that was asked, and by its results otherwise.
abbrev pub end_status : EvalRun → EvalRun → String
end_status before after =
    if before.cancel_requested then "cancelled" else final_status after.failed_cases

abbrev Ends : EvalRun → Outcome EvalRun → Type 0
Ends before out =
    (r : EvalRun) × (db : Evaluations) × (out ≡ (ok r, db))
    × (get_eval_run before.id db ≡ some r)
    × (r.status ≡ end_status before r)

mark_eval_run_cancelled-found :
    (latest : EvalRun) (now : ℕ) (db : Evaluations)
    → get_eval_run latest.id db ≡ some latest
    → (db' : Evaluations) × (mark_eval_run_cancelled latest.id now db
        ≡ (ok (cancelled_run now latest), db'))
      × (get_eval_run latest.id db' ≡ some (cancelled_run now latest))
unfolding mark_eval_run_cancelled get_eval_run
mark_eval_run_cancelled-found latest now db found =
    let e = get_eval_run-update latest.id (cancelled_run now) db.runs latest (λ r. refl) found in
    (
      record db { runs = update_where (run_by_id latest.id) (cancelled_run now) db.runs },
      rw e refl,
      e,
    )

module _ (casefold : String → String) (judge : Option (EvalCase → AgentResponse → Judged))
    (answer : EvalCase → Ending) (clock : ℕ → ℕ)
    (ends : (c : EvalCase) → is_cancelled (answer c) ≡ false) where
  abbrev pub existing : String → Evaluations → Outcome EvalRun
  existing run_id db = run_existing casefold judge (undisturbed answer) clock run_id db

  asked_first :
      (latest : EvalRun) (index : ℕ) (c : EvalCase) (cs : List EvalCase) (db : Evaluations)
      → get_eval_run latest.id db ≡ some latest
      → latest.cancel_requested ≡ true
      → run_selected casefold judge (undisturbed answer) clock latest.id index (c ∷ cs) db
        ≡ mark_eval_run_cancelled latest.id (clock index) db
  unfolding run_selected
  asked_first latest index c cs db found asked = rw (found, run_selected) (rw asked refl)

  cancelled_first :
      (latest : EvalRun) (cs : List EvalCase) (db : Evaluations)
      → is_nil cs ≡ false
      → get_eval_run latest.id db ≡ some latest
      → latest.cancel_requested ≡ true
      → Ends latest (loop casefold judge answer clock latest.id latest.total_cases ends 1 cs db)
  cancelled_first latest [] db some' found asked = cc
  cancelled_first latest (c ∷ cs) db some' found asked =
      let (db', e, stored) = mark_eval_run_cancelled-found latest (clock 1) db found in
      (
        cancelled_run (clock 1) latest,
        db',
        asked_first latest 1 c cs db found asked ∙ e,
        stored,
        rw asked refl,
      )

  loop-Ends :
      (latest : EvalRun) (cs : List EvalCase) (db : Evaluations)
      → AreCases db cs
      → is_nil cs ≡ false
      → get_eval_run latest.id db ≡ some latest
      → All (λ x. (x.run_id == latest.id) ≡ false) db.results
      → Ends latest (loop casefold judge answer clock latest.id latest.total_cases ends 1 cs db)
  loop-Ends latest cs db are some' found none' = elim (Bool-cases latest.cancel_requested) [
    | inl asked ↦ cancelled_first latest cs db some' found asked
    | inr wanted ↦
        let start : IsRunning latest.id latest.total_cases cs db = record {
          latest = latest;
          found = found;
          uncancelled = wanted;
          same_total = refl;
          stored = are.1;
          fresh = all_fresh latest.id db.results cs (none_of_run latest.id db.results none').1;
        } in
        let (r, db', out, stored, total, counted, final, covered, kept) =
          loop_ends casefold judge answer clock latest.id latest.total_cases ends 1 cs db are.0
            start in
        (
          r,
          db',
          out,
          stored,
          final.status
              ∙ ap (λ b. if b then "cancelled" else final_status r.failed_cases) (sym wanted),
        )
  ]

  existing-Ends :
      (latest : EvalRun) (cs : List EvalCase) (db : Evaluations)
      → IsValid db
      → select_cases (some latest.case_ids) db ≡ ok cs
      → get_eval_run latest.id db ≡ some latest
      → All (λ x. (x.run_id == latest.id) ≡ false) db.results
      → Ends latest (existing latest.id db)
  unfolding run_existing
  existing-Ends latest cs db v chosen found none' =
      let (r, db', out, stored, status) =
        loop-Ends latest cs db (select_cases-AreCases (some latest.case_ids) db cs v chosen)
          (select_cases-some latest.case_ids db cs chosen) found none' in
      (r, db', rw (found, run_existing) (rw (chosen) out), stored, status)

  -- If nobody else writes the tables and the task is not cancelled, then a round that finds the run
  -- `r` next, with its cases enabled and no results yet, evaluates it to its end: `cancelled` if that
  -- was asked of the queued run, else `completed` if no case failed, else `completed_with_failures`.
  pub claim_and_evaluate-ends :
      (now : ℕ) (db : Evaluations) (r : EvalRun) (cs : List EvalCase)
      → IsValid db
      → next_queued db.runs ≡ some r
      → select_cases (some r.case_ids) db ≡ ok cs
      → All (λ x. (x.run_id == r.id) ≡ false) db.results
      → (db' : Evaluations) × (after : EvalRun) × (claim_and_evaluate existing now db
          ≡ (evaluated, db'))
        × (get_eval_run r.id db' ≡ some after)
        × (after.status ≡ end_status r after)
  unfolding claim_and_evaluate
  claim_and_evaluate-ends now db r cs v next chosen none' =
      let (db1, claimed, found, cases, results) = claim-next now db r v next in
      let v1 : IsValid db1 =
        subst IsValid (ap (λ (p : Option EvalRun × Evaluations). p.1) claimed)
          (claim_next_eval_run-IsValid now db v) in
      let (after, db', out, stored, status) =
        existing-Ends (started_run now r) cs db1 v1
          (select_cases-same (some r.case_ids) db db1 cases ∙ chosen) found (rw results none') in
      (db', after, ap (evaluate_claimed existing) claimed ∙ ap round_after out, stored, status)
