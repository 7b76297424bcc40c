-- ===== src/Quality/Evaluation/Explaining.antt =====
-- What `_run_case` (knowledge/quality/evaluation.py) stores of a case, whatever others did to the
-- tables while the agent answered.
use mathlib.Core.Path.{ap₂, subst}
use its_middle_platform_agen.Prelude.{
  ℕ, if◌then◌else◌, none, refl, eq_refl, eq_comm, ap, ◌∙◌, is_some, eq→path, arith, inr, inl, true,
  ◌&&◌, some, false, ◌==◌, ◌≡◌, Option-cases, Option, Bool, String, List,
}
use its_middle_platform_agen.Prelude.Table.Laws.{select_one-append, select_one-true}
use its_middle_platform_agen.Prelude.Table.Orders.{is_some-select_all, is_some-order_by}
use its_middle_platform_agen.Prelude.Table.Keys.{select_one-update_where}
use its_middle_platform_agen.Prelude.Table.{select_one, select_all, order_by}
use its_middle_platform_agen.Quality.Invariant.{has_case, has_run}
use its_middle_platform_agen.Quality.Judging.Passing.{assess-passed, IsExplained}
use its_middle_platform_agen.Quality.Judging.{assess, Judged, AgentResponse, error_result}
use its_middle_platform_agen.Quality.Results.{
  upserted_result, put_result, breaks_result, save_eval_result, list_eval_results, older_result,
}
use its_middle_platform_agen.Prelude.Result.{Result, ok, err}
use its_middle_platform_agen.Quality.Records.{
  result_key, result_by, result_of_run, result_of_case, EvalCase, Evaluations, EvalResult, Outcome,
}
use its_middle_platform_agen.Quality.Evaluation.Saving.{is_cancelled, assess-key}
use its_middle_platform_agen.Quality.Evaluation.{
  answered, run_case, save_ending, save_assessed, Ending, saved, raised, cancelled,
}

abbrev pub same_key : String × String → String × String → Bool
same_key k l = k.0 == l.0 && k.1 == l.1

-- The row of the key `k` names the failures for which it does not pass, and the rows of all other
-- keys are as before.
pub record Explains (k : String × String) (before after : List EvalResult) : Type 0 where
  pub result : EvalResult
  pub stored : select_one (result_by k) after ≡ some result
  pub explained : IsExplained result
  pub others :
      (l : String × String)
      → same_key k l ≡ false
      → select_one (result_by l) after ≡ select_one (result_by l) before

miss :
    (k l : String × String) (x : EvalResult)
    → same_key k l ≡ false
    → result_by l x ≡ true
    → result_by k x ≡ false
miss k l x differ hit =
    let run : x.run_id ≡ l.0 = eq→path x.run_id l.0 (ground arith) in
    let case' : x.case_id ≡ l.1 = eq→path x.case_id l.1 (ground arith) in
    rw (run, case') (rw (eq_comm l.0 k.0, eq_comm l.1 k.1) differ)

untouched :
    (k l : String × String) (set : EvalResult → EvalResult) (rs : List EvalResult)
    (o : Option EvalResult)
    → same_key k l ≡ false
    → select_one (result_by l) rs ≡ o
    → ◌≡◌ {A = Option EvalResult}
        (elim o [ none ↦ none | some x ↦ some (if result_by k x then set x else x) ])
        o
untouched k l set rs none differ h = refl
untouched k l set rs (some x) differ h =
    rw (miss k l x differ (select_one-true (result_by l) rs h)) refl

own : (r : EvalResult) → result_by (result_key r) r ≡ true
own r = ground (arith, eq_refl r.run_id, eq_refl r.case_id)

put_result-Explains :
    (r : EvalResult) (rs : List EvalResult)
    → IsExplained r
    → Explains (result_key r) rs (put_result r rs)
put_result-Explains r rs e = elim (Option-cases (select_one (result_by (result_key r)) rs)) [
  | inl new ↦ rw new (record {
    result = r;
    stored = rw (select_one-append (result_by (result_key r)) rs r) (rw new (rw (own r) refl));
    explained = e;
    others = λ l differ.
        rw (select_one-append (result_by l) rs r)
          (elim (Option-cases (select_one (result_by l) rs)) [
            | inl none' ↦ rw none' (rw differ refl)
            | inr (y, some') ↦ rw some' refl
          ]);
  })
  | inr (x, old) ↦ rw old (record {
    result = upserted_result r x;
    stored =
        rw
          (select_one-update_where result_by (result_key r) (result_by (result_key r))
            (upserted_result r) rs (λ y. refl))
          (rw old (rw (select_one-true (result_by (result_key r)) rs old) refl));
    explained = e;
    others = λ l differ.
        select_one-update_where result_by l (result_by (result_key r)) (upserted_result r) rs
          (λ y. refl)
        ∙ untouched (result_key r) l (upserted_result r) rs (select_one (result_by l) rs) differ
            refl;
  })
]

-- A row whose run and case are there is saved.
abbrev pub Saves : String × String → Evaluations → Outcome Unit → Type 0
Saves k db out = (db' : Evaluations) × (out ≡ (ok tt, db')) × Explains k db.results db'.results

save_eval_result-Explains :
    (r : EvalResult) (db : Evaluations)
    → IsExplained r
    → breaks_result r db ≡ false
    → (s : EvalResult) × (db' : Evaluations) × (save_eval_result r db ≡ (ok s, db'))
      × Explains (result_key r) db.results db'.results
unfolding save_eval_result list_eval_results
save_eval_result-Explains r db e links =
    let x = put_result-Explains r db.results e in
    let found : is_some (
          select_one (result_of_case r.case_id)
            (order_by older_result (select_all (result_of_run r.run_id) (put_result r db.results))))
        ≡ true =
      is_some-order_by older_result (result_of_case r.case_id)
        (select_all (result_of_run r.run_id) (put_result r db.results))
      ∙ is_some-select_all (result_of_case r.case_id) (result_of_run r.run_id)
          (put_result r db.results)
      ∙ ap is_some x.stored in
    elim (Option-cases (
      select_one (result_of_case r.case_id)
        (order_by older_result (select_all (result_of_run r.run_id) (put_result r db.results))))) [
          | inl missing ↦
              let bad : is_some {A = EvalResult} none ≡ true = rw missing at found in
              absurd (ground arith)
          | inr (s, there) ↦
              (s, record db { results = put_result r db.results }, rw links (rw there refl), x)
        ]

-- The run and the case are rows of their tables.
abbrev pub HasRows : String → EvalCase → Evaluations → Type 0
HasRows run_id c db = (has_run db run_id ≡ true) × (has_case db c.id ≡ true)

saved-Saves :
    (run_id : String) (c : EvalCase) (r : EvalResult) (db : Evaluations)
    → r.run_id ≡ run_id
    → r.case_id ≡ c.id
    → IsExplained r
    → HasRows run_id c db
    → Saves (run_id, c.id) db (saved (save_eval_result r db))
saved-Saves run_id c r db e f explained there =
    let links : breaks_result r db ≡ false = rw (e, f) (rw (there.0, there.1) refl) in
    let (s, db', h, x) = save_eval_result-Explains r db explained links in
    (db', rw h refl, subst (λ k. Explains k db.results db'.results) (ap₂ (λ i j. (i, j)) e f) x)

error_saved-Saves :
    (run_id : String) (c : EvalCase) (error_type : String) (duration now : ℕ) (db : Evaluations)
    → HasRows run_id c db
    → Saves
        (run_id, c.id)
        db
        (saved (save_eval_result (error_result run_id c error_type duration now) db))
unfolding error_result
error_saved-Saves run_id c error_type duration now db there =
    saved-Saves run_id c (error_result run_id c error_type duration now) db refl refl refl there

save_assessed-Saves :
    (run_id : String) (c : EvalCase) (duration now : ℕ) (a : Result (String × ℕ) EvalResult)
    (db : Evaluations)
    → ((r : EvalResult) → a ≡ ok r → (r.run_id ≡ run_id) × (r.case_id ≡ c.id) × IsExplained r)
    → HasRows run_id c db
    → Saves (run_id, c.id) db (save_assessed run_id c duration now a db)
save_assessed-Saves run_id c duration now (ok r) db assessed there =
    let (e, f, explained) = assessed r refl in
    let links : breaks_result r db ≡ false = rw (e, f) (rw (there.0, there.1) refl) in
    let (s, db', h, x) = save_eval_result-Explains r db explained links in
    (db', rw h refl, subst (λ k. Explains k db.results db'.results) (ap₂ (λ i j. (i, j)) e f) x)
save_assessed-Saves run_id c duration now (err (error_type, until)) db assessed there =
    error_saved-Saves run_id c error_type until now db there

module _ (casefold : String → String) (judge : Option (EvalCase → AgentResponse → Judged)) where
  save_ending-Saves :
      (run_id : String) (now : ℕ) (c : EvalCase) (ending : Ending) (db : Evaluations)
      → is_cancelled ending ≡ false
      → HasRows run_id c db
      → Saves (run_id, c.id) db (save_ending casefold judge run_id now c ending db)
  unfolding save_ending
  save_ending-Saves run_id now c (answered response duration) db ends there =
      save_assessed-Saves run_id c duration now
        (assess casefold judge run_id c response duration now) db
        (λ r h.
          let (e, f) = assess-key casefold judge run_id c response duration now r h in
          (e, f, (assess-passed casefold judge run_id c response duration now r h).0))
        there
  save_ending-Saves run_id now c (raised error_type duration) db ends there =
      error_saved-Saves run_id c error_type duration now db there
  save_ending-Saves run_id now c cancelled db ends there = absurd (ground arith)

  -- Whatever others write to the tables while the agent answers a case, as long as the run and the
  -- case are rows of them afterwards: unless the task is cancelled, `_run_case` succeeds and leaves a
  -- result of the case in the run, which passes exactly when it names no failure code, whether the
  -- agent answered, timed out or raised and the judge gave a verdict, failed or raised; the results
  -- of other runs and cases are as the others left them.
  pub run_case-Saves :
      (chat : EvalCase → Evaluations → Ending × Evaluations) (clock : ℕ → ℕ) (run_id : String)
      (now : ℕ) (c : EvalCase) (db : Evaluations)
      → is_cancelled (chat c db).0 ≡ false
      → HasRows run_id c (chat c db).1
      → Saves (run_id, c.id) (chat c db).1 (run_case casefold judge chat clock run_id now c db)
  unfolding run_case
  run_case-Saves chat clock run_id now c db ends there =
      save_ending-Saves run_id now c (chat c db).0 (chat c db).1 ends there
