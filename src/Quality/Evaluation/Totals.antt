-- ===== src/Quality/Evaluation/Totals.antt =====
-- The evaluation of chosen cases from their choice to the completed run
-- (knowledge/quality/evaluation.py).
use its_middle_platform_agen.Quality.Evaluation.Completing.{final_status}
use its_middle_platform_agen.Quality.Evaluation.Counting.{
  loop_ends, IsRunning, HasResult, undisturbed,
}
use its_middle_platform_agen.Quality.Evaluation.Saving.{is_cancelled}
use its_middle_platform_agen.Prelude.Table.Laws.{select_one-append}
use its_middle_platform_agen.Quality.Judging.{Judged, AgentResponse}
use mathlib.Core.Path.{subst}
use its_middle_platform_agen.Prelude.Table.Orders.{All-order_by, Unique-order_by, All-select_all}
use its_middle_platform_agen.Quality.Results.{is_passed_of, breaks_result}
use its_middle_platform_agen.Prelude.Table.Counts.{All-weaken, select_all-Unique, select_all-Stored}
use its_middle_platform_agen.Prelude.Table.Keys.{Unique}
use its_middle_platform_agen.Quality.Evaluation.{
  run_for, run_cases, Deployment, Ending, distinct, some_cases, is_selected, select_cases,
}
use its_middle_platform_agen.Quality.Cases.{newer_case, is_enabled_as, list_eval_cases}
use its_middle_platform_agen.Quality.Runs.{create_eval_run, get_eval_run}
use its_middle_platform_agen.Prelude.Table.{select_one, select_all, count_where}
use its_middle_platform_agen.Prelude.{
  ◌+◌, ◌++◌, length, eq_refl, eq→path, eqb, arith, Bool-cases, ◌==◌, All, Option, List, String, ℕ,
  ◌≡◌, none, some, [], ◌∷◌, true, false, inl, inr, refl,
}
use its_middle_platform_agen.Prelude.Result.{Result, ok, err}
use its_middle_platform_agen.Quality.Records.{
  run_by_id, EvalRun, quality_not_found_error, QualityError, result_of_run, case_key, case_by_id,
  result_by, EvalResult, EvalCase, Evaluations,
}
use its_middle_platform_agen.Quality.Invariant.{case_swap, has_case, IsValid}

-- Rows of the table, each once.
abbrev pub AreCases : Evaluations → List EvalCase → Type 0
AreCases db cs = Unique case_by_id case_key cs × All (λ c. has_case db c.id ≡ true) cs

some_cases-ok :
    (db : Evaluations) (xs cs : List EvalCase)
    → some_cases xs ≡ ok cs
    → AreCases db xs
    → AreCases db cs
some_cases-ok db [] cs h a = absurd (ground arith)
some_cases-ok db (x ∷ xs) cs h a = let e : (x ∷ xs) ≡ cs = cc in subst (AreCases db) (e) a

listed-AreCases : (db : Evaluations) → IsValid db → AreCases db (list_eval_cases (some true) db)
unfolding list_eval_cases
listed-AreCases db v =
    let chosen = select_all (is_enabled_as (some true)) db.cases in
    let stored =
      select_all-Stored case_by_id case_key (λ k c. eq→path c.id k) (λ c. eq_refl c.id)
        (is_enabled_as (some true)) db.cases v.cases_unique in
    (
      Unique-order_by case_by_id case_key case_swap newer_case chosen (
          select_all-Unique case_by_id case_key (λ k c. eq→path c.id k) (λ c. eq_refl c.id)
            (is_enabled_as (some true)) db.cases v.cases_unique),
      All-order_by (λ c. has_case db c.id ≡ true) newer_case chosen
          (All-weaken (λ c. select_one (case_by_id c.id) db.cases ≡ some c)
            (λ c. has_case db c.id ≡ true) chosen (λ c e. rw e refl) stored),
    )

chosen-AreCases :
    (db : Evaluations) (ids : List String) (cs : List EvalCase)
    → AreCases db cs
    → AreCases db (select_all (is_selected ids) cs)
chosen-AreCases db ids cs a = (
  select_all-Unique case_by_id case_key (λ k c. eq→path c.id k) (λ c. eq_refl c.id)
      (is_selected ids) cs a.0,
  All-weaken (λ c. (is_selected ids c ≡ true) × (has_case db c.id ≡ true))
      (λ c. has_case db c.id ≡ true) (select_all (is_selected ids) cs) (λ c p. p.1)
      (All-select_all (λ c. has_case db c.id ≡ true) (is_selected ids) cs a.1),
)

pub select_cases-AreCases :
    (case_ids : Option (List String)) (db : Evaluations) (cs : List EvalCase)
    → IsValid db
    → select_cases case_ids db ≡ ok cs
    → AreCases db cs
unfolding select_cases
select_cases-AreCases none db cs v h =
    some_cases-ok db (list_eval_cases (some true) db) cs h (listed-AreCases db v)
select_cases-AreCases (some ids) db cs v h =
    elim (Bool-cases (eqb (length chosen) (length (distinct ids)))) [
      | inl all ↦
          some_cases-ok db chosen cs (rw all at h)
            (chosen-AreCases db ids (list_eval_cases (some true) db) (listed-AreCases db v))
      | inr few ↦
          let bad : ◌≡◌ {A = Result QualityError (List EvalCase)} (err quality_not_found_error)
              (ok cs) =
            rw few at h in
          absurd (ground arith)
    ]
  where
    chosen : List EvalCase
    chosen = select_all (is_selected ids) (list_eval_cases (some true) db)

-- A run that is not in its table has no results.
no_results :
    (run_id : String) (db : Evaluations) (rs : List EvalResult)
    → get_eval_run run_id db ≡ none
    → All (λ r. breaks_result r db ≡ false) rs
    → All (λ r. (r.run_id == run_id) ≡ false) rs
unfolding get_eval_run
no_results run_id db rs fresh a =
    All-weaken (λ r. breaks_result r db ≡ false) (λ r. (r.run_id == run_id) ≡ false) rs other a
  where
    other : (r : EvalResult) → breaks_result r db ≡ false → (r.run_id == run_id) ≡ false
    other r h = elim (Bool-cases (r.run_id == run_id)) [
      | inl same ↦
          let e : r.run_id ≡ run_id = eq→path r.run_id run_id same in
          let bad : breaks_result r db ≡ true = rw e (rw fresh refl) in absurd (ground arith)
      | inr other' ↦ other'
    ]

pub none_of_run :
    (run_id : String) (rs : List EvalResult)
    → All (λ r. (r.run_id == run_id) ≡ false) rs
    → (count_where (result_of_run run_id) rs ≡ 0)
      × ((k : String) → select_one (result_by (run_id, k)) rs ≡ none)
unfolding count_where select_one
none_of_run run_id [] a = (refl, λ k. refl)
none_of_run run_id (r ∷ rs) a =
    let rest = none_of_run run_id rs a.1 in
    (ground (arith, a.0, rest.0), λ k. ground (arith, a.0, rest.1 k))

pub all_fresh :
    (run_id : String) (rs : List EvalResult) (cs : List EvalCase)
    → ((k : String) → select_one (result_by (run_id, k)) rs ≡ none)
    → All (λ c. select_one (result_by (run_id, c.id)) rs ≡ none) cs
all_fresh run_id rs [] h = tt
all_fresh run_id rs (c ∷ cs) h = (h c.id, all_fresh run_id rs cs h)

-- The new run is stored, and the loop starts.
abbrev with_run : EvalRun → Evaluations → Evaluations
with_run r db = record db { runs = db.runs ++ r ∷ [] }

stored_new :
    (r : EvalRun) (db : Evaluations)
    → get_eval_run r.id db ≡ none
    → get_eval_run r.id (with_run r db) ≡ some r
unfolding get_eval_run
stored_new r db fresh =
    rw (select_one-append (run_by_id r.id) db.runs r) (rw fresh (rw (eq_refl r.id) refl))

create_eval_run-fresh :
    (r : EvalRun) (db : Evaluations)
    → get_eval_run r.id db ≡ none
    → create_eval_run r db ≡ (ok r, with_run r db)
unfolding create_eval_run get_eval_run
create_eval_run-fresh r db fresh = rw fresh (rw (stored_new r db fresh) refl)

module _ (casefold : String → String) (judge : Option (EvalCase → AgentResponse → Judged))
    (answer : EvalCase → Ending) (clock : ℕ → ℕ)
    (ends : (c : EvalCase) → is_cancelled (answer c) ≡ false) (d : Deployment)
    (case_ids : Option (List String)) (run_id : String) (now : ℕ) (db : Evaluations)
    (cases : List EvalCase) (v : IsValid db) (chosen : select_cases case_ids db ≡ ok cases)
    (fresh : get_eval_run run_id db ≡ none) where
  -- If nobody else writes the tables and the task is not cancelled, then the evaluation of the cases
  -- that `_select_cases` chooses returns a run of so many cases, whose passed and failed cases add
  -- up to them, whose status says whether one failed, whose passed cases are the stored results that
  -- passed, and each of the cases has a stored result.
  pub run_cases-total :
      (r : EvalRun) × (db' : Evaluations) × (run_cases casefold judge
          (undisturbed answer)
          clock
          d
          case_ids
          run_id
          now
          db
        ≡ (ok r, db'))
      × (r.total_cases ≡ length cases)
      × (r.passed_cases + r.failed_cases ≡ r.total_cases)
      × (r.status ≡ final_status r.failed_cases)
      × (r.passed_cases ≡ count_where (is_passed_of run_id) db'.results)
      × All (HasResult db'.results run_id) cases
  unfolding run_cases
  run_cases-total =
      let row = run_for d run_id "running" cases now in
      let are = select_cases-AreCases case_ids db cases v chosen in
      let nothing =
        none_of_run run_id db.results (no_results run_id db db.results fresh v.linked) in
      let start : IsRunning run_id (length cases) cases (with_run row db) = record {
        latest = row;
        found = stored_new row db fresh;
        uncancelled = refl;
        same_total = refl;
        stored = are.1;
        fresh = all_fresh run_id db.results cases nothing.1;
      } in
      let (r, db', out, found, total, counted, final, covered, kept) =
        loop_ends casefold judge answer clock run_id (length cases) ends 1 cases (with_run row db)
          are.0 start in
      (
        r,
        db',
        rw (chosen, run_cases) (rw (create_eval_run-fresh row db fresh) out),
        total,
        omega (arith, final.sum, counted, nothing.0, total),
        final.status,
        final.passed,
        covered,
      )
