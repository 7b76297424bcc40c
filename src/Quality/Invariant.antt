-- ===== src/Quality/Invariant.antt =====
-- What the constraints of the tables of evaluations promise, on which the claim of a run and the
-- evaluation of its cases rely (knowledge/quality/repository.py).
use its_middle_platform_agen.Quality.Runs.{
  started_run, is_queued_run, next_queued, claim_next_eval_run,
}
use its_middle_platform_agen.Prelude.Table.Counts.{All-weaken}
use its_middle_platform_agen.Prelude.Table.{count_where, select_one, update_where}
use its_middle_platform_agen.Quality.Results.{breaks_result}
use its_middle_platform_agen.Prelude.Table.Keys.{
  select_one-update_where, Unique-update_where, Unique,
}
use its_middle_platform_agen.Quality.Records.{
  run_key, result_key, case_key, run_by_id, result_by, case_by_id, Evaluations, EvalRun, EvalResult,
  EvalCase,
}
use its_middle_platform_agen.Prelude.{
  eqb, Option-cases, ℕ, if◌then◌else◌, arith, Option, eq_comm, Bool-cases, is_some, All, String,
  List, Bool, ◌≡◌, none, some, true, false, inl, inr, refl,
}

-- The primary keys, the unique key of the results, and their two foreign keys.
pub record IsValid (db : Evaluations) : Type 0 where
  pub cases_unique : Unique case_by_id case_key db.cases
  pub runs_unique : Unique run_by_id run_key db.runs
  pub results_unique : Unique result_by result_key db.results
  pub linked : All (λ r. breaks_result r db ≡ false) db.results

abbrev pub has_run : Evaluations → String → Bool
has_run db run_id = is_some (select_one (run_by_id run_id) db.runs)

abbrev pub has_case : Evaluations → String → Bool
has_case db case_id = is_some (select_one (case_by_id case_id) db.cases)

pub case_swap : (x y : EvalCase) → case_by_id (case_key x) y ≡ case_by_id (case_key y) x
case_swap x y = eq_comm y.id x.id

-- No key of a run or of a case is lost.
linked-more :
    (db db' : Evaluations)
    → ((k : String) → has_run db k ≡ true → has_run db' k ≡ true)
    → ((k : String) → has_case db k ≡ true → has_case db' k ≡ true)
    → (rs : List EvalResult) → All (λ r. breaks_result r db ≡ false) rs
    → All (λ r. breaks_result r db' ≡ false) rs
linked-more db db' runs cases rs a =
    All-weaken (λ r. breaks_result r db ≡ false) (λ r. breaks_result r db' ≡ false) rs
      (λ r h. ground (arith, runs r.run_id, cases r.case_id)) a

has_run-update :
    (test : EvalRun → Bool) (set : EvalRun → EvalRun) (rs : List EvalRun) (k : String)
    → ((r : EvalRun) → (set r).id ≡ r.id)
    → is_some (select_one (run_by_id k) (update_where test set rs))
      ≡ is_some (select_one (run_by_id k) rs)
has_run-update test set rs k keep =
    rw (select_one-update_where run_by_id k test set rs (λ r. rw (keep r) refl))
      (split (select_one (run_by_id k) rs))
  where
    split :
        (o : Option EvalRun)
        → is_some {A = EvalRun}
            (elim o [ none ↦ none | some r ↦ some (if test r then set r else r) ])
          ≡ is_some o
    split none = refl
    split (some r) = refl

-- Every `UPDATE` of runs leaves their ids as they are.
pub update_runs-IsValid :
    (test : EvalRun → Bool) (set : EvalRun → EvalRun) (db : Evaluations)
    → ((r : EvalRun) → (set r).id ≡ r.id)
    → IsValid db
    → IsValid (record db { runs = update_where test set db.runs })
update_runs-IsValid test set db keep v = record {
  cases_unique = v.cases_unique;
  runs_unique =
      Unique-update_where run_by_id run_key test set db.runs keep (λ k r. rw (keep r) refl)
        v.runs_unique;
  results_unique = v.results_unique;
  linked =
      linked-more db (record db { runs = update_where test set db.runs })
        (λ k h. rw (has_run-update test set db.runs k keep) h) (λ k h. h) db.results v.linked;
}

pub claim_next_eval_run-IsValid :
    (now : ℕ) (db : Evaluations) → IsValid db → IsValid (claim_next_eval_run now db).1
unfolding claim_next_eval_run
claim_next_eval_run-IsValid now db v = elim (Option-cases (next_queued db.runs)) [
  | inl idle ↦ rw (idle, claim_next_eval_run) v
  | inr (r, found) ↦
      let kept = update_runs-IsValid (is_queued_run r.id) (started_run now) db (λ x. refl) v in
      elim (Bool-cases (eqb (count_where (is_queued_run r.id) db.runs) 0)) [
        | inl lost ↦ rw (found, claim_next_eval_run, lost) kept
        | inr won ↦ rw (found, claim_next_eval_run, won) kept
      ]
]
