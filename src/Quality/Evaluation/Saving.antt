-- ===== src/Quality/Evaluation/Saving.antt =====
-- What the evaluation of one case saves (knowledge/quality/evaluation.py).
use its_middle_platform_agen.Prelude.Table.Orders.{
  is_some-append_hit, is_some-select_all, is_some-order_by,
}
use its_middle_platform_agen.Prelude.Table.{select_all, order_by, select_one}
use its_middle_platform_agen.Quality.Invariant.{has_case, has_run}
use its_middle_platform_agen.Quality.Judging.{
  judge_timed_out, judge_failed, judge_raised, verdict, judged_result, with_judge, checked_result,
  error_result, assess, Judged, AgentResponse,
}
use its_middle_platform_agen.Quality.Results.{
  older_result, breaks_result, list_eval_results, save_eval_result,
}
use its_middle_platform_agen.Prelude.{
  Bool, eq_refl, ◌&&◌, arith, Option-cases, ◌++◌, is_some, Option, List, String, ℕ, ◌≡◌, none, some,
  [], ◌∷◌, true, false, inl, inr, refl,
}
use its_middle_platform_agen.Prelude.Result.{Result, ok, err}
use its_middle_platform_agen.Quality.Records.{
  result_of_run, result_key, result_of_case, result_by, Evaluations, EvalCase, EvalResult, Outcome,
}
use its_middle_platform_agen.Quality.Evaluation.{
  answered, save_ending, Ending, save_assessed, saved, raised, cancelled,
}

appended_found :
    (r : EvalResult) (rs : List EvalResult)
    → is_some (
        select_one
          (result_of_case r.case_id)
          (order_by older_result (select_all (result_of_run r.run_id) (rs ++ r ∷ []))))
      ≡ true
appended_found r rs =
    rw
      (is_some-order_by older_result (result_of_case r.case_id)
        (select_all (result_of_run r.run_id) (rs ++ r ∷ [])))
      (rw (is_some-select_all (result_of_case r.case_id) (result_of_run r.run_id) (rs ++ r ∷ []))
        (is_some-append_hit (λ x. result_of_run r.run_id x && result_of_case r.case_id x) rs r hit))
  where
    hit : (result_of_run r.run_id r && result_of_case r.case_id r) ≡ true
    hit = ground (arith, eq_refl r.run_id, eq_refl r.case_id)

-- The first result of a case is inserted.
pub save_eval_result-fresh :
    (r : EvalResult) (db : Evaluations)
    → breaks_result r db ≡ false
    → select_one (result_by (result_key r)) db.results ≡ none
    → (s : EvalResult) × (save_eval_result r db
        ≡ (ok s, record db { results = db.results ++ r ∷ [] }))
unfolding save_eval_result list_eval_results
save_eval_result-fresh r db links fresh =
    elim (Option-cases (
      select_one (result_of_case r.case_id)
        (order_by older_result (select_all (result_of_run r.run_id) (db.results ++ r ∷ []))))) [
          | inl missing ↦
              let bad : is_some {A = EvalResult} none ≡ true =
                rw missing at (appended_found r db.results) in
              absurd (ground arith)
          | inr (s, found) ↦ (s, rw (links, fresh) (rw found refl))
        ]

-- `c` has no result in the run yet, and both are rows of their tables.
abbrev pub IsOpen : String → EvalCase → Evaluations → Type 0
IsOpen run_id c db =
    (has_run db run_id ≡ true)
    × (has_case db c.id ≡ true)
    × (select_one (result_by (run_id, c.id)) db.results ≡ none)

-- A row of the case is added, and nothing else changes.
abbrev pub Adds : String → EvalCase → Evaluations → Outcome Unit → Type 0
Adds run_id c db out =
    (r : EvalResult) × (r.run_id ≡ run_id)
    × (r.case_id ≡ c.id)
    × (out ≡ (ok tt, record db { results = db.results ++ r ∷ [] }))

saved-Adds :
    (run_id : String) (c : EvalCase) (db : Evaluations) (r : EvalResult)
    → r.run_id ≡ run_id
    → r.case_id ≡ c.id
    → IsOpen run_id c db
    → Adds run_id c db (saved (save_eval_result r db))
saved-Adds run_id c db r e f o =
    let links : breaks_result r db ≡ false = rw (e, f) (rw (o.0, o.1) refl) in
    let fresh : select_one (result_by (result_key r)) db.results ≡ none = rw (e, f) (o.2) in
    let (s, h) = save_eval_result-fresh r db links fresh in (r, e, f, rw h refl)

save_assessed-Adds :
    (run_id : String) (c : EvalCase) (duration now : ℕ) (a : Result (String × ℕ) EvalResult)
    (db : Evaluations)
    → ((r : EvalResult) → a ≡ ok r → (r.run_id ≡ run_id) × (r.case_id ≡ c.id))
    → IsOpen run_id c db
    → Adds run_id c db (save_assessed run_id c duration now a db)
unfolding error_result
save_assessed-Adds run_id c duration now (ok r) db keyed o =
    let k = keyed r refl in
    let links : breaks_result r db ≡ false = rw (k.0, k.1) (rw (o.0, o.1) refl) in
    let fresh : select_one (result_by (result_key r)) db.results ≡ none = rw (k.0, k.1) (o.2) in
    let (s, h) = save_eval_result-fresh r db links fresh in (r, k.0, k.1, rw h refl)
save_assessed-Adds run_id c duration now (err (error_type, until)) db keyed o =
    saved-Adds run_id c db (error_result run_id c error_type until now) refl refl o

abbrev SameKey : EvalResult → EvalResult → Type 0
SameKey r s = (r.run_id ≡ s.run_id) × (r.case_id ≡ s.case_id)

judged_result-key :
    (c : EvalCase) (r out : EvalResult) (j : Judged) → judged_result c r j ≡ ok out → SameKey out r
unfolding judged_result
judged_result-key c r out (verdict score supported contradiction) h = ground arith
judged_result-key c r out judge_failed h = ground arith
judged_result-key c r out judge_timed_out h = ground arith
judged_result-key c r out (judge_raised error_type duration) h = absurd (ground arith)

with_judge-key :
    (judge : Option (EvalCase → AgentResponse → Judged)) (c : EvalCase) (response : AgentResponse)
    (r out : EvalResult)
    → with_judge judge c response r ≡ ok out
    → SameKey out r
unfolding with_judge
with_judge-key none c response r out h = ground arith
with_judge-key (some judge) c response r out h =
    ground (arith, judged_result-key c r out (judge c response))

abbrev pub is_cancelled : Ending → Bool
is_cancelled (answered response duration) = false
is_cancelled (raised error_type duration) = false
is_cancelled cancelled = true

module _ (casefold : String → String) (judge : Option (EvalCase → AgentResponse → Judged)) where
  pub assess-key :
      (run_id : String) (c : EvalCase) (response : AgentResponse) (duration now : ℕ)
      (r : EvalResult)
      → assess casefold judge run_id c response duration now ≡ ok r
      → (r.run_id ≡ run_id) × (r.case_id ≡ c.id)
  unfolding assess checked_result
  assess-key run_id c response duration now r h =
      with_judge-key judge c response
        (checked_result casefold (is_some judge) run_id c response duration now) r h

  -- Whatever the end of a case but a cancellation, one row of it is saved.
  pub save_ending-Adds :
      (run_id : String) (now : ℕ) (c : EvalCase) (ending : Ending) (db : Evaluations)
      → is_cancelled ending ≡ false
      → IsOpen run_id c db
      → Adds run_id c db (save_ending casefold judge run_id now c ending db)
  unfolding save_ending error_result
  save_ending-Adds run_id now c (answered response duration) db ends o =
      save_assessed-Adds run_id c duration now
        (assess casefold judge run_id c response duration now) db
        (λ r h. assess-key run_id c response duration now r h) o
  save_ending-Adds run_id now c (raised error_type duration) db ends o =
      saved-Adds run_id c db (error_result run_id c error_type duration now) refl refl o
  save_ending-Adds run_id now c cancelled db ends o = cc
