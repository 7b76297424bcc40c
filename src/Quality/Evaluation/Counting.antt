-- ===== src/Quality/Evaluation/Counting.antt =====
-- The loop over the cases of a run that nobody else writes meanwhile (knowledge/quality/evaluation.py).
use its_middle_platform_agen.Prelude.Table.Orders.{is_some-append, is_some-append_hit}
use its_middle_platform_agen.Prelude.Table.Keys.{Unique}
use its_middle_platform_agen.Prelude.Table.Laws.{count_where-append, select_one-append}
use its_middle_platform_agen.Quality.Evaluation.Saving.{save_ending-Adds, IsOpen, is_cancelled}
use its_middle_platform_agen.Quality.Evaluation.Completing.{
  complete_eval_run-found, get_eval_run-update, IsFinal,
}
use its_middle_platform_agen.Quality.Invariant.{has_case}
use its_middle_platform_agen.Quality.Runs.{progressed, update_eval_progress, get_eval_run}
use its_middle_platform_agen.Quality.Judging.{Judged, AgentResponse}
use its_middle_platform_agen.Prelude.Table.{count_where, select_one}
use its_middle_platform_agen.Prelude.{
  eq_refl, length, ap, ◌∙◌, ◌+◌, eq_comm, arith, ◌++◌, ◌==◌, is_some, All, Option, String, List, ℕ,
  ◌≡◌, none, some, [], ◌∷◌, true, false, refl,
}
use its_middle_platform_agen.Prelude.Result.{ok}
use its_middle_platform_agen.Quality.Records.{
  case_key, result_of_run, result_by, case_by_id, Evaluations, EvalRun, EvalResult, EvalCase,
  Outcome,
}
use its_middle_platform_agen.Quality.Evaluation.{after_case, run_case, run_selected, Ending}

-- The agent answers, and nobody else writes the tables.
abbrev pub undisturbed : (EvalCase → Ending) → EvalCase → Evaluations → Ending × Evaluations
undisturbed answer c db = (answer c, db)

abbrev pub HasResult : List EvalResult → String → EvalCase → Type 0
HasResult rs run_id c = is_some (select_one (result_by (run_id, c.id)) rs) ≡ true

-- Where the loop stands: the run is not cancelled, and the cases ahead have no result yet.
pub record IsRunning (run_id : String) (total : ℕ) (cases : List EvalCase) (db : Evaluations)
    : Type 0 where
  pub latest : EvalRun
  pub found : get_eval_run run_id db ≡ some latest
  pub uncancelled : latest.cancel_requested ≡ false
  pub same_total : latest.total_cases ≡ total
  pub stored : All (λ c. has_case db c.id ≡ true) cases
  pub fresh : All (λ c. select_one (result_by (run_id, c.id)) db.results ≡ none) cases

other_cases :
    (id : String) (cs : List EvalCase)
    → select_one (case_by_id id) cs ≡ none
    → All (λ c. (c.id == id) ≡ false) cs
unfolding select_one
other_cases id [] h = tt
other_cases id (c ∷ cs) h = (ground arith, other_cases id cs (ground arith))

fresh-append :
    (run_id id : String) (r : EvalResult) (rs : List EvalResult) (cs : List EvalCase)
    → r.case_id ≡ id
    → All (λ c. (c.id == id) ≡ false) cs
    → All (λ c. select_one (result_by (run_id, c.id)) rs ≡ none) cs
    → All (λ c. select_one (result_by (run_id, c.id)) (rs ++ r ∷ []) ≡ none) cs
fresh-append run_id id r rs [] e others fresh = tt
fresh-append run_id id r rs (c ∷ cs) e others fresh = (
  rw (select_one-append (result_by (run_id, c.id)) rs r)
      (rw (fresh.0) (ground (arith, eq_comm r.case_id c.id, others.0))),
  fresh-append run_id id r rs cs e others.1 fresh.1,
)

module _ (casefold : String → String) (judge : Option (EvalCase → AgentResponse → Judged))
    (chat : EvalCase → Evaluations → Ending × Evaluations) (clock : ℕ → ℕ) where
  run_selected-next :
      (run_id : String) (index : ℕ) (c : EvalCase) (cs : List EvalCase) (db : Evaluations)
      (latest : EvalRun)
      → get_eval_run run_id db ≡ some latest
      → latest.cancel_requested ≡ false
      → run_selected casefold judge chat clock run_id index (c ∷ cs) db
        ≡ after_case casefold judge chat clock
            (run_selected casefold judge chat clock run_id (index + 1) cs)
            (run_case casefold judge chat clock run_id
              (clock index)
              c
              (update_eval_progress run_id index (clock index) db))
  unfolding run_selected
  run_selected-next run_id index c cs db latest found wanted =
      rw (found, run_selected) (rw wanted refl)

module _ (casefold : String → String) (judge : Option (EvalCase → AgentResponse → Judged))
    (answer : EvalCase → Ending) (clock : ℕ → ℕ) (run_id : String) (total : ℕ)
    (ends : (c : EvalCase) → is_cancelled (answer c) ≡ false) where
  abbrev pub loop : ℕ → List EvalCase → Evaluations → Outcome EvalRun
  loop index cs db = run_selected casefold judge (undisturbed answer) clock run_id index cs db

  -- One round adds the result of its case, and the loop goes on.
  round :
      (index : ℕ) (c : EvalCase) (cs : List EvalCase) (db : Evaluations)
      → Unique case_by_id case_key (c ∷ cs)
      → IsRunning run_id total (c ∷ cs) db
      → (db' : Evaluations) × (r : EvalResult) × (loop index (c ∷ cs) db ≡ loop (index + 1) cs db')
        × IsRunning run_id total cs db'
        × (db'.results ≡ db.results ++ r ∷ [])
        × (r.run_id ≡ run_id)
        × (r.case_id ≡ c.id)
  unfolding run_case update_eval_progress get_eval_run
  round index c cs db u s =
      let progress : Evaluations = update_eval_progress run_id index (clock index) db in
      let e =
        get_eval_run-update run_id (progressed index (clock index)) db.runs s.latest (λ r. refl)
          s.found in
      let o : IsOpen run_id c progress = (rw e refl, s.stored.0, s.fresh.0) in
      let (r, k, i, h) =
        save_ending-Adds casefold judge run_id (clock index) c (answer c) progress (ends c) o in
      (
        record progress { results = db.results ++ r ∷ [] },
        r,
        run_selected-next casefold judge (undisturbed answer) clock run_id index c cs db s.latest
              s.found s.uncancelled
            ∙ ap (after_case casefold judge (undisturbed answer) clock (loop (index + 1) cs)) h,
        record {
          latest = progressed index (clock index) s.latest;
          found = e;
          uncancelled = s.uncancelled;
          same_total = s.same_total;
          stored = s.stored.1;
          fresh = fresh-append run_id c.id r db.results cs i (other_cases c.id cs u.0) s.fresh.1;
        },
        refl,
        k,
        i,
      )

  -- The end of the loop, which keeps the results of earlier cases too.
  abbrev pub LoopEnds : List EvalResult → List EvalCase → Outcome EvalRun → Type 0
  LoopEnds before cs out =
      (r : EvalRun) × (db : Evaluations) × (out ≡ (ok r, db))
      × (get_eval_run run_id db ≡ some r)
      × (r.total_cases ≡ total)
      × (count_where (result_of_run run_id) db.results
          ≡ count_where (result_of_run run_id) before + length cs)
      × IsFinal run_id db.results r
      × All (HasResult db.results run_id) cs
      × ((c : EvalCase) → HasResult before run_id c → HasResult db.results run_id c)

  pub loop_ends :
      (index : ℕ) (cs : List EvalCase) (db : Evaluations)
      → Unique case_by_id case_key cs
      → IsRunning run_id total cs db
      → LoopEnds db.results cs (loop index cs db)
  unfolding run_selected
  loop_ends index [] db u s =
      let (r, db', e, found, same, sum, final) =
        complete_eval_run-found run_id (clock index) db s.latest s.found in
      (
        r,
        db',
        e,
        found,
        sum ∙ s.same_total,
        rw same (omega arith),
        rw same final,
        tt,
        λ c h. rw same h,
      )
  loop_ends index (c ∷ cs) db u s =
      let (db1, row, e, s1, added, mine, of_case) = round index c cs db u s in
      let (r, db', out, found, sum, counted, final, covered, kept) =
        loop_ends (index + 1) cs db1 u.1 s1 in
      let hit : result_by (run_id, c.id) row ≡ true =
        rw (mine, of_case) (ground (arith, eq_refl run_id, eq_refl c.id)) in
      let more = count_where-append (result_of_run run_id) db.results row in
      let of_run : (row.run_id == run_id) ≡ true = rw mine (eq_refl run_id) in
      let head : HasResult db1.results run_id c =
        rw added (is_some-append_hit (result_by (run_id, c.id)) db.results row hit) in
      (
        r,
        db',
        e ∙ out,
        found,
        sum,
        ground (arith, counted, ap (count_where (result_of_run run_id)) added, more, of_run),
        final,
        (kept c head, covered),
        λ x h. kept x (rw added (is_some-append (result_by (run_id, x.id)) db.results row h)),
      )
