-- ===== src/Quality/Postgres.antt =====
-- `PostgresQualityRepository.claim_next_eval_run` (knowledge/quality/repository.py), one statement,
-- beside SQLite's claim.
use its_middle_platform_agen.Quality.Invariant.{IsValid}
use its_middle_platform_agen.Prelude.Table.Laws.{update_where-none}
use its_middle_platform_agen.Prelude.Table.Maps.{select_one-key_none}
use its_middle_platform_agen.Quality.Worker.Claiming.{
  claim_next_eval_run-starts, next_queued-stored, next_queued-All,
}
use its_middle_platform_agen.Prelude.Table.Keys.{Unique}
use its_middle_platform_agen.Prelude.Table.{update_where, select_one}
use its_middle_platform_agen.Quality.Runs.{
  claim_next_eval_run, is_queued_run, has_run_status, earlier_run, started_run, next_queued,
}
use its_middle_platform_agen.Quality.Records.{run_key, run_by_id, Evaluations, EvalRun}
use its_middle_platform_agen.Prelude.{
  sym, ◌∙◌, Option-cases, ap, eq→path, Bool-cases, text_leb, leb, ◌&&◌, ◌||◌, arith, ltb,
  if◌then◌else◌, eqb, String, Option, Bool, All, List, ℕ, ◌≡◌, none, some, [], ◌∷◌, true, false,
  inl, inr, refl,
}

-- `ORDER BY created_at, id`.
abbrev pub run_precedes : EvalRun → EvalRun → Bool
run_precedes a b =
    ltb a.created_at b.created_at || (eqb a.created_at b.created_at && text_leb a.id b.id)

abbrev pub first_run : EvalRun → Option EvalRun → EvalRun
first_run r none = r
first_run r (some s) = if run_precedes r s then r else s

-- `candidate`.
unfoldable pub first_queued : List EvalRun → Option EvalRun
first_queued [] = none
first_queued (r ∷ rs) =
    let rest = first_queued rs in
    if has_run_status "queued" r then some (first_run r rest) else rest

-- The `UPDATE … RETURNING` of the candidate.
unfoldable pub claim_first_eval_run : ℕ → Evaluations → Option EvalRun × Evaluations
unfolding first_queued
claim_first_eval_run now db = elim (first_queued db.runs) [
  | none ↦ (none, db)
  | some r ↦ (
    some (started_run now r),
    record db { runs = update_where (run_by_id r.id) (started_run now) db.runs },
  )
]

abbrev pub created_at_time : ℕ → EvalRun → Bool
created_at_time t r = eqb r.created_at t

abbrev pub created_key : EvalRun → ℕ
created_key r = r.created_at

other_times :
    (t : ℕ) (rs : List EvalRun)
    → select_one (created_at_time t) rs ≡ none
    → All (λ r. eqb r.created_at t ≡ false) rs
unfolding select_one
other_times t [] h = tt
other_times t (r ∷ rs) h = (ground arith, other_times t rs (ground arith))

first_run-earlier_run :
    (r : EvalRun) (o : Option EvalRun)
    → ((s : EvalRun) → o ≡ some s → eqb s.created_at r.created_at ≡ false)
    → first_run r o ≡ earlier_run r o
first_run-earlier_run r none other = refl
first_run-earlier_run r (some s) other =
    let h = other s refl in
    let e : run_precedes r s ≡ leb r.created_at s.created_at = ground arith in rw e refl

-- Without two runs of one time, both databases choose the same run.
first_queued-next_queued :
    (rs : List EvalRun) → Unique created_at_time created_key rs → first_queued rs ≡ next_queued rs
unfolding first_queued next_queued
first_queued-next_queued [] u = refl
first_queued-next_queued (r ∷ rs) u =
    let ih = first_queued-next_queued rs u.1 in
    let same = first_run-earlier_run r (next_queued rs) (λ s e.
      (next_queued-All (λ x. eqb x.created_at r.created_at ≡ false) rs s
        (other_times r.created_at rs u.0) e).0) in
    rw ih (rw same refl)

update_claimed :
    (k : String) (set : EvalRun → EvalRun) (rs : List EvalRun) (r : EvalRun)
    → Unique run_by_id run_key rs
    → select_one (run_by_id k) rs ≡ some r
    → has_run_status "queued" r ≡ true
    → update_where (is_queued_run k) set rs ≡ update_where (run_by_id k) set rs
unfolding select_one update_where
update_claimed k set [] r u found waits = refl
update_claimed k set (x ∷ rs) r u found waits = elim (Bool-cases (run_by_id k x)) [
  | inl hit ↦
      let e : some x ≡ some r = rw hit at found in
      let same : x ≡ r = cc in
      let id : x.id ≡ k = eq→path x.id k hit in
      let gone : select_one (run_by_id k) rs ≡ none = rw id at (u.0) in
      let gone' = select_one-key_none run_by_id k (has_run_status "queued") rs gone in
      let queued' : has_run_status "queued" x ≡ true = rw same waits in
      rw (hit, queued')
        (rw (update_where-none (is_queued_run k) set rs gone')
          (rw (update_where-none (run_by_id k) set rs gone) refl))
  | inr miss ↦ rw miss (ap (λ xs. x ∷ xs) (update_claimed k set rs r u.1 (rw miss at found) waits))
]

-- On valid tables in which no two runs have one creation time, the claim over PostgreSQL returns the
-- run that the claim over SQLite returns, and leaves the same tables.
pub claim_first_eval_run-claim_next_eval_run :
    (now : ℕ) (db : Evaluations)
    → IsValid db
    → Unique created_at_time created_key db.runs
    → claim_first_eval_run now db ≡ claim_next_eval_run now db
unfolding claim_first_eval_run claim_next_eval_run
claim_first_eval_run-claim_next_eval_run now db v u = elim (Option-cases (next_queued db.runs)) [
  | inl idle' ↦
      rw (first_queued-next_queued db.runs u ∙ idle', claim_first_eval_run)
        (rw (idle', claim_next_eval_run) refl)
  | inr (r, h) ↦
      let (found, waits) = next_queued-stored db r v h in
      rw (first_queued-next_queued db.runs u ∙ h, claim_first_eval_run)
        (ap (λ rs. (some (started_run now r), record db { runs = rs }))
            (sym (update_claimed r.id (started_run now) db.runs r v.runs_unique found waits))
          ∙ sym (claim_next_eval_run-starts now db r v h).0)
]
