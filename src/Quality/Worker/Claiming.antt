-- ===== src/Quality/Worker/Claiming.antt =====
-- The claim of the next queued run (knowledge/quality/repository.py).
use its_middle_platform_agen.Prelude.Table.Counts.{select_all-Stored}
use its_middle_platform_agen.Prelude.Table.TextKey.{select_one-keyed_update, count-keyed_self}
use its_middle_platform_agen.Prelude.Table.{update_where, select_one, select_all}
use its_middle_platform_agen.Quality.Runs.{
  is_queued_run, started_run, has_run_status, earlier_run, next_queued, get_eval_run,
  claim_next_eval_run,
}
use its_middle_platform_agen.Prelude.{
  eq_refl, eq→path, leb, arith, Bool-cases, ap, All, Option, List, ℕ, ◌≡◌, none, some, [], ◌∷◌,
  true, inl, inr, refl,
}
use mathlib.Core.Path.{subst}
use its_middle_platform_agen.Quality.Records.{run_key, run_by_id, Evaluations, EvalRun}
use its_middle_platform_agen.Quality.Invariant.{IsValid}

earlier_run-All {κ} :
    (P : EvalRun → Type κ) (x : EvalRun) (rest : Option EvalRun)
    → P x
    → ((s : EvalRun) → rest ≡ some s → P s)
    → P (earlier_run x rest)
earlier_run-All P x none h f = h
earlier_run-All P x (some s) h f = elim (Bool-cases (leb x.created_at s.created_at)) [
  | inl e ↦ rw e h
  | inr e ↦ rw e (f s refl)
]

-- A property of all runs holds of the next one, which is queued.
pub next_queued-All {κ} :
    (P : EvalRun → Type κ) (rs : List EvalRun) (r : EvalRun)
    → All P rs
    → next_queued rs ≡ some r
    → P r × (has_run_status "queued" r ≡ true)
unfolding next_queued
next_queued-All P [] r a h = absurd (ground arith)
next_queued-All P (x ∷ rs) r a h = elim (Bool-cases (has_run_status "queued" x)) [
  | inl waits ↦
      let e : some (earlier_run x (next_queued rs)) ≡ some r = rw waits at h in
      let same : earlier_run x (next_queued rs) ≡ r = cc in
      subst (λ y. P y × (has_run_status "queued" y ≡ true)) (same)
        (earlier_run-All (λ y. P y × (has_run_status "queued" y ≡ true)) x (next_queued rs)
          (a.0, waits) (λ s. next_queued-All P rs s a.1))
  | inr other ↦ next_queued-All P rs r a.1 (rw other at h)
]

every_row {ℓ} : {R : Type ℓ} (rs : List R) → select_all (λ _. true) rs ≡ rs
unfolding select_all
every_row [] = refl
every_row (r ∷ rs) = ap (λ x. r ∷ x) (every_row rs)

pub next_queued-stored :
    (db : Evaluations) (r : EvalRun)
    → IsValid db
    → next_queued db.runs ≡ some r
    → (get_eval_run r.id db ≡ some r) × (has_run_status "queued" r ≡ true)
unfolding get_eval_run
next_queued-stored db r v h =
    let stored =
      select_all-Stored run_by_id run_key (λ k x. eq→path x.id k) (λ x. eq_refl x.id) (λ _. true)
        db.runs v.runs_unique in
    next_queued-All (λ m. select_one (run_by_id m.id) db.runs ≡ some m) db.runs r
      (subst (All (λ m. select_one (run_by_id m.id) db.runs ≡ some m)) (every_row db.runs) stored) h

abbrev pub with_started : ℕ → EvalRun → Evaluations → Evaluations
with_started now r db = record db {
  runs = update_where (is_queued_run r.id) (started_run now) db.runs;
}

-- The claim of the next run starts it, and it is the row that is read back.
pub claim_next_eval_run-starts :
    (now : ℕ) (db : Evaluations) (r : EvalRun)
    → IsValid db
    → next_queued db.runs ≡ some r
    → (claim_next_eval_run now db ≡ (some (started_run now r), with_started now r db))
      × (get_eval_run r.id (with_started now r db) ≡ some (started_run now r))
unfolding claim_next_eval_run get_eval_run
claim_next_eval_run-starts now db r v h =
    let (found, waits) = next_queued-stored db r v h in
    let one =
      count-keyed_self run_key r.id (has_run_status "queued") (started_run now) db.runs r
        v.runs_unique found waits in
    let e =
      select_one-keyed_update run_key r.id (has_run_status "queued") (started_run now) r.id db.runs
        r (λ x. refl) found waits in
    let stored = rw (eq_refl r.id) at e in
    (rw (h, claim_next_eval_run, one) (rw stored refl), stored)

-- The claim changes neither cases nor results.
pub claim-next :
    (now : ℕ) (db : Evaluations) (r : EvalRun)
    → IsValid db
    → next_queued db.runs ≡ some r
    → (db' : Evaluations) × (claim_next_eval_run now db ≡ (some (started_run now r), db'))
      × (get_eval_run r.id db' ≡ some (started_run now r))
      × (db'.cases ≡ db.cases)
      × (db'.results ≡ db.results)
claim-next now db r v h =
    let (e, stored) = claim_next_eval_run-starts now db r v h in
    (with_started now r db, e, stored, refl, refl)
