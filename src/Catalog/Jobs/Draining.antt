-- ===== src/Catalog/Jobs/Draining.antt =====
-- That claims drain the queue.
use its_middle_platform_agen.Prelude.Table.Counts.{
  count_where-update_where_le, count_where-update_where_less,
}
use its_middle_platform_agen.Catalog.Jobs.Writes.{claim_next_job-Write}
use its_middle_platform_agen.Catalog.Jobs.Keeps.{Write-IsValid}
use its_middle_platform_agen.Prelude.Strip.{strip, is_empty}
use its_middle_platform_agen.Prelude.Table.{select_one, count_where}
use its_middle_platform_agen.Catalog.Jobs.{
  lease, is_queued_id, next_due, is_due, claim_job, claim_next_job,
}
use its_middle_platform_agen.Catalog.Models.{job_by_id, is_queued, SyncJob, Catalog}
use its_middle_platform_agen.Catalog.Jobs.Claims.{
  next_due-none, next_due-row, next_due-IsFirst, Earlier,
}
use its_middle_platform_agen.Prelude.Table.Maps.{select_one-key}
use its_middle_platform_agen.Catalog.Jobs.Invariant.{IsValid, id_of}
use its_middle_platform_agen.Prelude.{
  ◌∙◌, eq→path, Option-cases, ◌+◌, ◌⊎◌, length, arith, Bool-cases, ◌≤◌, All, String, List, ℕ, ◌≡◌,
  some, [], ◌∷◌, true, false, inl, inr, refl,
}

-- Claims one after the other, each by a worker at a time.
unfoldable pub claims : List (String × ℕ) → Catalog → Catalog
claims [] db = db
claims (c ∷ cs) db = claims cs (claim_next_job c.0 c.1 db).1

-- The jobs that are due at a time.
abbrev pub due_jobs : ℕ → Catalog → ℕ
due_jobs t db = count_where (is_due t) db.jobs

later_first :
    (t now : ℕ) (j : SyncJob) (jobs : List SyncJob)
    → t ≤ now
    → is_due t j ≡ false
    → is_due now j ≡ true
    → All (λ r. is_due now r ≡ true → Earlier j r) jobs
    → count_where (is_due t) jobs ≡ 0
unfolding count_where
later_first t now j [] early not_yet due first = refl
later_first t now j (r ∷ jobs) early not_yet due first =
    let rest = later_first t now j jobs early not_yet due first.1 in
    elim (Bool-cases (is_due t r)) [
      | inr no_change ↦ rw no_change rest
      | inl hit ↦ let e = first.0 (ground arith) in absurd (ground arith)
    ]

none_left :
    (t now : ℕ) (jobs : List SyncJob)
    → t ≤ now
    → All (λ r. is_due now r ≡ false) jobs
    → count_where (is_due t) jobs ≡ 0
unfolding count_where
none_left t now [] early all = refl
none_left t now (r ∷ jobs) early all = ground (arith, none_left t now jobs early all.1)

-- A claim takes one of the jobs that are due at an earlier time, as long as there is one.
claim-fewer :
    (t now : ℕ) (w : String) (db : Catalog)
    → IsValid db
    → is_empty (strip w) ≡ false
    → t ≤ now
    → (due_jobs t (claim_next_job w now db).1 ≡ 0)
      ⊎ (due_jobs t (claim_next_job w now db).1 + 1 ≤ due_jobs t db)
unfolding claim_next_job claim_job
claim-fewer t now w db v named early = elim (Option-cases (next_due now db.jobs)) [
  | inl idle ↦ inl (
      rw (named, claim_next_job)
        (rw idle (none_left t now db.jobs early (next_due-none now db.jobs idle))))
  | inr (j, found) ↦
      let first = next_due-IsFirst now db.jobs j found in
      let stored = next_due-row now db.jobs j v.ids found in
      let waits : is_queued j.state ≡ true = ground (arith, first.0) in
      let picked : select_one (is_queued_id j.id) db.jobs ≡ some j =
        select_one-key job_by_id id_of (λ k r h. eq→path r.id k h) j.id (λ r. is_queued r.state)
          db.jobs v.ids
        ∙ rw stored (rw waits refl) in
      let set = lease (strip w) now in
      elim (Bool-cases (is_due t j)) [
        | inl held ↦ inr (
            rw (named, claim_next_job)
              (rw found (
                count_where-update_where_less (is_queued_id j.id) (is_due t) set db.jobs j picked
                  held (λ r. refl))))
        | inr later ↦
            let zero' = later_first t now j db.jobs early later first.0 first.1 in
            let le =
              count_where-update_where_le (is_queued_id j.id) (is_due t) set db.jobs
                (λ r h h'. absurd (ground arith)) in
            inl (rw (named, claim_next_job) (rw found (omega (arith, zero', le))))
      ]
]

-- Every job that is due at `t` is claimed: once as many claims were made after `t` as jobs were due,
-- by whatever workers and at whatever later times, none of those jobs is left in the queue, however
-- many other jobs become due meanwhile.
pub claims-drain :
    (t : ℕ) (cs : List (String × ℕ)) (db : Catalog)
    → IsValid db
    → All (λ c. (is_empty (strip c.0) ≡ false) × (t ≤ c.1)) cs
    → due_jobs t db ≤ length cs
    → due_jobs t (claims cs db) ≡ 0
unfolding claims
claims-drain t [] db v good enough = omega (arith, enough)
claims-drain t (c ∷ cs) db v good enough =
    claims-drain t cs (claim_next_job c.0 c.1 db).1
      (Write-IsValid (claim_next_job-Write c.0 c.1 db) v) good.1
      (elim (claim-fewer t c.1 c.0 db v good.0.0 good.0.1) [
        | inl zero' ↦ omega (arith, zero')
        | inr less ↦ omega (arith, less, enough)
      ])
