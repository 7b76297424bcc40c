-- ===== src/Catalog/Jobs/Claims.antt =====
-- Which job `claim_next_job` takes, and that a job goes to one worker at a time.
use its_middle_platform_agen.Prelude.Table.TextKey.{select_one-keyed_update}
use its_middle_platform_agen.Prelude.Result.{ok}
use its_middle_platform_agen.Catalog.Jobs.Leases.{row}
use mathlib.Core.Path.{subst}
use its_middle_platform_agen.Catalog.Jobs.Invariant.{IsValid, id_of}
use its_middle_platform_agen.Prelude.Table.{update_where, select_one}
use its_middle_platform_agen.Prelude.Table.Keys.{Unique}
use its_middle_platform_agen.Catalog.Models.{queued, is_queued, Catalog, job_by_id, SyncJob}
use its_middle_platform_agen.Prelude.{
  ◌≢◌, if◌then◌else◌, refl, ◌∙◌, sym, eq→path, eq_refl, ◌==◌, String, Option-cases, inr, inl, ◌≤◌,
  [], Bool-cases, ◌∷◌, ◌⊎◌, true, false, some, none, arith, All, ◌<◌, List, ℕ, ◌≡◌,
}
use its_middle_platform_agen.Prelude.Strip.{is_empty, strip}
use its_middle_platform_agen.Catalog.Jobs.{
  claim_job, lease, is_queued_id, claim_next_job, is_due, first_of_two, next_due,
}

-- `a` stands no later than `b` in the order of the queue.
abbrev pub Earlier : SyncJob → SyncJob → Type 0
Earlier a b =
    (a.available_at < b.available_at)
    ⊎ (a.available_at ≡ b.available_at) × (a.created_at ≤ b.created_at)

abbrev pub IsFirst : ℕ → List SyncJob → SyncJob → Type 0
IsFirst now jobs j = (is_due now j ≡ true) × All (λ r. is_due now r ≡ true → Earlier j r) jobs

pub next_due-none :
    (now : ℕ) (jobs : List SyncJob)
    → next_due now jobs ≡ none
    → All (λ r. is_due now r ≡ false) jobs
unfolding next_due
next_due-none now [] h = tt
next_due-none now (j ∷ jobs) h = elim (Bool-cases (is_due now j)) [
  | inl due ↦ absurd (ground arith)
  | inr later ↦ (later, next_due-none now jobs (rw later at h))
]

Earlier-trans : (a b c : SyncJob) → Earlier a b → Earlier b c → Earlier a c
Earlier-trans a b c h k = ground arith

first_of_two_lem :
    (j k : SyncJob) → Earlier (first_of_two j (some k)) j × Earlier (first_of_two j (some k)) k
unfolding first_of_two
first_of_two_lem j k = ground arith

first_of_two-cases : (j k : SyncJob) → (first_of_two j (some k) ≡ j) ⊎ (first_of_two j (some k) ≡ k)
unfolding first_of_two
first_of_two-cases j k = ground arith

first_of_two-none : (j : SyncJob) → first_of_two j none ≡ j
unfolding first_of_two
first_of_two-none j = refl

All-Earlier :
    (now : ℕ) (a b : SyncJob) (jobs : List SyncJob)
    → Earlier a b
    → All (λ r. is_due now r ≡ true → Earlier b r) jobs
    → All (λ r. is_due now r ≡ true → Earlier a r) jobs
All-Earlier now a b [] h all = tt
All-Earlier now a b (r ∷ jobs) h all =
    (λ due. Earlier-trans a b r h (all.0 due), All-Earlier now a b jobs h all.1)

none_due :
    (now : ℕ) (j : SyncJob) (jobs : List SyncJob)
    → All (λ r. is_due now r ≡ false) jobs
    → All (λ r. is_due now r ≡ true → Earlier j r) jobs
none_due now j [] all = tt
none_due now j (r ∷ jobs) all = (λ due. absurd (ground arith), none_due now j jobs all.1)

first_of_two-IsFirst :
    (now : ℕ) (x k : SyncJob) (jobs : List SyncJob)
    → is_due now x ≡ true
    → IsFirst now jobs k
    → IsFirst now (x ∷ jobs) (first_of_two x (some k))
first_of_two-IsFirst now x k jobs due first = (
  elim (first_of_two-cases x k) [ inl p ↦ rw p due | inr q ↦ rw q first.0 ],
  (
    (λ _. (first_of_two_lem x k).0),
    All-Earlier now (first_of_two x (some k)) k jobs (first_of_two_lem x k).1 first.1,
  ),
)

pub next_due-IsFirst :
    (now : ℕ) (jobs : List SyncJob) (j : SyncJob) → next_due now jobs ≡ some j → IsFirst now jobs j
unfolding next_due
next_due-IsFirst now [] j h = cc
next_due-IsFirst now (x ∷ jobs) j h = elim (Bool-cases (is_due now x)) [
  | inr later ↦
      let rest = next_due-IsFirst now jobs j (rw later at h) in
      (rest.0, ((λ due. absurd (ground arith)), rest.1))
  | inl due ↦ elim (Option-cases (next_due now jobs)) [
    | inl alone ↦
        let e : x ≡ j = sym (first_of_two-none x) ∙ ground arith in
        subst (IsFirst now (x ∷ jobs)) e
          (due, ((λ _. ground arith), none_due now x jobs (next_due-none now jobs alone)))
    | inr (k, found) ↦
        let e : first_of_two x (some k) ≡ j = ground arith in
        subst (IsFirst now (x ∷ jobs)) e
          (first_of_two-IsFirst now x k jobs due (next_due-IsFirst now jobs k found))
  ]
]

-- The row before another with a different key is passed over.
skip_head :
    (k : String) (x j : SyncJob) (jobs : List SyncJob)
    → select_one (job_by_id x.id) jobs ≡ none
    → select_one (job_by_id k) jobs ≡ some j
    → select_one (job_by_id k) (x ∷ jobs) ≡ some j
unfolding select_one
skip_head k x j jobs fresh found = elim (Bool-cases (x.id == k)) [
  | inl same ↦
      let e : x.id ≡ k = eq→path x.id k same in
      let gone : select_one (job_by_id k) jobs ≡ none = rw e at fresh in absurd (ground arith)
  | inr other ↦ rw other found
]

pub next_due-row :
    (now : ℕ) (jobs : List SyncJob) (j : SyncJob)
    → Unique job_by_id id_of jobs
    → next_due now jobs ≡ some j
    → select_one (job_by_id j.id) jobs ≡ some j
unfolding next_due
next_due-row now [] j u h = cc
next_due-row now (x ∷ jobs) j u h = elim (Bool-cases (is_due now x)) [
  | inr later ↦ skip_head j.id x j jobs u.0 (next_due-row now jobs j u.1 (rw later at h))
  | inl due ↦ elim (Option-cases (next_due now jobs)) [
    | inl alone ↦
        let e : x ≡ j = sym (first_of_two-none x) ∙ ground arith in
        rw (← e) (unfold select_one in rw (eq_refl x.id))
    | inr (k, found) ↦
        let e : first_of_two x (some k) ≡ j = ground arith in
        elim (first_of_two-cases x k) [
          | inl p ↦ let q : x ≡ j = sym p ∙ e in rw (← q) (unfold select_one in rw (eq_refl x.id))
          | inr p ↦
              let q : k ≡ j = sym p ∙ e in
              rw (← q) (skip_head k.id x k jobs u.0 (next_due-row now jobs k u.1 found))
        ]
  ]
]

-- A job may be claimed at `now`.
abbrev pub IsDue : ℕ → SyncJob → Type 0
IsDue now j = (j.state ≡ queued) × (j.available_at ≤ now)

IsDue→due : (now : ℕ) (j : SyncJob) → IsDue now j → is_due now j ≡ true
IsDue→due now j h = ground arith

due→IsDue : (now : ℕ) (j : SyncJob) → is_due now j ≡ true → IsDue now j
due→IsDue now j h = ground arith

first→IsDue :
    (now : ℕ) (j : SyncJob) (jobs : List SyncJob)
    → All (λ r. is_due now r ≡ true → Earlier j r) jobs
    → All (λ r. IsDue now r → Earlier j r) jobs
first→IsDue now j [] all = tt
first→IsDue now j (r ∷ jobs) all = ((λ h. all.0 (IsDue→due now r h)), first→IsDue now j jobs all.1)

none→IsDue :
    (now : ℕ) (jobs : List SyncJob)
    → All (λ r. is_due now r ≡ false) jobs
    → All (λ r. ¬ IsDue now r) jobs
none→IsDue now [] all = tt
none→IsDue now (r ∷ jobs) all =
    ((λ h. absurd (ground (arith, IsDue→due now r))), none→IsDue now jobs all.1)

-- What a claim does to the table: the job `j` goes to the worker, and no other row changes.
pub record Claims (w : String) (now : ℕ) (db : Catalog) (j : SyncJob) : Type 0 where
  pub stored : row j.id db ≡ some j
  pub due : IsDue now j
  pub first : All (λ r. IsDue now r → Earlier j r) db.jobs
  pub result : (claim_next_job w now db).0 ≡ ok (some (lease (strip w) now j))
  pub rows :
      (k : String)
      → row k (claim_next_job w now db).1
        ≡ (if k == j.id then some (lease (strip w) now j) else row k db)

claimed_row :
    (k w : String) (now : ℕ) (j : SyncJob) (db : Catalog)
    → row j.id db ≡ some j
    → is_queued j.state ≡ true
    → row k (record db { jobs = update_where (is_queued_id j.id) (lease w now) db.jobs })
      ≡ (if k == j.id then some (lease w now j) else row k db)
claimed_row k w now j db stored waits =
    select_one-keyed_update id_of j.id (λ r. is_queued r.state) (lease w now) k db.jobs j
      (λ x. refl) stored waits

pub claim_job-Claims :
    (w : String) (now : ℕ) (db : Catalog) (j : SyncJob)
    → IsValid db
    → is_empty (strip w) ≡ false
    → next_due now db.jobs ≡ some j
    → Claims w now db j
unfolding claim_next_job claim_job
claim_job-Claims w now db j v named found =
    let first = next_due-IsFirst now db.jobs j found in
    let stored : row j.id db ≡ some j = next_due-row now db.jobs j v.ids found in
    let waits : is_queued j.state ≡ true = ground (arith, first.0) in
    let rows = λ (k : String). claimed_row k (strip w) now j db stored waits in
    record {
      stored = stored;
      due = due→IsDue now j first.0;
      first = first→IsDue now j db.jobs first.1;
      result = rw (named, claim_next_job) (rw found (rw (rows j.id) (rw (eq_refl j.id) refl)));
      rows = λ k. rw (named, claim_next_job) (rw found (rows k));
    }

-- For a named worker, `claim_next_job` returns no job and changes nothing when no queued job is
-- due; else it leases the due job that is first by availability and then by creation, and every
-- other row stays as it was.
pub claim_next_job_correct :
    (w : String) (now : ℕ) (db : Catalog)
    → IsValid db
    → is_empty (strip w) ≡ false
    → (claim_next_job w now db ≡ (ok none, db)) × All (λ r. ¬ IsDue now r) db.jobs
      ⊎ ((j : SyncJob) × Claims w now db j)
unfolding claim_next_job
claim_next_job_correct w now db v named = elim (Option-cases (next_due now db.jobs)) [
  | inl idle ↦ inl (
    rw (named, claim_next_job) (rw idle refl),
    none→IsDue now db.jobs (next_due-none now db.jobs idle),
  )
  | inr (j, found) ↦ inr (j, claim_job-Claims w now db j v named found)
]

-- Two workers that claim one after the other never hold the same job.
pub claims_differ :
    (w w' : String) (now now' : ℕ) (db : Catalog) (j j' : SyncJob)
    → Claims w now db j
    → Claims w' now' (claim_next_job w now db).1 j'
    → j.id ≢ j'.id
claims_differ w w' now now' db j j' c c' same =
    let taken : row j'.id (claim_next_job w now db).1 ≡ some (lease (strip w) now j) =
      rw (← same) (c.rows j.id ∙ rw (eq_refl j.id) refl) in
    let e : some j' ≡ some (lease (strip w) now j) = sym c'.stored ∙ taken in ground (arith, c'.due)
