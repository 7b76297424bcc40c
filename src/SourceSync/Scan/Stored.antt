-- ===== src/SourceSync/Scan/Stored.antt =====
-- The rounds of a scheduled scan, and a scan that finds every job there.
use its_middle_platform_agen.Catalog.Jobs.Requests.{enqueue_job-existing, with_job}
use its_middle_platform_agen.Prelude.Table.Counts.{All-weaken}
use its_middle_platform_agen.Prelude.Strip.Twice.{strip-strip}
use its_middle_platform_agen.Prelude.Table.Orders.{is_some-append}
use its_middle_platform_agen.Prelude.Strip.{strip, is_empty}
use its_middle_platform_agen.Catalog.Models.{KnowledgeSource, queued, SyncJob, Catalog}
use its_middle_platform_agen.SourceSync.Scan.{
  scanned, scan_cancelled, is_blank, after_enqueue, wanted, scan_sources, GitConfig,
  cancelled_reading, unreachable, commit_sha, stop_scan, nothing, sync_to, Remote, wanted_commit,
  Wanted,
}
use its_middle_platform_agen.Prelude.{
  sym, Option-cases, ap, ◌∙◌, ◌||◌, ◌+◌, Option, ◌==◌, arith, Bool-cases, All, is_some, ◌++◌, List,
  Bool, String, ℕ, ◌≡◌, none, some, [], ◌∷◌, true, false, inl, inr, refl,
}
use mathlib.Core.List.{append-nil, append_assoc}
use its_middle_platform_agen.Catalog.Jobs.{enqueue_job, same_request, existing_request}

-- The job that a source asks for is there.
abbrev pub is_stored : Wanted → String → List SyncJob → Bool
is_stored nothing id jobs = true
is_stored stop_scan id jobs = false
is_stored (sync_to c) id jobs =
    is_some (existing_request id (strip "scheduled") (some (strip c)) jobs)

abbrev pub asks : Wanted → ℕ
asks nothing = 0
asks stop_scan = 0
asks (sync_to c) = 1

-- A job that is queued by the scan for a source that meets `p`.
abbrev pub IsScheduled : (String → Bool) → SyncJob → Type 0
IsScheduled p j = (j.kind ≡ "scheduled") × (j.state ≡ queued) × (p j.source_id ≡ true)

-- The tables after a scan: jobs of such sources are added.
abbrev pub AddsJobs : (String → Bool) → Catalog → Catalog → Type 0
AddsJobs p db db' =
    (added : List SyncJob) × (db' ≡ record db { jobs = db.jobs ++ added })
    × All (IsScheduled p) added

pub AddsJobs-self : (p : String → Bool) (db : Catalog) → AddsJobs p db db
AddsJobs-self p db = ([], ap (λ js. record db { jobs = js }) (sym (append-nil db.jobs)), tt)

-- One more job before those that are added.
pub AddsJobs-cons :
    (p : String → Bool) (db db' : Catalog) (j : SyncJob)
    → IsScheduled p j
    → AddsJobs p (with_job db j) db'
    → AddsJobs p db db'
AddsJobs-cons p db db' j h (added, e, all) = (
  j ∷ added,
  e ∙ ap (λ js. record db { jobs = js }) (append_assoc db.jobs (j ∷ []) added),
  (h, all),
)

pub is_stored-append :
    (w : Wanted) (id : String) (jobs : List SyncJob) (j : SyncJob)
    → is_stored w id jobs ≡ true
    → is_stored w id (jobs ++ j ∷ []) ≡ true
is_stored-append nothing id jobs j h = refl
is_stored-append stop_scan id jobs j h = h
is_stored-append (sync_to c) id jobs j h =
    is_some-append (same_request id (strip "scheduled") (strip c)) jobs j h

pub scheduled_named : is_empty (strip "scheduled") ≡ false
unfolding strip is_empty
scheduled_named = refl

pub scheduled_kind : strip "scheduled" ≡ "scheduled"
unfolding strip
scheduled_kind = refl

pub wanted_commit_solid :
    (previous : String) (r : Remote) (c : String)
    → wanted_commit previous r ≡ sync_to c
    → is_empty (strip c) ≡ false
unfolding wanted_commit
wanted_commit_solid previous (commit_sha sha) c h = elim (Bool-cases (is_empty (strip sha))) [
  | inl e ↦ absurd (ground arith)
  | inr e ↦ elim (Bool-cases (strip sha == strip previous)) [
    | inl same ↦ absurd (ground arith)
    | inr other ↦
        let f : sync_to (strip sha) ≡ sync_to c = rw (e, other) at h in
        let g : strip sha ≡ c = cc in rw (← g) (rw (strip-strip sha) e)
  ]
]
wanted_commit_solid previous unreachable c h = absurd (ground arith)
wanted_commit_solid previous cancelled_reading c h = absurd (ground arith)

module _ (config : KnowledgeSource → GitConfig) (get_branch : Option String → String → Remote) where
  abbrev pub AreStored : List KnowledgeSource → List SyncJob → Type 0
  AreStored ss jobs = All (λ s. is_stored (wanted config get_branch s) s.id jobs ≡ true) ss

  abbrev pub total : List KnowledgeSource → ℕ
  total [] = 0
  total (s ∷ ss) = asks (wanted config get_branch s) + total ss

  pub wanted_solid :
      (s : KnowledgeSource) (c : String)
      → wanted config get_branch s ≡ sync_to c
      → is_empty (strip c) ≡ false
  unfolding wanted
  wanted_solid s c h =
      let g = config s in
      elim (Bool-cases (is_blank g.project_id || is_empty (strip g.branch))) [
        | inl e ↦ let bad : nothing ≡ sync_to c = rw e at h in absurd (ground arith)
        | inr e ↦
            wanted_commit_solid g.last_synced_commit (get_branch g.project_id (strip g.branch)) c
              (rw e at h)
      ]

  pub AreStored-append :
      (ss : List KnowledgeSource) (jobs : List SyncJob) (j : SyncJob)
      → AreStored ss jobs
      → AreStored ss (jobs ++ j ∷ [])
  AreStored-append ss jobs j a =
      All-weaken (λ s. is_stored (wanted config get_branch s) s.id jobs ≡ true)
        (λ s. is_stored (wanted config get_branch s) s.id (jobs ++ j ∷ []) ≡ true) ss
        (λ s h. is_stored-append (wanted config get_branch s) s.id jobs j h) a

  -- One round of the loop, by what the source asks for.
  pub scan_nothing :
      (job_id : String → String) (now : ℕ) (s : KnowledgeSource) (ss : List KnowledgeSource) (n : ℕ)
      (db : Catalog)
      → wanted config get_branch s ≡ nothing
      → scan_sources config get_branch job_id now (s ∷ ss) n db
        ≡ scan_sources config get_branch job_id now ss n db
  unfolding scan_sources
  scan_nothing job_id now s ss n db e = rw (e, scan_sources) refl

  pub scan_commit :
      (job_id : String → String) (now : ℕ) (s : KnowledgeSource) (ss : List KnowledgeSource) (n : ℕ)
      (db : Catalog) (c : String)
      → wanted config get_branch s ≡ sync_to c
      → scan_sources config get_branch job_id now (s ∷ ss) n db
        ≡ after_enqueue config get_branch
            (scan_sources config get_branch job_id now ss)
            n
            (enqueue_job (job_id s.id) now s.id "scheduled" (some c) none db)
  unfolding scan_sources
  scan_commit job_id now s ss n db c e = rw (e, scan_sources) refl

  pub scan_stop :
      (job_id : String → String) (now : ℕ) (s : KnowledgeSource) (ss : List KnowledgeSource) (n : ℕ)
      (db : Catalog)
      → wanted config get_branch s ≡ stop_scan
      → scan_sources config get_branch job_id now (s ∷ ss) n db ≡ (scan_cancelled, db)
  unfolding scan_sources
  scan_stop job_id now s ss n db e = rw (e, scan_sources) refl

  pub stored_step :
      (job_id : String → String) (now : ℕ) (s : KnowledgeSource) (ss : List KnowledgeSource) (n : ℕ)
      (db : Catalog) (w : Wanted)
      → wanted config get_branch s ≡ w
      → is_stored w s.id db.jobs ≡ true
      → ((m : ℕ) → scan_sources config get_branch job_id now ss m db ≡ (scanned (m + total ss), db))
      → scan_sources config get_branch job_id now (s ∷ ss) n db
        ≡ (scanned (n + (asks w + total ss)), db)
  stored_step job_id now s ss n db nothing e a rest =
      scan_nothing job_id now s ss n db e ∙ rest n ∙ ap (λ k. (scanned k, db)) (omega arith)
  stored_step job_id now s ss n db stop_scan e a rest = absurd (ground arith)
  stored_step job_id now s ss n db (sync_to c) e a rest =
      elim (Option-cases (existing_request s.id (strip "scheduled") (some (strip c)) db.jobs)) [
        | inl missing ↦
            let bad : is_some {A = SyncJob} none ≡ true = rw missing at a in absurd (ground arith)
        | inr (j, found) ↦
            let again =
              enqueue_job-existing (job_id s.id) now s.id "scheduled" c none db scheduled_named
                (wanted_solid s c e) j found in
            scan_commit job_id now s ss n db c e
            ∙ ap (after_enqueue config get_branch (scan_sources config get_branch job_id now ss) n)
                again
            ∙ rest (n + 1)
            ∙ ap (λ k. (scanned k, db)) (omega arith)
      ]

  -- A scan of sources whose jobs are there counts them and changes nothing.
  pub scan_stored :
      (job_id : String → String) (now : ℕ) (ss : List KnowledgeSource) (n : ℕ) (db : Catalog)
      → AreStored ss db.jobs
      → scan_sources config get_branch job_id now ss n db ≡ (scanned (n + total ss), db)
  unfolding scan_sources
  scan_stored job_id now [] n db a = ap (λ k. (scanned k, db)) (omega arith)
  scan_stored job_id now (s ∷ ss) n db a =
      stored_step job_id now s ss n db (wanted config get_branch s) refl a.0
        (λ m. scan_stored job_id now ss m db a.1)
