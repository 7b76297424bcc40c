-- ===== src/SourceSync/Scan/Repeating.antt =====
-- What a scheduled scan queues, and that another one after it queues nothing.
use its_middle_platform_agen.SourceSync.Scan.Stored.{
  scan_commit, is_stored-append, scheduled_kind, AddsJobs-cons, wanted_solid, scheduled_named,
  scan_stop, scan_stored, scan_nothing, total, asks, AddsJobs-self, is_stored, AreStored, AddsJobs,
}
use its_middle_platform_agen.Catalog.Sources.{source_precedes, is_git, source_test, list_sources}
use its_middle_platform_agen.Prelude.Table.{select_all, exists_row}
use mathlib.Core.Path.{subst}
use its_middle_platform_agen.Catalog.Jobs.Requests.{enqueue_job-stores}
use its_middle_platform_agen.Prelude.Table.Counts.{All-weaken}
use its_middle_platform_agen.Prelude.Table.Orders.{All-order_by}
use its_middle_platform_agen.Prelude.Strip.{strip}
use its_middle_platform_agen.Catalog.Models.{git, KnowledgeSource, SyncJob, Catalog}
use its_middle_platform_agen.SourceSync.Scan.{
  scan_once, ok, scan_raised, err, ScanResult, scanned, scan_cancelled, after_enqueue, wanted,
  scan_sources, GitConfig, stop_scan, nothing, sync_to, Remote, Wanted,
}
use its_middle_platform_agen.Prelude.{
  eq_refl, ◌&&◌, sym, ap, ◌∙◌, ◌+◌, Option, ◌==◌, arith, Bool-cases, All, ◌++◌, List, Bool, String,
  ℕ, ◌≡◌, none, some, [], ◌∷◌, true, false, inl, inr, refl,
}
use its_middle_platform_agen.Catalog.Jobs.{new_job, Outcome, enqueue_job}

module _ (config : KnowledgeSource → GitConfig) (get_branch : Option String → String → Remote) where
  module _ (p : String → Bool) where
    abbrev ScanEnds : List KnowledgeSource → ℕ → Catalog → ℕ → Catalog → Type 0
    ScanEnds ss n db m db' =
        AreStored config get_branch ss db'.jobs
        × (m ≡ n + total config get_branch ss)
        × AddsJobs p db db'
        × ((w : Wanted) (id : String)
            → is_stored w id db.jobs ≡ true
            → is_stored w id db'.jobs ≡ true)

    ends_step :
        (job_id : String → String) (now : ℕ) (s : KnowledgeSource) (ss : List KnowledgeSource)
        (n : ℕ) (db : Catalog) (m : ℕ) (db' : Catalog) (w : Wanted)
        → wanted config get_branch s ≡ w
        → p s.id ≡ true
        → ((k : ℕ) (d : Catalog)
            → scan_sources config get_branch job_id now ss k d ≡ (scanned m, db')
            → ScanEnds ss k d m db')
        → scan_sources config get_branch job_id now (s ∷ ss) n db ≡ (scanned m, db')
        → (is_stored w s.id db'.jobs ≡ true)
          × AreStored config get_branch ss db'.jobs
          × (m ≡ n + (asks w + total config get_branch ss))
          × AddsJobs p db db'
          × ((v : Wanted) (id : String)
              → is_stored v id db.jobs ≡ true
              → is_stored v id db'.jobs ≡ true)
    ends_step job_id now s ss n db m db' nothing e fit rest h =
        let (stored, count, adds, keeps) =
          rest n db (sym (scan_nothing config get_branch job_id now s ss n db e) ∙ h) in
        (refl, stored, omega (arith, count), adds, keeps)
    ends_step job_id now s ss n db m db' stop_scan e fit rest h =
        let bad : ◌≡◌ {A = ScanResult × Catalog} (scan_cancelled, db) (scanned m, db') =
          sym (scan_stop config get_branch job_id now s ss n db e) ∙ h in
        let r : scan_cancelled ≡ scanned m = ap (λ (o : ScanResult × Catalog). o.0) bad in
        absurd (ground arith)
    ends_step job_id now s ss n db m db' (sync_to c) e fit rest h =
        go (enqueue_job (job_id s.id) now s.id "scheduled" (some c) none db) refl
          (sym (scan_commit config get_branch job_id now s ss n db c e) ∙ h)
      where
        new : SyncJob
        new = new_job (job_id s.id) s.id (strip "scheduled") (some (strip c)) now now

        go :
            (o : Outcome SyncJob)
            → enqueue_job (job_id s.id) now s.id "scheduled" (some c) none db ≡ o
            → after_enqueue config get_branch (scan_sources config get_branch job_id now ss) n o
              ≡ (scanned m, db')
            → (is_stored (sync_to c) s.id db'.jobs ≡ true)
              × AreStored config get_branch ss db'.jobs
              × (m ≡ n + (1 + total config get_branch ss))
              × AddsJobs p db db'
              × ((v : Wanted) (id : String)
                  → is_stored v id db.jobs ≡ true
                  → is_stored v id db'.jobs ≡ true)
        go (err x, d) f g =
            let r : scan_raised x ≡ scanned m = ap (λ (o : ScanResult × Catalog). o.0) g in
            absurd (ground arith)
        go (ok j, d) f g =
            let (stored, count, adds, keeps) = rest (n + 1) d g in
            let (found, how) =
              enqueue_job-stores (job_id s.id) now s.id "scheduled" c none db d j scheduled_named
                (wanted_solid config get_branch s c e) f in
            let mine = keeps (sync_to c) s.id (rw found refl) in
            elim how [
              | inl same ↦ (
                mine,
                stored,
                omega (arith, count),
                subst (λ x. AddsJobs p x db') same adds,
                λ v id k. keeps v id (rw same k),
              )
              | inr more ↦ (
                mine,
                stored,
                omega (arith, count),
                AddsJobs-cons p db db' new (scheduled_kind, refl, fit)
                    (subst (λ x. AddsJobs p x db') more adds),
                λ v id k. keeps v id (rw more (is_stored-append v id db.jobs new k)),
              )
            ]

    scan_ends :
        (job_id : String → String) (now : ℕ) (ss : List KnowledgeSource) (n : ℕ) (db : Catalog)
        (m : ℕ) (db' : Catalog)
        → All (λ s. p s.id ≡ true) ss
        → scan_sources config get_branch job_id now ss n db ≡ (scanned m, db')
        → ScanEnds ss n db m db'
    unfolding scan_sources
    scan_ends job_id now [] n db m db' fit h =
        let same : db ≡ db' = ap (λ (o : ScanResult × Catalog). o.1) h in
        let r : scanned n ≡ scanned m = ap (λ (o : ScanResult × Catalog). o.0) h in
        (
          tt,
          ground arith,
          subst (AddsJobs p db) (same) (AddsJobs-self p db),
          λ w id k. rw (sym same) k,
        )
    scan_ends job_id now (s ∷ ss) n db m db' fit h =
        let (mine, stored, count, adds, keeps) =
          ends_step job_id now s ss n db m db' (wanted config get_branch s) refl fit.0
            (λ k d. scan_ends job_id now ss k d m db' fit.1) h in
        ((mine, stored), count, adds, keeps)

-- An enabled Git source has this id.
abbrev pub is_scanned : List KnowledgeSource → String → Bool
is_scanned sources id = exists_row (λ x. x.id == id && (is_git x.source_type && x.enabled)) sources

git_row :
    (x : KnowledgeSource) (rs : List KnowledgeSource)
    → source_test none none (some git) (some true) x ≡ true
    → is_scanned (x ∷ rs) x.id ≡ true
unfolding exists_row
git_row x rs h = ground (arith, eq_refl x.id)

scanned_rows :
    (rs : List KnowledgeSource)
    → All
        (λ s. is_scanned rs s.id ≡ true)
        (select_all (source_test none none (some git) (some true)) rs)
unfolding select_all exists_row
scanned_rows [] = tt
scanned_rows (x ∷ rs) =
    let rest =
      All-weaken (λ s. is_scanned rs s.id ≡ true) (λ s. is_scanned (x ∷ rs) s.id ≡ true)
        (select_all (source_test none none (some git) (some true)) rs) (λ s h. ground arith)
        (scanned_rows rs) in
    elim (Bool-cases (source_test none none (some git) (some true) x)) [
      | inl hit ↦ rw hit (git_row x rs hit, rest)
      | inr miss ↦ rw miss rest
    ]

listed_rows :
    (db : Catalog)
    → All
        (λ s. is_scanned db.sources s.id ≡ true)
        (list_sources none none (some git) (some true) db)
unfolding list_sources
listed_rows db =
    All-order_by (λ s. is_scanned db.sources s.id ≡ true) source_precedes
      (select_all (source_test none none (some git) (some true)) db.sources)
      (scanned_rows db.sources)

listed_same :
    (db db' : Catalog) (added : List SyncJob)
    → db' ≡ record db { jobs = db.jobs ++ added }
    → list_sources none none (some git) (some true) db'
      ≡ list_sources none none (some git) (some true) db
unfolding list_sources
listed_same db db' added e = ap (λ (d : Catalog). list_sources none none (some git) (some true) d) e

module _ (config : KnowledgeSource → GitConfig) (get_branch : Option String → String → Remote) where
  -- A scan that ends adds queued `scheduled` jobs alone, for enabled Git sources alone; and a second
  -- scan, at any time, with the same configurations and the same answers of GitLab, returns the same
  -- number of jobs and changes nothing.
  pub scan_once_again :
      (has_client : Bool) (job_id job_id' : String → String) (now later : ℕ) (db : Catalog) (n : ℕ)
      (db' : Catalog)
      → scan_once config get_branch has_client job_id now db ≡ (scanned n, db')
      → AddsJobs (is_scanned db.sources) db db'
        × (scan_once config get_branch has_client job_id' later db' ≡ (scanned n, db'))
  unfolding scan_once
  scan_once_again false job_id job_id' now later db n db' h =
      let same : db ≡ db' = ap (λ (o : ScanResult × Catalog). o.1) h in
      (
        subst (AddsJobs (is_scanned db.sources) db) (same)
            (AddsJobs-self (is_scanned db.sources) db),
        ap (λ (o : ScanResult × Catalog). (o.0, db')) h,
      )
  scan_once_again true job_id job_id' now later db n db' h =
      let ss = list_sources none none (some git) (some true) db in
      let (stored, count, adds, keeps) =
        scan_ends config get_branch (is_scanned db.sources) job_id now ss 0 db n db'
          (listed_rows db) h in
      let same : list_sources none none (some git) (some true) db' ≡ ss =
        listed_same db db' adds.0 adds.1 in
      (
        adds,
        rw same (
            scan_stored config get_branch job_id' later ss 0 db' stored
            ∙ ap (λ k. (scanned k, db')) (sym count)),
      )
