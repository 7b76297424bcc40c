-- ===== src/SourceSync/Scan.antt =====
-- `SourceSyncWorker.scan_once` (knowledge/source_sync/worker.py). What the source's opaque
-- configuration holds and what GitLab answers are parameters; `job_id` gives the `uuid4()` of the job
-- of a source.
pub mod Stored
pub mod Repeating
use its_middle_platform_agen.Catalog.Sources.{list_sources}
use its_middle_platform_agen.Prelude.Strip.{strip, is_empty}
use its_middle_platform_agen.Catalog.Models.{git, SyncJob, Catalog, KnowledgeSource, CatalogError}
use its_middle_platform_agen.Prelude.{
  ◌==◌, ◌+◌, ◌||◌, not, if◌then◌else◌, List, Bool, String, Option, ℕ, none, some, [], ◌∷◌, true,
}
use its_middle_platform_agen.Prelude.Result.{ok, err}
use its_middle_platform_agen.Catalog.Jobs.{enqueue_job, Outcome}

-- The values that are read of `source.config`: `project_id` as a text, unless it is missing, and
-- `str(config.get(key) or "")` of the two others.
pub record GitConfig : Type 0 where
  pub project_id : Option String
  pub branch : String
  pub last_synced_commit : String

-- How `get_branch` ends: with the branch's commit, with an exception, or cancelled.
pub data Remote : Type 0 where
  commit_sha : String → Remote
  unreachable : Remote
  cancelled_reading : Remote

-- What a source asks for: nothing, a job for a commit, or the end of the scan.
pub data Wanted : Type 0 where
  nothing : Wanted
  sync_to : String → Wanted
  stop_scan : Wanted

-- How `scan_once` ends: with the number of jobs, an exception of the catalog, or cancelled.
pub data ScanResult : Type 0 where
  scanned : ℕ → ScanResult
  scan_raised : CatalogError → ScanResult
  scan_cancelled : ScanResult

abbrev pub is_blank : Option String → Bool
is_blank none = true
is_blank (some t) = is_empty (strip t)

unfoldable pub wanted_commit : String → Remote → Wanted
wanted_commit previous (commit_sha sha) =
    if is_empty (strip sha) || strip sha == strip previous then nothing else sync_to (strip sha)
wanted_commit previous unreachable = nothing
wanted_commit previous cancelled_reading = stop_scan

module _ (config : KnowledgeSource → GitConfig) (get_branch : Option String → String → Remote) where
  unfoldable pub wanted : KnowledgeSource → Wanted
  unfolding wanted_commit
  wanted s =
      let c = config s in
      if is_blank c.project_id || is_empty (strip c.branch)
      then nothing
      else wanted_commit c.last_synced_commit (get_branch c.project_id (strip c.branch))

  abbrev pub after_enqueue :
      (ℕ → Catalog → ScanResult × Catalog) → ℕ → Outcome SyncJob → ScanResult × Catalog
  after_enqueue next count (ok j, db) = next (count + 1) db
  after_enqueue next count (err e, db) = (scan_raised e, db)

  -- The loop over the sources, with `queued_count`.
  unfoldable pub scan_sources :
      (String → String) → ℕ → List KnowledgeSource → ℕ → Catalog → ScanResult × Catalog
  scan_sources job_id now [] count db = (scanned count, db)
  scan_sources job_id now (s ∷ ss) count db =
      let rest = scan_sources job_id now ss in
      elim (wanted s) [
        | nothing ↦ rest count db
        | stop_scan ↦ (scan_cancelled, db)
        | sync_to c ↦
            after_enqueue rest count
              (enqueue_job (job_id s.id) now s.id "scheduled" (some c) none db)
      ]

  -- `has_client` says whether the worker has a GitLab client.
  unfoldable pub scan_once : Bool → (String → String) → ℕ → Catalog → ScanResult × Catalog
  unfolding scan_sources
  scan_once has_client job_id now db =
      if not has_client
      then (scanned 0, db)
      else scan_sources job_id now (list_sources none none (some git) (some true) db) 0 db
