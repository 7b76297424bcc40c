-- ===== src/SourceSync/Git.antt =====
-- `GitSourceJobProcessor.process` (knowledge/source_sync/worker.py). The snapshot manager and the
-- index coordinator are parameters: they act on the catalog and on files of a type `F`. When the task
-- is cancelled while `asyncio.to_thread` prepares a snapshot, the thread runs on; the files that
-- `prepare_snapshot` returns then stand for what it leaves, which may be a snapshot.

use its_middle_platform_agen.Prelude.Strip.{strip, is_empty}
use its_middle_platform_agen.Catalog.Sources.{is_git, get_source}
use its_middle_platform_agen.SourceSync.Worker.{cancelled, raised, done, Processed}
use its_middle_platform_agen.Catalog.Models.{SyncJob, Catalog, KnowledgeSource}
use its_middle_platform_agen.SourceSync.Scan.{GitConfig}
use its_middle_platform_agen.Prelude.{◌||◌, ◌&&◌, if◌then◌else◌, String, Option, none, some}

-- How `prepare_snapshot` ends: with a snapshot, with an exception of some type, or by cancellation.
pub data Prepared (Snapshot : Type 0) : Type 0 where
  snapshot_made : Snapshot → Prepared Snapshot
  not_made : Processed → Prepared Snapshot

-- `str(config.get("last_synced_commit") or "").strip() or None`.
abbrev pub previous_commit : GitConfig → Option String
previous_commit c =
    if is_empty (strip c.last_synced_commit) then none else some (strip c.last_synced_commit)

-- What `prepare_snapshot` is asked for.
pub record SnapshotRequest : Type 0 where
  pub source_id : String
  pub job_id : String
  pub project_url : String
  pub branch : String
  pub previous : Option String

abbrev pub is_git_source : Option KnowledgeSource → Option KnowledgeSource
is_git_source none = none
is_git_source (some s) = if s.enabled && is_git s.source_type then some s else none

module _ {F Snapshot : Type 0} (config : KnowledgeSource → GitConfig)
    (project_url : KnowledgeSource → String)
    (prepare_snapshot : SnapshotRequest → F → Prepared Snapshot × F)
    (index_git_snapshot : String → Snapshot → Catalog × F → Processed × Catalog × F)
    (cleanup : Snapshot → F → Processed × F) where
  -- An exception of `cleanup` in the `finally` replaces what went before.
  abbrev pub cleaned : Processed → Catalog → Processed × F → Processed × Catalog × F
  cleaned ending db (done, files) = (ending, db, files)
  cleaned ending db (raised error_type, files) = (raised error_type, db, files)
  cleaned ending db (cancelled, files) = (cancelled, db, files)

  abbrev pub indexed : Snapshot → Processed × Catalog × F → Processed × Catalog × F
  indexed snapshot (ending, db, files) = cleaned ending db (cleanup snapshot files)

  abbrev pub prepared : String → Catalog → Prepared Snapshot × F → Processed × Catalog × F
  prepared source_id db (snapshot_made snapshot, files) =
      indexed snapshot (index_git_snapshot source_id snapshot (db, files))
  prepared source_id db (not_made ending, files) = (ending, db, files)

  abbrev pub process_source : SyncJob → KnowledgeSource → Catalog → F → Processed × Catalog × F
  process_source job s db files =
      let request : SnapshotRequest = record {
        source_id = s.id;
        job_id = job.id;
        project_url = strip (project_url s);
        branch = strip (config s).branch;
        previous = previous_commit (config s);
      } in
      if is_empty request.project_url || is_empty request.branch
      then (raised "ValueError", db, files)
      else prepared s.id db (prepare_snapshot request files)

  unfoldable pub process : SyncJob → Catalog × F → Processed × Catalog × F
  unfolding get_source
  process job (db, files) = elim (is_git_source (get_source job.source_id db)) [
    | none ↦ (raised "GitSourceUnavailableError", db, files)
    | some s ↦ process_source job s db files
  ]
