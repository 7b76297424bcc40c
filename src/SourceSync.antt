-- ===== src/SourceSync.antt =====
-- knowledge/source_sync: the worker that runs synchronisation jobs, and the changes between commits.
pub mod Worker
pub mod Diff
pub mod Scan
pub mod Git
