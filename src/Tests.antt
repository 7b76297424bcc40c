-- ===== src/Tests.antt =====
-- Tests of the definitions, and the theorems at concrete inputs.
mod Jobs
mod Runtime
mod Retrieval
mod Auth
mod Memory
mod Catalog
mod SourceSync
mod Candidates
mod Merging
mod Redaction
mod Quality
