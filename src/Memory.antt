-- ===== src/Memory.antt =====
-- knowledge/memory: what is remembered of conversations.
pub mod Extraction
pub mod Records
pub mod Candidates
pub mod Upkeep
pub mod Merging
pub mod Notes
pub mod History
pub mod Promotions
