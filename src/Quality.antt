-- ===== src/Quality.antt =====
-- knowledge/quality: the evaluation of the agent, its cases, its runs and their results.
pub mod Records
pub mod Cases
pub mod Runs
pub mod Results
pub mod Invariant
pub mod Behavior
pub mod Judging
pub mod Evaluation
pub mod Worker
pub mod Postgres
