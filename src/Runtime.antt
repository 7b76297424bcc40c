-- ===== src/Runtime.antt =====
-- knowledge/agent_runtime: what the runs of the agents store, and what they may spend.
pub mod PendingRuns
pub mod Scopes
pub mod Context
pub mod Evidence
pub mod MetricCache
pub mod Metrics
pub mod Routing
pub mod Redaction
