-- ===== src/Retrieval.antt =====
-- knowledge/services: the retrieval routes, their fusion and the providers that they call.
pub mod Documents
pub mod Circuit
pub mod Fusion
