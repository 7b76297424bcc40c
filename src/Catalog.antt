-- ===== src/Catalog.antt =====
-- knowledge/catalog: the tables of the knowledge catalog and the methods of `CatalogRepository`.
pub mod Models
pub mod Jobs
pub mod Library
pub mod Sources
pub mod Versions
pub mod Contents
pub mod Secrets
