-- ===== src/Catalog.antt =====
-- app/infrastructure/adapters/dbt and dataform: the catalog takes over the models of a transformation
-- tool, in one transaction.
pub mod Sync
pub mod Types
pub mod Known
pub mod Synced
mod Tests
