-- ===== src/Extraction.antt =====
-- app/infrastructure/adapters/compute: the extraction from a REST API, page by page.
pub mod Json
pub mod Pages
mod Tests
