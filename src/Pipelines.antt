-- ===== src/Pipelines.antt =====
-- app/domain/pipelines and app/application/pipelines: watermarks, quality gates, and the records of
-- pipeline runs.
pub mod Watermark
pub mod Quality
pub mod Gate
pub mod Run
pub mod Config
pub mod Table
pub mod Stored
pub mod Files
pub mod Trigger
pub mod Idempotent
pub mod Record
mod Tests
