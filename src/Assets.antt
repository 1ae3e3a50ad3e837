-- ===== src/Assets.antt =====
-- app/domain/assets and app/application/assets: data assets, their lifecycle, their table and the
-- use cases that activate and update them.
pub mod Asset
pub mod Lifecycle
pub mod Table
pub mod Registration
pub mod UseCases
pub mod Stored
mod Tests
