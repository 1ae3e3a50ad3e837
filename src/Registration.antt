-- ===== src/Registration.antt =====
-- Registering pipelines: app/application/pipelines/register_pipeline.py and what it is made of.
pub mod Values
pub mod Schedule
pub mod Members
pub mod Defaults
pub mod Aggregate
pub mod Normalizer
pub mod Repository
pub mod UseCase
pub mod Destinations
pub mod Transaction
pub mod Outcome
pub mod Built
pub mod Once
pub mod Links
pub mod Succeeds
mod Example
mod Tests
pub mod Provisioned
