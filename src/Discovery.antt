-- ===== src/Discovery.antt =====
-- app/domain/discovery: snapshots of the discovered objects, the drift between them, discovery
-- runs, and approvals.
pub mod Schema
pub mod Drift
pub mod Tags
pub mod Differ
pub mod Run
pub mod Service
pub mod Healing
pub mod Provisioning
pub mod Execution
pub mod Approval
mod Tests
