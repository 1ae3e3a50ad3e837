-- ===== src/Tasks.antt =====
-- app/infrastructure/airflow_callbacks: the tasks that a generated DAG runs around an extraction.
pub mod Context
pub mod Load
pub mod Checks
pub mod Files
mod Tests
