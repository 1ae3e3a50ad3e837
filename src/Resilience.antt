-- ===== src/Resilience.antt =====
-- app/infrastructure/resilience: protection of calls to outside services.
pub mod Breaker
mod Tests
