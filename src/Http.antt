-- ===== src/Http.antt =====
-- app/infrastructure/http: what a client is answered when the platform raises.
pub mod Exceptions
pub mod Answers
mod Tests
