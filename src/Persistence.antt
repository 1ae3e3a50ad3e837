-- ===== src/Persistence.antt =====
-- app/infrastructure/persistence: the unit of work that the use cases write through, and the
-- repository of endpoints.
pub mod UnitOfWork
pub mod Endpoints
pub mod EndpointRows
pub mod EndpointRoundTrip
mod Tests
