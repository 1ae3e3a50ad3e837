-- ===== src/Objects.antt =====
-- app/domain/objects: the discovered objects, their elements, and the service that changes them.
pub mod Element
pub mod Service
pub mod Repository
mod Tests
