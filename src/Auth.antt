-- ===== src/Auth.antt =====
-- app/auth: what the platform decides about a user.
pub mod Permissions
mod Tests
