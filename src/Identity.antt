-- ===== src/Identity.antt =====
-- internal/modules/identity.
pub mod Limiter
pub mod Lockout
mod Tests
