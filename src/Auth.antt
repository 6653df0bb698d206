-- ===== src/Auth.antt =====
-- Sign-in and tokens (backend/internal/auth).
pub mod Service
pub mod Sessions
pub mod Audits
mod Tests
