-- ===== src/Users.antt =====
-- The accounts of the platform (backend/internal/user/service.go,
-- backend/internal/repository/user_repository.go): the table and its operations, and what always
-- holds of it.
pub mod Service
pub mod Admins
pub mod Fields
mod Tests
