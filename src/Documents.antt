-- ===== src/Documents.antt =====
-- The publication of document versions (backend/internal/document/publication_service.go and
-- backend/internal/repository/document_publication_repository.go).
pub mod Publication
pub mod Gate
pub mod Lookups
pub mod Published
pub mod Deprecated
pub mod Serving
pub mod Checks
pub mod Released
pub mod Diff
mod Tests
