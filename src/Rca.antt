-- ===== src/Rca.antt =====
-- Root cause analysis runs (backend/internal/rca, backend/internal/repository/rca_repository.go):
-- the statuses, the tables, the repository, and the service with its rounds, actions, evidence and
-- root cause candidates.
pub mod Status
pub mod Store
pub mod Repository
pub mod Tables
pub mod Inputs
pub mod Service
pub mod Lifecycle
pub mod Actions
pub mod Requests
pub mod Effects
pub mod Loops
pub mod Endings
pub mod Writes
pub mod Serving
pub mod Rounds
pub mod Order
pub mod Groups
pub mod Closed
pub mod Shut
pub mod Cancelled
pub mod Outcomes
pub mod Details
pub mod Uniqueness
pub mod Access
pub mod Timeouts
pub mod Recovery
pub mod Normal
pub mod Hypotheses
mod Samples
mod Tests
pub mod Backing
