-- ===== src/Workflow.antt =====
-- Workflow definitions (backend/internal/workflow/definition.go) and the executor that runs them
-- (backend/internal/workflow/executor.go).
pub mod Definition
pub mod Graph
pub mod Dag
pub mod Reach
pub mod Validate
pub mod Json
pub mod Faults
pub mod Mapping
pub mod Nodes
pub mod Executor
pub mod Run
mod Tests
mod Examples
