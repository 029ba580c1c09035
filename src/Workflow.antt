-- ===== src/Workflow.antt =====
-- The workflow engine (internal/workflow).
pub mod Json
pub mod Path
pub mod Types
pub mod Merge
pub mod Evaluator
pub mod Executor
pub mod Branches
pub mod Requests
pub mod States
pub mod Engine
mod Tests
