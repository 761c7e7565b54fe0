-- ===== src/Execution.antt =====
-- src/server/execution: the execution run, its transitions and its service.
pub mod Result
pub mod Kind
pub mod Evidence
pub mod Types
pub mod Transitions
pub mod Service
pub mod V4
mod Tests
