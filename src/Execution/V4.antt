-- ===== src/Execution/V4.antt =====
-- Runs of schema version 4.0: src/server/execution/v4-transitions.ts and v4-contracts.ts.
pub mod Types
pub mod Contracts
pub mod Base
pub mod Preparation
pub mod Attempts
pub mod Prompt
pub mod Rpc
pub mod Correlation
pub mod ReadBack
pub mod Lifecycle
pub mod Calls
pub mod Perform
pub mod Prepared
pub mod Prompted
pub mod Steps
pub mod RunSteps
pub mod OpInvariants
pub mod AttemptLists
pub mod Reach
pub mod Verdicts
pub mod Audit
pub mod Progress
pub mod Retries
mod Samples
mod Tests
