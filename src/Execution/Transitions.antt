-- ===== src/Execution/Transitions.antt =====
-- src/server/execution/transitions.ts: the transitions of runs of schema version 1.0 to 3.0, and
-- what they guarantee.
pub mod Base
pub mod Preparation
pub mod Wallet
pub mod Chain
pub mod Confirmation
pub mod Apply
pub mod Audit
pub mod Guards
pub mod Invariant
pub mod Outcomes
pub mod Decisions
