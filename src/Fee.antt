-- ===== src/Fee.antt =====
-- What a prepared transaction may cost.
pub mod Schema
pub mod Evaluation
pub mod Caps
pub mod Policy
pub mod Ceilings
pub mod Initial
pub mod Prepared
pub mod Tests
