-- ===== src/Core.antt =====
-- src/core: JSON values as the program exchanges them.
pub mod Json
