-- ===== src/Rpc.antt =====
-- What the server concludes from the answers of its node: src/server/rpc.
pub mod Types
pub mod Finality
mod Expected
mod Inclusion
mod Agreement
mod Tests
