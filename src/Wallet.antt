-- ===== src/Wallet.antt =====
-- What a wallet is asked to sign.
pub mod Transaction
pub mod Intent
pub mod Canonical
mod Tests
