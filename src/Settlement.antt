-- ===== src/Settlement.antt =====
-- The settlement engine (src/services/settlement.ts).
pub mod Shares
pub mod Balances
pub mod Suggest
pub mod Ledger
mod Tests
