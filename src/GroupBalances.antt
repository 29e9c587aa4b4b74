-- ===== src/GroupBalances.antt =====
-- The balances of a group (src/services/group-balances.ts, src/services/settlement.ts).
pub mod Limit
pub mod Outstanding
pub mod ByAsset
pub mod Grouping
pub mod Sheets
pub mod Listed
mod Tests
