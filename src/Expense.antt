-- ===== src/Expense.antt =====
-- The group expense calculation (src/services/expense-calculation.ts).
pub mod Allocate
pub mod Parse
pub mod Split
pub mod Breakdown
pub mod Group
mod Tests
