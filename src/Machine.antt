-- ===== src/Machine.antt =====
-- The settlement lifecycle (src/services/settlement-machine.ts).
pub mod Status
pub mod Apply
pub mod Reach
mod Tests
