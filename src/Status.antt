-- ===== src/Status.antt =====
-- The public status of a settlement and the signing window it depends on
-- (src/services/settlement-status.ts, src/lib/time-bounds.ts).
pub mod Window
pub mod Public
pub mod Truth
mod Tests
