-- ===== src/Idempotency.antt =====
-- Idempotency keys (src/services/idempotency.ts).
pub mod Run
pub mod Once
mod Tests
