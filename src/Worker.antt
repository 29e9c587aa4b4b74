-- ===== src/Worker.antt =====
-- The worker's jobs (src/worker/job-retry-handler.ts).
pub mod Retry
mod Tests
pub mod Bounded
