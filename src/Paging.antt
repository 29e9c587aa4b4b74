-- ===== src/Paging.antt =====
-- The pages of a list (src/lib/pagination.ts, src/services/webhook-listing.ts).
pub mod Cursor
pub mod Page
pub mod Order
pub mod Walk
mod Tests
