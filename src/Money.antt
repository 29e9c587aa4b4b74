-- ===== src/Money.antt =====
-- Amounts of money (src/lib/money.ts, src/services/money.ts).
pub mod Decimal
pub mod Amount
pub mod Service
pub mod Digits
pub mod RoundTrip
pub mod Signed
pub mod Bounds
mod Tests
