-- ===== src/Session.antt =====
-- The refresh tokens of a session (src/services/refresh-token.ts).
pub mod Tokens
pub mod Live
pub mod Open
pub mod Single
pub mod Chain
mod Tests
