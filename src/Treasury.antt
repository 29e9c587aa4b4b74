-- ===== src/Treasury.antt =====
-- The multisig treasury of a group (src/services/treasury-signatures.ts and
-- src/services/treasury-stellar.ts).
pub mod Envelope
pub mod Policy
pub mod Store
pub mod Propose
pub mod Sign
pub mod Collect
pub mod Weight
pub mod Added
pub mod Distinct
pub mod Submitted
pub mod Persisted
pub mod Reached
pub mod Signers
pub mod Config
mod Tests
