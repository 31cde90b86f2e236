-- ===== src/Tests.antt =====
-- Each property at a concrete input.
pub mod Fixtures
pub mod Decisions
pub mod Histories
pub mod Codes
pub mod Purges
pub mod Sessions
pub mod Tasks
pub mod Vaults
pub mod Calls
pub mod Trust
pub mod Seals
pub mod Senders
pub mod Passports
