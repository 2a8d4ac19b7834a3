-- ===== src/Tests.antt =====
-- Runs on concrete input, and the theorems at them.
pub mod Samples
mod Amounts
mod Bonds
mod Books
mod NewBounty
mod Disputes
mod Reputation
mod Kyc
