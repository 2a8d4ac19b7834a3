-- ===== src/Reputation.antt =====
-- The statistics of claimants and owners of bounties, reputation/src.
pub mod Metrics
pub mod Contract
pub mod Balance
pub mod Runs
