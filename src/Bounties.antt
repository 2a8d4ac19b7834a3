-- ===== src/Bounties.antt =====
-- The bounty contract, bounties/src.
pub mod Types
pub mod Multitasking
pub mod FeeStats
pub mod Bounty
pub mod Claim
pub mod Contract
pub mod Runtime
pub mod Lookup
pub mod Commissions
pub mod Closure
pub mod Completion
pub mod Payout
pub mod Approval
pub mod Claiming
pub mod Decision
pub mod Methods
pub mod Payments
pub mod Withdrawals
pub mod Finalize
pub mod Answers
pub mod Owner
pub mod Admin
pub mod Creation
pub mod Update
pub mod Pending
pub mod Bonds
