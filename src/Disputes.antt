-- ===== src/Disputes.antt =====
-- The contract on which disputes about rejected work are settled, disputes/src.
pub mod Types
pub mod Contract
pub mod Methods
pub mod Callbacks
pub mod Steps
pub mod Effects
pub mod Invariant
pub mod Lifecycle
pub mod Promises
pub mod View
pub mod Deadlines
