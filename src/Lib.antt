-- ===== src/Lib.antt =====
-- heroes-contracts: the smart contracts, written in Rust for NEAR, on which bounties are published,
-- claimed, done and paid. `bounties` is the main contract; it calls the contracts `reputation`
-- (statistics), `disputes` and `kyc-whitelist`, a validators' DAO and fungible tokens. This library
-- models these four contracts.
--
-- A method of the contract is a function from a `Context` (caller, time, deposit) and the state
-- `Contract` to a `Result`: the next state, or a panic, which undoes the call. A promise is a
-- `Receipt` put on the list `receipts`, with the `Callback` that ends it; a callback is a function of
-- its own, which takes the outcome of the promise. So any interleaving of calls and callbacks is a
-- sequence of such functions. Integers are natural numbers whose checked operations panic beyond
-- their width (the contracts are built with overflow checks). Loops are structural recursion on the
-- lists that they run over, so nothing runs on fuel.
--
-- Files and what they model, with paths in the repository:
--   Prelude, Prelude/*: tests, lists, strings, `Result` with the predicate `Ensures`, checked
--     arithmetic, `LookupMap`, `UnorderedMap`, `UnorderedSet`, and lists without duplicates.
--   Near: the environment of a call, `near_sdk::env`.
--   Bounties/Types, Bounty, Bounty/Split, Bounty/Valid, Multitasking, Claim, FeeStats:
--     bounties/src/types.rs. `split` is the arithmetic of `BountyCreate::to_bounty`.
--   Bounties/Contract: the state in bounties/src/lib.rs, bonds and saving in bounties/src/internal.rs.
--   Bounties/Runtime: the updates of the multitasking state, bounties/src/internal.rs.
--   Bounties/Lookup: finding claims, bounties/src/internal.rs.
--   Bounties/Commissions, Commissions/Amounts: commissions and amounts, bounties/src/internal.rs.
--   Bounties/Claiming, Approval, Decision: making claims and deciding on claimants,
--     bounties/src/internal.rs.
--   Bounties/Closure, Completion, Payout: the ends of a claim, bounties/src/internal.rs and
--     bounties/src/callbacks.rs. `bounty_released` and `bounty_paid` are the parts of
--     `internal_reset_bounty_to_initial_state` and `internal_bounty_completion` that change the bounty.
--   Bounties/Methods, Payments, Withdrawals: the public methods, bounties/src/lib.rs.
--   Bounties/Creation: `bounty_create`, `ft_on_transfer` and what they call, bounties/src/lib.rs,
--     bounties/src/receiver.rs and bounties/src/internal.rs.
--   Bounties/Update: `bounty_update`, bounties/src/lib.rs.
--   Bounties/Finalize: `bounty_finalize` and what it calls, bounties/src/internal.rs.
--   Bounties/Answers: the callbacks of proposals, disputes, KYC checks and tokens,
--     bounties/src/callbacks.rs.
--   Bounties/Owner: the owner's other methods, bounties/src/lib.rs.
--   Bounties/Admin: `new` and the administrators' methods, bounties/src/lib.rs.
--   Bounties/Bonds, Bonds/*, Lookup/Found, FeeStats/Accounting, FeeStats/Runs, Bounty/Access,
--     Commissions/Amounts/Slots, Commissions/Amounts/Subtasks, Pending: the proofs.
--   Disputes/Types: disputes/src/types.rs. Disputes/Contract: the state in disputes/src/lib.rs,
--     disputes/src/internal.rs and disputes/src/utils.rs. Disputes/Methods: the public methods,
--     disputes/src/lib.rs. Disputes/Callbacks: disputes/src/callbacks.rs. Disputes/View: the views
--     with a loop, disputes/src/view.rs, with what they return.
--   Disputes/Steps: the interleavings of methods and callbacks. Disputes/Effects, Invariant,
--     Lifecycle, Promises, Deadlines: the proofs.
--   Reputation/Metrics, Reputation/Contract: reputation/src/lib.rs. Reputation/Balance, Runs: the
--     proofs.
--   Kyc/Profiles, Kyc/Whitelist: kyc-whitelist/src/lib.rs. Kyc/Uniqueness, Checks: the proofs.
--   Tests, Tests/*: runs at concrete contracts.
--
-- `IsBacked 0 c` says that `locked_amount` is the sum of the bonds of the claims that have not ended,
-- and that claim ids from `last_claim_id` on are free. `IsBacked extra c` has `extra` more locked, in
-- the midst of a method. `Ensures P r` says that `P` holds of the state if `r` is not a panic.
-- `Settles c account bond returned d` says that from `c` to `d` the bond is unlocked and either sent
-- to the account or added to the unlocked amount.
--
-- Not modelled: the upgrades of stored data, paging in the views of `bounties`, the migrations of the
-- contracts, and the test token. The reading of the message of a transfer is a parameter. Gas, logs, the
-- text of proposals of `bounties` and the storage layout have no influence on what is modelled.
-- Account names are numbers, since they are only compared; how the runtime prints accounts and
-- numbers in a proposal of `disputes` is a parameter. The order in which an `UnorderedMap` lists its
-- entries is that of insertion, as long as none is removed.

pub mod Near
pub mod Prelude
pub mod Bounties
pub mod Disputes
pub mod Kyc
pub mod Reputation
pub mod Tests
