-- ===== src/Bounties/Commissions.antt =====
-- The commissions that the contract holds for the platform and for the DAOs, and the amounts of a
-- payout and of a refund, bounties/src/internal.rs.
pub mod Amounts
use heroes_contracts.Prelude.{
  ℕ, Bool, ◌==◌, Option, none, some, unwrap_or, List, [], ◌∷◌, ◌++◌, length, if◌then◌else◌, Result,
  ok, expect, unwrap, index, set_index, ◌>>=◌, ◌>>◌, insert, suc, zero,
}
use heroes_contracts.Near.{AccountId}
use heroes_contracts.Bounties.Types.{Reviewers}
use heroes_contracts.Bounties.Bounty.{Bounty}
use heroes_contracts.Bounties.FeeStats
use heroes_contracts.Bounties.FeeStats.{FeeStats}
use heroes_contracts.Bounties.Contract.{Contract, DaoFeeStats}

-- The position of the token, and the statistics with an entry for it.
abbrev pub internal_find_dao_fee_stats : AccountId → List DaoFeeStats → List DaoFeeStats × ℕ
internal_find_dao_fee_stats token_id [] =
    (record { token_id = token_id; fee_stats = FeeStats.new } ∷ [], 0)
internal_find_dao_fee_stats token_id (s ∷ stats) =
    let rest = internal_find_dao_fee_stats token_id stats in
    if s.token_id == token_id then (s ∷ stats, 0) else (s ∷ rest.0, suc rest.1)

abbrev dao_stats :
    Contract → Option Reviewers → Option AccountId → Option (AccountId × List DaoFeeStats × ℕ)
dao_stats c (some (Reviewers.validators_dao dao)) (some token) =
    let found =
      internal_find_dao_fee_stats token
        (unwrap_or (c.total_validators_dao_fees dao.account_id) []) in
    some (dao.account_id, found.0, found.1)
dao_stats c _ _ = none

unfoldable pub internal_get_dao_fee_stats :
    Contract → Bounty → Option (AccountId × List DaoFeeStats × ℕ)
internal_get_dao_fee_stats c bounty = dao_stats c bounty.reviewers bounty.token

-- Change the commissions in the bounty's token.
abbrev pub update_platform :
    Contract → Option AccountId → (FeeStats → Result FeeStats) → Result Contract
update_platform c none f = ok c
update_platform c (some token) f = do
  stats ← unwrap (c.total_fees token)
  stats' ← f stats
  ok (record c { total_fees = insert c.total_fees token stats' })

abbrev pub update_dao :
    Contract
    → Option (AccountId × List DaoFeeStats × ℕ)
    → (FeeStats → Result FeeStats)
    → Result Contract
update_dao c none f = ok c
update_dao c (some (dao, stats, i)) f = do
  entry ← index stats i
  fees ← f entry.fee_stats
  stats' ← set_index stats i (record entry { fee_stats = fees })
  ok (record c { total_validators_dao_fees = insert c.total_validators_dao_fees dao stats' })

unfoldable pub internal_total_fees_receiving_funds : Contract → Bounty → ℕ → ℕ → Result Contract
internal_total_fees_receiving_funds c bounty platform_fee dao_fee = do
  c1 ← update_platform c bounty.token (λ s. FeeStats.receiving_commission s platform_fee)
  update_dao c1 (internal_get_dao_fee_stats c1 bounty)
      (λ s. FeeStats.receiving_commission s dao_fee)

unfoldable pub internal_total_fees_unlocking_funds : Contract → Bounty → ℕ → ℕ → Result Contract
internal_total_fees_unlocking_funds c bounty platform_fee dao_fee = do
  c1 ← update_platform c bounty.token (λ s. FeeStats.commission_unlocking s platform_fee)
  update_dao c1 (internal_get_dao_fee_stats c1 bounty)
      (λ s. FeeStats.commission_unlocking s dao_fee)

abbrev check_platform : Contract → Option AccountId → ℕ → Result (Unit {0})
check_platform c none amount = ok tt
check_platform c (some token) amount = do
  stats ← unwrap (c.total_fees token)
  FeeStats.assert_locked_amount_greater_than_or_equal_transaction_amount stats amount

abbrev check_dao : Option (AccountId × List DaoFeeStats × ℕ) → ℕ → Result (Unit {0})
check_dao none amount = ok tt
check_dao (some (dao, stats, i)) amount = do
  entry ← index stats i
  FeeStats.assert_locked_amount_greater_than_or_equal_transaction_amount entry.fee_stats amount

unfoldable pub assert_locked_amount_greater_than_or_equal_transaction_amount :
    Contract → Bounty → ℕ → ℕ → Result (Unit {0})
assert_locked_amount_greater_than_or_equal_transaction_amount c bounty platform_fee dao_fee = do
  check_platform c bounty.token platform_fee
  check_dao (internal_get_dao_fee_stats c bounty) dao_fee

unfoldable pub internal_get_unlocked_platform_fee_amount : Contract → AccountId → Result ℕ
internal_get_unlocked_platform_fee_amount c token_id = do
  stats ← expect (c.total_fees token_id) "No platform fees found"
  FeeStats.get_available_balance stats

unfoldable pub internal_platform_fee_withdraw : Contract → AccountId → ℕ → Result Contract
internal_platform_fee_withdraw c token_id amount =
    update_platform c (some token_id) (λ s. FeeStats.withdrawal_of_commission s amount)

unfoldable pub internal_get_unlocked_validators_dao_fee_amount :
    Contract → AccountId → AccountId → Result ℕ
internal_get_unlocked_validators_dao_fee_amount c dao_account_id token_id = do
  stats ← expect (c.total_validators_dao_fees dao_account_id) "No validators DAO fees found"
  let found = internal_find_dao_fee_stats token_id stats
  entry ← index found.0 found.1
  FeeStats.get_available_balance entry.fee_stats

unfoldable pub internal_validators_dao_fee_withdraw :
    Contract → AccountId → AccountId → ℕ → Result Contract
internal_validators_dao_fee_withdraw c dao_account_id token_id amount = do
  stats ← expect (c.total_validators_dao_fees dao_account_id) "No validators DAO fees found"
  let found = internal_find_dao_fee_stats token_id stats
  update_dao c (some (dao_account_id, found.0, found.1))
      (λ s. FeeStats.withdrawal_of_commission s amount)
