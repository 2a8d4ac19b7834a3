-- ===== src/Bounties/Payout.antt =====
-- Payouts, refunds and withdrawals, bounties/src/internal.rs, with the callbacks that end them,
-- callbacks.rs. A transfer is a promise; only its callback changes the books.
use heroes_contracts.Prelude.{
  ℕ, Bool, ◌||◌, ◌==◌, if◌then◌else◌, Option, none, some, Result, ok, expect, unwrap, ◌>>=◌, ◌>>◌,
}
use heroes_contracts.Near.{AccountId, Context}
use heroes_contracts.Bounties.Types.{BountyStatus, ReputationActionKind, Claimant, bounty_status_eq}
use heroes_contracts.Bounties.Bounty.{Bounty, is_payment_outside_contract, is_different_tasks}
use heroes_contracts.Bounties.FeeStats
use heroes_contracts.Bounties.Contract.{
  Contract, ft_transfer, after_ft_transfer, after_bounty_withdraw, after_refund_bounty_amount,
  after_fees_payout, schedule, get_bounty, internal_update_statistic,
  internal_change_status_and_save_bounty,
}
use heroes_contracts.Bounties.Commissions.{
  update_platform, update_dao, internal_get_dao_fee_stats,
  assert_locked_amount_greater_than_or_equal_transaction_amount, internal_platform_fee_withdraw,
  internal_validators_dao_fee_withdraw,
}
use heroes_contracts.Bounties.Commissions.Amounts.{
  internal_get_bounty_amount_to_return, internal_get_bounty_amount_for_payment,
  internal_get_partial_amount,
}
use heroes_contracts.Bounties.Closure.{internal_slot_finalize}
use heroes_contracts.Bounties.Completion.{internal_bounty_completion}

abbrev pub token_of : Bounty → Result AccountId
token_of bounty = unwrap bounty.token

unfoldable pub internal_bounty_payout :
    Context → Contract → ℕ → Option Claimant → Option ℕ → Result Contract
internal_bounty_payout ctx c id claimant place = do
  bounty ← get_bounty c id
  amounts ← internal_get_bounty_amount_for_payment bounty place
  assert_locked_amount_greater_than_or_equal_transaction_amount c bounty amounts.1 amounts.2
  if is_payment_outside_contract bounty || is_different_tasks bounty
      then internal_bounty_completion ctx c id bounty claimant amounts place
      else (do
        who ← expect claimant "Incorrect claimant parameter"
        token ← token_of bounty
        ok (
            schedule c
              (ft_transfer token who.0 amounts.0 (after_ft_transfer id claimant amounts place))))

-- A callback with the outcome of its promise. A failed transfer is only logged.
unfoldable pub after_ft_transfer_callback :
    Context → Contract → Bool → ℕ → Option Claimant → ℕ × ℕ × ℕ → Option ℕ → Result Contract
after_ft_transfer_callback ctx c is_promise_success id claimant amounts place =
    if is_promise_success
    then (do
      bounty ← get_bounty c id
      internal_bounty_completion ctx c id bounty claimant amounts place)
    else ok c

unfoldable pub internal_bounty_withdraw :
    Contract → ℕ → Bounty → AccountId → Option ℕ → ℕ → Result Contract
internal_bounty_withdraw c id bounty receiver_id claim_number slot = do
  amount ← internal_get_partial_amount c id bounty receiver_id claim_number slot
  if is_payment_outside_contract bounty
      then internal_slot_finalize c id bounty receiver_id claim_number slot
      else (do
        token ← token_of bounty
        ok (
            schedule c (
              ft_transfer token receiver_id amount
                (after_bounty_withdraw id receiver_id claim_number slot))))

unfoldable pub after_bounty_withdraw_callback :
    Contract → Bool → ℕ → AccountId → Option ℕ → ℕ → Result Contract
after_bounty_withdraw_callback c is_promise_success id receiver_id claim_number slot =
    if is_promise_success
    then (do
      bounty ← get_bounty c id
      internal_slot_finalize c id bounty receiver_id claim_number slot)
    else ok c

unfoldable pub internal_total_fees_refunding_funds : Contract → Bounty → Result Contract
internal_total_fees_refunding_funds c bounty = do
  r ← internal_get_bounty_amount_to_return c.config bounty
  c1 ←
      update_platform c bounty.token
        (λ s. FeeStats.refund_commission s r.platform_fee r.penalty_platform_fee)
  update_dao c1 (internal_get_dao_fee_stats c1 bounty)
      (λ s. FeeStats.refund_commission s r.dao_fee r.penalty_dao_fee)

unfoldable pub internal_bounty_cancellation : Contract → ℕ → Bounty → Result Contract
internal_bounty_cancellation c id bounty = do
  c1 ← internal_total_fees_refunding_funds c bounty
  let partly = bounty_status_eq bounty.status BountyStatus.awaiting_claims
  let c2 =
      internal_change_status_and_save_bounty c1 id bounty
        (if partly then BountyStatus.partially_completed else BountyStatus.canceled)
  ok (
      internal_update_statistic c2 none (some bounty.owner) (
        if partly
        then ReputationActionKind.successful_bounty
        else ReputationActionKind.bounty_cancelled))

unfoldable pub internal_refund_bounty_amount : Contract → ℕ → Bounty → Result Contract
internal_refund_bounty_amount c id bounty = do
  r ← internal_get_bounty_amount_to_return c.config bounty
  assert_locked_amount_greater_than_or_equal_transaction_amount c bounty r.platform_fee r.dao_fee
  if r.amount_to_return == 0 then internal_bounty_cancellation c id bounty else (do
    token ← token_of bounty
    ok (
        schedule c
          (ft_transfer token bounty.owner r.amount_to_return (after_refund_bounty_amount id))))

unfoldable pub after_refund_bounty_amount_callback : Contract → Bool → ℕ → Result Contract
after_refund_bounty_amount_callback c is_promise_success id =
    if is_promise_success
    then (do bounty ← get_bounty c id; internal_bounty_cancellation c id bounty)
    else ok c

unfoldable pub internal_fees_payout : Contract → AccountId → ℕ → AccountId → Bool → Contract
internal_fees_payout c token_id amount receiver is_platform_fee = schedule c (
    ft_transfer token_id receiver amount
      (after_fees_payout token_id amount is_platform_fee receiver))

unfoldable pub after_fees_payout_callback :
    Contract → Bool → AccountId → ℕ → Bool → AccountId → Result Contract
after_fees_payout_callback c is_promise_success token_id amount is_platform_fee account_id =
    if is_promise_success
    then (if is_platform_fee
        then internal_platform_fee_withdraw c token_id amount
        else internal_validators_dao_fee_withdraw c account_id token_id amount)
    else ok c
