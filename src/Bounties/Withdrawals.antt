-- ===== src/Bounties/Withdrawals.antt =====
-- The public methods that withdraw commissions, bonds and the rewards of subtasks, and those that
-- deal with disputes, bounties/src/lib.rs.
use heroes_contracts.Prelude.{
  ℕ, String, Bool, true, false, not, ◌==◌, ltb, bool_eq, if◌then◌else◌, Option, none, some, is_some,
  [], ◌∷◌, Result, ok, assert, expect, unwrap, ◌>>=◌, ◌>>◌,
}
use heroes_contracts.Near.{AccountId, Context, assert_one_yocto}
use heroes_contracts.Bounties.Types.{BountyStatus, ClaimStatus, bounty_status_eq, claim_status_eq}
use heroes_contracts.Bounties.Multitasking
use heroes_contracts.Bounties.Bounty.{Bounty, is_different_tasks, get_bounty_owner_delegate}
use heroes_contracts.Bounties.Contract.{
  Contract, transfer, create_dispute, after_create_dispute, assert_live, schedule, get_bounty,
}
use heroes_contracts.Bounties.Lookup.{internal_get_claim, has_bounty_status, has_claim_status}
use heroes_contracts.Bounties.Commissions.{
  internal_get_unlocked_platform_fee_amount, internal_get_unlocked_validators_dao_fee_amount,
}
use heroes_contracts.Bounties.Closure.{
  internal_reset_bounty_to_initial_state, is_deadline_for_opening_dispute_expired,
  internal_claim_return_after_dispute,
}
use heroes_contracts.Bounties.Payout.{
  internal_bounty_payout, internal_fees_payout, internal_bounty_withdraw,
}

unfoldable pub withdraw_platform_fee : Context → Contract → AccountId → Result Contract
withdraw_platform_fee ctx c token_id = do
  assert_live c
  assert_one_yocto ctx
  recipient ←
      expect c.recipient_of_platform_fee "The recipient of the platform fee is not specified"
  assert (recipient == ctx.predecessor)
      "This account does not have permission to perform this action"
  balance ← internal_get_unlocked_platform_fee_amount c token_id
  assert (ltb 0 balance) "The available balance of commission is zero"
  ok (internal_fees_payout c token_id balance ctx.predecessor true)

unfoldable pub withdraw_validators_dao_fee : Context → Contract → AccountId → Result Contract
withdraw_validators_dao_fee ctx c token_id = do
  assert_live c
  assert_one_yocto ctx
  let dao_account_id = ctx.predecessor
  balance ← internal_get_unlocked_validators_dao_fee_amount c dao_account_id token_id
  assert (ltb 0 balance) "The available balance of commission is zero"
  ok (internal_fees_payout c token_id balance dao_account_id false)

unfoldable pub withdraw : Context → Contract → ℕ → Option ℕ → Result Contract
withdraw ctx c id claim_number = do
  assert_live c
  assert_one_yocto ctx
  let receiver_id = ctx.predecessor
  bounty ← get_bounty c id
  assert (is_different_tasks bounty) "This action is only available for the DifferentTasks mode"
  assert (bounty_status_eq bounty.status BountyStatus.completed)
      "Bounty status does not allow this action"
  assert (bool_eq (is_some claim_number) bounty.allow_creating_many_claims)
      "Invalid claim_number value"
  found ← internal_get_claim c id receiver_id claim_number
  assert
      (has_claim_status (ClaimStatus.completed ∷ ClaimStatus.completed_with_dispute ∷ [])
        found.1.status)
      "The claim status does not allow this action"
  slot ← unwrap found.1.slot
  m ← unwrap bounty.multitasking
  env ← Multitasking.get_slot_env m slot
  occupied ← expect env "The slot is not occupied"
  assert (occupied.participant == receiver_id) "This slot belongs to another account"
  internal_bounty_withdraw c id bounty receiver_id claim_number slot

unfoldable pub withdraw_non_refunded_bonds : Context → Contract → Result Contract
withdraw_non_refunded_bonds ctx c = do
  assert_live c
  assert_one_yocto ctx
  recipient ←
      expect c.recipient_of_platform_fee
        "The recipient of the non-refundable bonds is not specified"
  assert (recipient == ctx.predecessor)
      "This account does not have permission to perform this action"
  assert (ltb 0 c.unlocked_amount) "The amount of non-refunded bonds is now zero"
  ok (schedule (record c { unlocked_amount = 0 }) (transfer ctx.predecessor c.unlocked_amount))

-- `internal_create_dispute`.
abbrev internal_create_dispute :
    Contract → ℕ → AccountId → Option ℕ → Bounty → String → Result Contract
internal_create_dispute c id receiver_id claim_number bounty description = do
  dispute ← unwrap c.dispute_contract
  ok (
      schedule c (
        create_dispute dispute id description receiver_id (get_bounty_owner_delegate bounty)
          claim_number (after_create_dispute id receiver_id claim_number)))

unfoldable pub open_dispute : Context → Contract → ℕ → String → Option ℕ → Result Contract
open_dispute ctx c id description claim_number = do
  assert_live c
  assert (is_some c.dispute_contract) "Opening a dispute is not supported by this contract"
  bounty ← get_bounty c id
  assert (has_bounty_status (BountyStatus.claimed ∷ BountyStatus.many_claimed ∷ []) bounty.status)
      "Bounty status does not allow opening a dispute"
  assert (bool_eq (is_some claim_number) bounty.allow_creating_many_claims)
      "Invalid claim_number value"
  found ← internal_get_claim c id ctx.predecessor claim_number
  assert (claim_status_eq found.1.status ClaimStatus.rejected)
      "The claim status does not allow opening a dispute"
  expired ← is_deadline_for_opening_dispute_expired ctx c found.1
  assert (not expired) "The period for opening a dispute has expired"
  internal_create_dispute c id ctx.predecessor claim_number bounty description

unfoldable pub dispute_result :
    Context → Contract → ℕ → AccountId → Option ℕ → Bool → Result Contract
dispute_result ctx c id receiver_id claim_number success = do
  assert_live c
  dispute ← expect c.dispute_contract "The use of dispute is not supported by this contract"
  assert (dispute == ctx.predecessor) "This method can only be called by a dispute contract"
  bounty ← get_bounty c id
  assert (has_bounty_status (BountyStatus.claimed ∷ BountyStatus.many_claimed ∷ []) bounty.status)
      "Bounty status does not allow sending the result of the dispute"
  assert (bool_eq (is_some claim_number) bounty.allow_creating_many_claims)
      "Invalid claim_number value"
  found ← internal_get_claim c id receiver_id claim_number
  assert (claim_status_eq found.1.status ClaimStatus.disputed)
      "The claim status does not allow opening a dispute"
  if success
      then (if is_different_tasks bounty
          then ok (internal_claim_return_after_dispute c found.0 found.1)
          else internal_bounty_payout ctx c id (some (receiver_id, claim_number)) none)
      else internal_reset_bounty_to_initial_state ctx c id receiver_id bounty found.0 found.1 none
          true
