-- ===== src/Tests/Bonds.antt =====
-- The theorems on bonds and on transfers under way at concrete contracts, bounties/src/lib.rs.
use heroes_contracts.Prelude.{
  ℕ, Option, sym, ◌∙◌, ok-injective, Succeeds, ◌≡◌, refl, none, some, true, false, ok, arith,
  Ensures,
}
use mathlib.Core.Path.{subst}
use heroes_contracts.Bounties.Types.{BountyStatus, ClaimStatus}
use heroes_contracts.Bounties.Contract.{
  Contract, Receipt, internal_return_bonds, internal_unlock_non_refunded_bond, schedule,
  ft_transfer, after_fees_payout, after_bounty_withdraw, after_refund_bounty_amount,
}
use heroes_contracts.Bounties.Bonds.{IsBacked}
use heroes_contracts.Bounties.Bonds.Closing.{internal_claim_closure-IsBacked}
use heroes_contracts.Bounties.Bonds.Closable.{internal_claim_closure-canceled, bounty_give_up-new}
use heroes_contracts.Bounties.Bonds.Payout.{internal_bounty_completion-IsBacked}
use heroes_contracts.Bounties.Bonds.Settlement.{Settles}
use heroes_contracts.Bounties.Bonds.Outcomes.{bounty_give_up-Settles, bounty_done-Settles}
use heroes_contracts.Bounties.Closure.{
  internal_set_claim_expiry_status, internal_claim_closure, internal_reset_bounty_to_initial_state,
  bounty_released,
}
use heroes_contracts.Bounties.Multitasking
use heroes_contracts.Bounties.Commissions.{
  internal_get_dao_fee_stats, assert_locked_amount_greater_than_or_equal_transaction_amount,
}
use heroes_contracts.Bounties.Commissions.Amounts.{Refund, internal_get_bounty_amount_to_return}
use heroes_contracts.Bounties.FeeStats
use heroes_contracts.Bounties.Lookup.{
  internal_get_claim, internal_find_claim, internal_get_claims_by_account_id_and_bounty_id,
}
use heroes_contracts.Bounties.Lookup.Found.{internal_get_claim-claims}
use heroes_contracts.Bounties.Lookup.{internal_get_and_check_bounty_and_claim}
use heroes_contracts.Bounties.Completion.{internal_bounty_completion}
use heroes_contracts.Bounties.Methods.{is_forgiven, bounty_give_up, bounty_done}
use heroes_contracts.Bounties.Bonds.Runs.{at_rest, then_step, canceled, Steps-IsBacked}
use heroes_contracts.Bounties.Bounty.{Bounty}
use heroes_contracts.Bounties.Claim.{BountyClaim, get_start_time, is_claim_expired}
use heroes_contracts.Bounties.Approval.{approval_required}
use heroes_contracts.Bounties.Claiming.{
  checked_or, internal_add_claim, check_if_allowed_to_create_claim_by_status, internal_create_claim,
}
use heroes_contracts.Bounties.Bonds.Creation.{IsReplaceable, internal_create_claim-IsBacked}
use heroes_contracts.Bounties.Payments.{bounty_cancel}
use heroes_contracts.Bounties.Payout.{internal_refund_bounty_amount}
use heroes_contracts.Tests.Samples.{
  owner, claimant, token, context_of, contract_of, bounty_of, claim_of, simple, new-IsBacked,
  completed-IsBacked, working-IsBacked,
}

abbrev started : Contract
started = simple BountyStatus.claimed ClaimStatus.in_progress

abbrev finished : Contract
finished = simple BountyStatus.claimed ClaimStatus.completed

abbrev fresh : Contract
fresh = simple BountyStatus.new ClaimStatus.new

claim_runs : internal_get_claim fresh 0 claimant none ≡ ok (0, claim_of ClaimStatus.new none)
unfolding internal_get_claim internal_find_claim internal_get_claims_by_account_id_and_bounty_id
claim_runs = refl

internal_claim_closure-IsBacked_example : Ensures (IsBacked 0) (
    internal_claim_closure started claimant owner BountyStatus.claimed 0
      (claim_of ClaimStatus.in_progress none)
      (some ClaimStatus.expired)
      false)
internal_claim_closure-IsBacked_example =
    internal_claim_closure-IsBacked started claimant owner BountyStatus.claimed 0
      (claim_of ClaimStatus.in_progress none) (some ClaimStatus.expired) false working-IsBacked refl
      refl

internal_claim_closure-canceled_example :
    (d : Contract) × (internal_claim_closure started claimant owner BountyStatus.claimed 0
        (claim_of ClaimStatus.in_progress none)
        (some ClaimStatus.canceled)
        false
      ≡ ok d)
internal_claim_closure-canceled_example =
    internal_claim_closure-canceled started claimant owner BountyStatus.claimed 0
      (claim_of ClaimStatus.in_progress none) false working-IsBacked refl refl (omega arith)

bounty_give_up-new_example :
    (d : Contract) × (bounty_give_up (context_of claimant) fresh 0 none ≡ ok d) × IsBacked 0 d
bounty_give_up-new_example =
    bounty_give_up-new (context_of claimant) fresh 0 none (bounty_of BountyStatus.new none) 0
      (claim_of ClaimStatus.new none) new-IsBacked refl refl refl claim_runs refl (omega arith)

-- Given up 50 nanoseconds after its start: the bond of 7 is returned.
working_runs :
    internal_get_claim started 0 claimant none ≡ ok (0, claim_of ClaimStatus.in_progress none)
unfolding internal_get_claim internal_find_claim internal_get_claims_by_account_id_and_bounty_id
working_runs = refl

give_up_runs : Succeeds (bounty_give_up (context_of claimant) started 0 none)
unfolding bounty_give_up internal_get_claim internal_find_claim
    internal_get_claims_by_account_id_and_bounty_id is_forgiven get_start_time
    internal_reset_bounty_to_initial_state bounty_released internal_claim_closure
    internal_return_bonds
give_up_runs = (_, refl)

bounty_give_up-Settles_example :
    Ensures
      (λ d.
        Settles started claimant 7 true d
        × (d.claims 0 ≡ some (claim_of ClaimStatus.canceled none)))
      (bounty_give_up (context_of claimant) started 0 none)
unfolding get_start_time
bounty_give_up-Settles_example =
    bounty_give_up-Settles (context_of claimant) started 0 none
      (bounty_of BountyStatus.claimed none) 0 950 (claim_of ClaimStatus.in_progress none) refl
      working_runs (λ working. refl)

-- A claim of which the 20 nanoseconds for the work are over.
abbrev late_claim : BountyClaim
late_claim = record (claim_of ClaimStatus.in_progress none) { deadline = some 20 }

abbrev late : Contract
late = contract_of (bounty_of BountyStatus.claimed none) late_claim

late_runs : internal_get_claim late 0 claimant none ≡ ok (0, late_claim)
unfolding internal_get_claim internal_find_claim internal_get_claims_by_account_id_and_bounty_id
late_runs = refl

expires :
    is_claim_expired (context_of claimant) late_claim (bounty_of BountyStatus.claimed none)
    ≡ ok true
unfolding is_claim_expired get_start_time
expires = refl

done_runs : Succeeds (bounty_done (context_of claimant) late 0 "Here it is" none)
unfolding bounty_done internal_get_claim internal_find_claim
    internal_get_claims_by_account_id_and_bounty_id is_claim_expired
    internal_set_claim_expiry_status internal_reset_bounty_to_initial_state bounty_released
    internal_claim_closure internal_unlock_non_refunded_bond get_start_time
done_runs = (_, refl)

bounty_done-Settles_example :
    Ensures
      (λ d.
        Settles late claimant 7 false d
        × (d.claims 0 ≡ some (record late_claim { status = ClaimStatus.expired })))
      (bounty_done (context_of claimant) late 0 "Here it is" none)
bounty_done-Settles_example =
    bounty_done-Settles (context_of claimant) late 0 "Here it is" none
      (bounty_of BountyStatus.claimed none) 0 late_claim true refl late_runs expires refl

internal_bounty_completion-IsBacked_example : Ensures (IsBacked 0) (
    internal_bounty_completion
      (context_of 9)
      finished
      0
      (bounty_of BountyStatus.claimed none)
      (some (claimant, none))
      (1_000, 100, 0)
      none)
internal_bounty_completion-IsBacked_example =
    internal_bounty_completion-IsBacked (context_of 9) finished 0
      (bounty_of BountyStatus.claimed none) (some (claimant, none)) (1_000, 100, 0) none
      completed-IsBacked

-- The last reward of a bounty with two subtasks.
abbrev reward : Receipt
reward = ft_transfer token claimant 667 (after_bounty_withdraw 0 claimant none 1)

abbrev fee_payment : Receipt
fee_payment = ft_transfer token 3 50 (after_fees_payout token 50 true 3)

abbrev refund : Refund
refund = record {
  amount_to_return = 1_050;
  platform_fee = 100;
  penalty_platform_fee = 50;
  dao_fee = 0;
  penalty_dao_fee = 0;
}

abbrev refund_payment : Receipt
refund_payment = ft_transfer token owner 1_050 (after_refund_bounty_amount 0)

cancel_runs : bounty_cancel (context_of owner) fresh 0 ≡ ok (schedule fresh refund_payment)
unfolding bounty_cancel internal_refund_bounty_amount internal_get_bounty_amount_to_return
    assert_locked_amount_greater_than_or_equal_transaction_amount internal_get_dao_fee_stats
    FeeStats.assert_locked_amount_greater_than_or_equal_transaction_amount
cancel_runs = refl

internal_get_claim-claims_example :
    (fresh.claims 0 ≡ some (claim_of ClaimStatus.new none))
    × ((claim_of ClaimStatus.new none).owner ≡ claimant)
    × ((claim_of ClaimStatus.new none).bounty_id ≡ 0)
internal_get_claim-claims_example = internal_get_claim-claims fresh 0 claimant none claim_runs

-- A claim of another account, with the check of the statuses made again.
checked_runs :
    checked_or (context_of claimant) fresh 0 4 none none none
    ≡ ok (bounty_of BountyStatus.new none, none, none)
unfolding check_if_allowed_to_create_claim_by_status internal_get_and_check_bounty_and_claim
    internal_find_claim internal_get_claims_by_account_id_and_bounty_id
checked_runs = refl

create_runs :
    Succeeds
      (internal_create_claim (context_of claimant) fresh 0 4 none none "Me too" none none none)
unfolding internal_create_claim internal_add_claim approval_required
    check_if_allowed_to_create_claim_by_status internal_get_and_check_bounty_and_claim
    internal_find_claim internal_get_claims_by_account_id_and_bounty_id
create_runs = (_, refl)

internal_create_claim-IsBacked_example :
    Ensures
      (IsBacked 0)
      (internal_create_claim (context_of claimant) fresh 0 4 none none "Me too" none none none)
unfolding IsReplaceable
internal_create_claim-IsBacked_example =
    internal_create_claim-IsBacked (context_of claimant) fresh 0 4 none none "Me too" none none none
      new-IsBacked
      (λ checked k.
        subst (λ (x : Bounty × Option (ℕ × BountyClaim) × Option ℕ). IsReplaceable fresh x.1)
          (ok-injective (sym checked_runs ∙ k)) tt)

Steps-IsBacked_example : IsBacked 0 (schedule fresh refund_payment)
Steps-IsBacked_example =
    Steps-IsBacked (then_step at_rest (canceled (context_of owner) 0 cancel_runs)) new-IsBacked
