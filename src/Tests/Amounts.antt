-- ===== src/Tests/Amounts.antt =====
-- The theorems on amounts at concrete input, bounties/src/internal.rs and types.rs.
use heroes_contracts.Prelude.{
  ℕ, [], ◌∷◌, ◌≡◌, ◌+◌, ◌*◌, ◌≤◌, ◌<◌, ◌%◌, refl, none, some, true, ok, arith,
}
use heroes_contracts.Bounties.Types.{
  KycConfig, KycVerificationMethod, BountyStatus, ClaimantApproval, Deadline, ClaimStatus,
  OneForAllEnv,
}
use heroes_contracts.Bounties.Multitasking
use heroes_contracts.Bounties.Multitasking.{Multitasking}
use heroes_contracts.Bounties.Lookup.{get_claims_with_statuses, internal_get_claims_by_bounty_id}
use heroes_contracts.Bounties.Bounty.{Bounty}
use heroes_contracts.Bounties.Bounty.Split.{
  BountyCreate, split, to_bounty, to_bounty_conserves, split_reward_bounds, split_total,
}
use heroes_contracts.Bounties.Commissions.Amounts.{
  slot_share, Refund, internal_get_bounty_amount_to_return, internal_get_partial_amount,
}
use heroes_contracts.Bounties.Commissions.Amounts.Slots.{paid_out, paid_out-all, paid_and_refunded}
use heroes_contracts.Bounties.Commissions.Amounts.Subtasks.{
  percents, received, internal_get_partial_amount-pays,
}
use heroes_contracts.Tests.Samples.{
  bounty_of, owner, claimant, token, context_of, config, metadata, two_subtasks, participants,
  tasks, task_contract, places,
}

-- Three slots of a reward of 1000: 333, 333 and 334.
paid_out-all_example : paid_out 1_000 3 (λ k. 1) 3 ≡ ok 1_000
paid_out-all_example = paid_out-all 1_000 2 (λ k. 1) (omega arith) refl

paid_one : paid_out 1_000 3 (λ k. 1) 1 ≡ ok 333
unfolding paid_out slot_share
paid_one = refl

-- One of the three slots is paid, and the bounty waits for claims again.
abbrev one_paid : OneForAllEnv
one_paid = record { occupied_slots = 0; paid_slots = 1 }

abbrev third_paid : Bounty
third_paid =
    bounty_of BountyStatus.awaiting_claims
      (some (Multitasking.one_for_all 3 333 none (some one_paid)))

abbrev rest_of_it : Refund
rest_of_it = record {
  amount_to_return = 699;
  platform_fee = 66;
  penalty_platform_fee = 33;
  dao_fee = 0;
  penalty_dao_fee = 0;
}

refund_runs : internal_get_bounty_amount_to_return config third_paid ≡ ok rest_of_it
unfolding internal_get_bounty_amount_to_return Multitasking.get_one_for_all_env
refund_runs = refl

paid_and_refunded_example : 333 + 699 + 33 + 0 + 1_000 % 3 ≡ 1_000 + 66 + 0
paid_and_refunded_example =
    paid_and_refunded config third_paid 3 333 none one_paid (λ k. 1) refl refl refl (omega arith)
      paid_one refund_runs

others_run :
    get_claims_with_statuses task_contract 0
      (ClaimStatus.completed ∷ ClaimStatus.completed_with_dispute ∷ [])
      (some (claimant, none))
    ≡ ok []
unfolding get_claims_with_statuses internal_get_claims_by_bounty_id
others_run = refl

internal_get_partial_amount-pays_example :
    (payment : ℕ) × (internal_get_partial_amount task_contract 0
        (bounty_of BountyStatus.completed (some tasks))
        claimant
        none
        1
      ≡ ok payment)
    × (received 1_000 two_subtasks participants + payment ≡ 1_000)
unfolding percents
internal_get_partial_amount-pays_example =
    internal_get_partial_amount-pays task_contract 0 (bounty_of BountyStatus.completed (some tasks))
      claimant none 1 two_subtasks places [] refl others_run refl refl (omega arith) (omega arith)

abbrev request : BountyCreate
request = record {
  metadata = metadata;
  deadline = Deadline.without_deadline;
  claimant_approval = ClaimantApproval.multiple_claims;
  reviewers = none;
  kyc_config = none;
  postpaid = none;
  multitasking = none;
  allow_deadline_stretch = none;
  bounty_flow = none;
  allow_creating_many_claims = none;
}

abbrev created : Bounty
created = record (bounty_of BountyStatus.new none) {
  amount = 990;
  platform_fee = 110;
  created_at = 1_000;
  kyc_config = KycConfig.kyc_required KycVerificationMethod.when_creating_claim;
}

created_runs : to_bounty (context_of owner) request owner (some token) 1_100 config ≡ ok created
unfolding to_bounty split
created_runs = refl

to_bounty_conserves_example :
    (created.amount + created.platform_fee + created.dao_fee ≡ 1_100)
    × (created.status ≡ BountyStatus.new)
    × (created.owner ≡ owner)
to_bounty_conserves_example =
    to_bounty_conserves (context_of owner) request owner (some token) 1_100 config created_runs

split_runs : split true 1_100 (10_000, 5_000) ≡ ok (944, 104, 52)
unfolding split
split_runs = refl

split_reward_bounds_example :
    (1_100 * 100_000 ≤ 944 * (100_000 + 5_000) + 1_100 * 10_000)
    × (944 * (100_000 + 5_000) + 1_100 * 10_000 < 1_100 * 100_000 + 2 * (100_000 + 5_000))
split_reward_bounds_example = split_reward_bounds 1_100 10_000 5_000 split_runs

split_total_example : (parts : ℕ × ℕ × ℕ) × (split true 1_100 (10_000, 5_000) ≡ ok parts)
split_total_example = split_total true 1_100 10_000 5_000 (omega arith) (omega arith) (omega arith)
