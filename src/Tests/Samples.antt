-- ===== src/Tests/Samples.antt =====
-- A contract with one bounty and one claim, for the runs on concrete input.
use heroes_contracts.Prelude.{
  ℕ, refl, Option, none, some, List, [], ◌∷◌, true, false, arith, empty, insert,
}
use heroes_contracts.Near.{AccountId, Context}
use heroes_contracts.Bounties.Types.{
  BountyStatus, ClaimStatus, ContractStatus, Deadline, ClaimantApproval, KycConfig, BountyFlow,
  Config, BountyMetadata, Subtask, SubtaskEnv, DifferentTasksEnv,
}
use heroes_contracts.Bounties.Multitasking.{Multitasking}
use heroes_contracts.Bounties.Bounty.{Bounty}
use heroes_contracts.Bounties.Claim.{BountyClaim}
use heroes_contracts.Bounties.FeeStats.{FeeStats}
use heroes_contracts.Bounties.Contract.{Contract}
use heroes_contracts.Bounties.Bonds.{IsBacked, open_bonds}

abbrev pub owner : AccountId
owner = 1

abbrev pub claimant : AccountId
claimant = 2

abbrev pub token : AccountId
token = 5

abbrev pub context_of : AccountId → Context
context_of account = record {
  predecessor = account;
  current_account = 9;
  block_timestamp = 1_000;
  attached_deposit = 1;
}

abbrev pub config : Config
config = record {
  bounty_claim_bond = 7;
  bounty_forgiveness_period = 100;
  period_for_opening_dispute = 500;
  categories = "Marketing" ∷ [];
  tags = [];
  platform_fee_percentage = 10_000;
  validators_dao_fee_percentage = 5_000;
  penalty_platform_fee_percentage = 5_000;
  penalty_validators_dao_fee_percentage = 1_000;
  currencies = [];
  use_owners_whitelist = false;
  max_due_date = none;
}

abbrev pub metadata : BountyMetadata
metadata = record {
  title = "Logo";
  description = "A new logo";
  category = "Marketing";
  attachments = none;
  experience = none;
  tags = none;
  acceptance_criteria = none;
  contact_details = none;
}

abbrev pub bounty_of : BountyStatus → Option Multitasking → Bounty
bounty_of status multitasking = record {
  token = some token;
  amount = 1_000;
  platform_fee = 100;
  dao_fee = 0;
  metadata = metadata;
  deadline = Deadline.without_deadline;
  claimant_approval = ClaimantApproval.multiple_claims;
  reviewers = none;
  owner = owner;
  status = status;
  created_at = 10;
  kyc_config = KycConfig.kyc_not_required;
  postpaid = none;
  multitasking = multitasking;
  allow_deadline_stretch = false;
  bounty_flow = BountyFlow.advanced_flow;
  allow_creating_many_claims = false;
}

abbrev pub claim_of : ClaimStatus → Option ℕ → BountyClaim
claim_of status slot = record {
  owner = claimant;
  bounty_id = 0;
  created_at = 20;
  start_time = some 950;
  deadline = none;
  description = "I can do it";
  status = status;
  bounty_payout_proposal_id = none;
  approve_claimant_proposal_id = none;
  rejected_timestamp = none;
  dispute_id = none;
  is_kyc_delayed = none;
  payment_timestamps = none;
  slot = slot;
  bond = some 7;
  claim_number = none;
}

abbrev pub fees : FeeStats
fees = record {
  balance = 150;
  locked_balance = 100;
  amount_received = 150;
  amount_withdrawn = 0;
  refunded_amount = 0;
  penalty_amount = 0;
}

abbrev pub contract_of : Bounty → BountyClaim → Contract
contract_of bounty claim = record {
  tokens = empty;
  last_bounty_id = 1;
  bounties = insert empty 0 bounty;
  account_bounties = insert empty owner (0 ∷ []);
  locked_amount = 7;
  unlocked_amount = 0;
  admins_whitelist = [];
  config = config;
  reputation_contract = some 8;
  dispute_contract = some 6;
  kyc_whitelist_contract = none;
  owners_whitelist = [];
  postpaid_subscribers_whitelist = [];
  total_fees = insert empty token fees;
  total_validators_dao_fees = empty;
  recipient_of_platform_fee = some 3;
  status = ContractStatus.live;
  last_claim_id = 1;
  claims = insert empty 0 claim;
  bounty_claimants = insert empty claimant (0 ∷ []);
  bounty_claims = insert empty 0 (0 ∷ []);
  receipts = [];
}

-- A simple bounty and one with two subtasks.
abbrev pub simple : BountyStatus → ClaimStatus → Contract
simple status claim_status = contract_of (bounty_of status none) (claim_of claim_status none)

abbrev pub two_subtasks : List Subtask
two_subtasks =
    record { subtask_description = "Draft"; subtask_percent = 33_333 }
    ∷ record { subtask_description = "Final"; subtask_percent = 66_667 }
    ∷ []

abbrev pub participants : List (Option SubtaskEnv)
participants =
    none
    ∷ some (record {
      participant = claimant;
      claim_number = none;
      completed = true;
      confirmed = false;
    })
    ∷ []

abbrev pub places : DifferentTasksEnv
places = record { participants = participants; bounty_payout_proposal_id = none }

abbrev pub tasks : Multitasking
tasks = Multitasking.different_tasks two_subtasks (some places)

abbrev pub task_contract : Contract
task_contract =
    contract_of (bounty_of BountyStatus.completed (some tasks))
      (claim_of ClaimStatus.completed (some 1))

pub new-IsBacked : IsBacked 0 (simple BountyStatus.new ClaimStatus.new)
unfolding open_bonds
new-IsBacked = record { locked = refl; fresh = λ i h. ground arith }

pub completed-IsBacked : IsBacked 0 (simple BountyStatus.claimed ClaimStatus.completed)
unfolding open_bonds
completed-IsBacked = record { locked = refl; fresh = λ i h. ground arith }

pub working-IsBacked : IsBacked 0 (simple BountyStatus.claimed ClaimStatus.in_progress)
unfolding open_bonds
working-IsBacked = record { locked = refl; fresh = λ i h. ground arith }

pub task-IsBacked : IsBacked 0 task_contract
unfolding open_bonds
task-IsBacked = record { locked = refl; fresh = λ i h. ground arith }

pub disputed-IsBacked : IsBacked 0 (simple BountyStatus.claimed ClaimStatus.disputed)
unfolding open_bonds
disputed-IsBacked = record { locked = refl; fresh = λ i h. ground arith }
