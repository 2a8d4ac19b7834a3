-- ===== src/Bounties/Types.antt =====
-- The plain data types of bounties/src/types.rs.
use heroes_contracts.Prelude.{ℕ, String, Bool, Option, List, ◌^◌, ◌==◌}
use heroes_contracts.Near.{AccountId}

-- u64 and u128 values, times in nanoseconds.
pub data BountyStatus : Type 0 where
  new claimed completed canceled many_claimed awaiting_claims partially_completed : BountyStatus

pub data ContractStatus : Type 0 where
  genesis live read_only : ContractStatus

pub data Deadline : Type 0 where
  due_date : ℕ → Deadline
  max_deadline : ℕ → Deadline
  without_deadline : Deadline

pub data Experience : Type 0 where
  beginner intermediate advanced any_experience : Experience

pub data ContactType : Type 0 where
  discord telegram twitter email : ContactType

pub record ContactDetails : Type 0 where
  pub contact : String
  pub contact_type : ContactType

pub record BountyMetadata : Type 0 where
  pub title : String
  pub description : String
  pub category : String
  pub attachments : Option (List String)
  pub experience : Option Experience
  pub tags : Option (List String)
  pub acceptance_criteria : Option String
  pub contact_details : Option ContactDetails

pub data ClaimantApproval : Type 0 where
  approval_with_whitelist multiple_claims without_approval : ClaimantApproval
  approval_by_whitelist whitelist_with_approvals : List AccountId → ClaimantApproval

pub record ValidatorsDao : Type 0 where
  pub account_id : AccountId
  pub add_proposal_bond : ℕ
  pub gas_for_add_proposal : ℕ
  pub gas_for_claim_approval : ℕ
  pub gas_for_claimant_approval : ℕ

pub record ValidatorsDaoParams : Type 0 where
  pub account_id : AccountId
  pub add_proposal_bond : ℕ
  pub gas_for_add_proposal : Option ℕ
  pub gas_for_claim_approval : Option ℕ
  pub gas_for_claimant_approval : Option ℕ

pub data Reviewers : Type 0 where
  validators_dao : ValidatorsDao → Reviewers
  more_reviewers : List AccountId → Reviewers

pub data ReviewersParams : Type 0 where
  validators_dao : ValidatorsDaoParams → ReviewersParams
  more_reviewers : List AccountId → ReviewersParams

pub data KycVerificationMethod : Type 0 where
  when_creating_claim during_claim_approval : KycVerificationMethod

pub data KycConfig : Type 0 where
  kyc_not_required : KycConfig
  kyc_required : KycVerificationMethod → KycConfig

pub data DefermentOfKyc : Type 0 where
  allowed_to_skip_kyc before_deadline : DefermentOfKyc

pub data DateOrPeriod : Type 0 where
  date period : ℕ → DateOrPeriod

pub data StartConditions : Type 0 where
  min_amount_to_start : ℕ → StartConditions
  manually_start : StartConditions

pub record Subtask : Type 0 where
  pub subtask_description : String
  pub subtask_percent : ℕ  -- u32, thousandths of a percent

pub record PrizePlace : Type 0 where
  pub place_description : String
  pub place_amount : ℕ

-- A claimant: the account, and the claim's number within the account.
abbrev pub Claimant : Type 0
Claimant = AccountId × Option ℕ

pub record ContestOrHackathonEnvV1 : Type 0 where
  pub started_at : Option ℕ
  pub finished_at : Option ℕ
  pub participants : ℕ
  pub competition_winner : Option AccountId

pub record ContestOrHackathonEnvV2 : Type 0 where
  pub started_at : Option ℕ
  pub finished_at : Option ℕ
  pub participants : ℕ
  pub competition_winner : Option Claimant

pub record ContestOrHackathonEnv : Type 0 where
  pub started_at : Option ℕ
  pub finished_at : Option ℕ
  pub participants : ℕ  -- u32
  pub competition_winners : List (Option Claimant)

pub record OneForAllEnv : Type 0 where
  pub occupied_slots : ℕ  -- u16
  pub paid_slots : ℕ  -- u16

pub record SubtaskEnvV1 : Type 0 where
  pub participant : AccountId
  pub completed : Bool
  pub confirmed : Bool

pub record SubtaskEnv : Type 0 where
  pub participant : AccountId
  pub claim_number : Option ℕ
  pub completed : Bool
  pub confirmed : Bool

pub record DifferentTasksEnvV1 : Type 0 where
  pub participants : List (Option SubtaskEnvV1)
  pub bounty_payout_proposal_id : Option ℕ

pub record DifferentTasksEnv : Type 0 where
  pub participants : List (Option SubtaskEnv)
  pub bounty_payout_proposal_id : Option ℕ

pub record PaymentTimestamps : Type 0 where
  pub payment_at : Option ℕ
  pub payment_confirmed_at : Option ℕ

pub data Postpaid : Type 0 where
  payment_outside_contract_v1 : String → Postpaid
  payment_outside_contract : String → Option PaymentTimestamps → Postpaid

pub data BountyFlow : Type 0 where
  simple_bounty advanced_flow : BountyFlow

pub data ClaimStatus : Type 0 where
  new in_progress completed approved rejected canceled expired : ClaimStatus
  disputed not_completed not_hired competes ready_to_start completed_with_dispute : ClaimStatus

pub data ReputationActionKind : Type 0 where
  bounty_created bounty_cancelled claim_created claim_cancelled : ReputationActionKind
  claimant_approved claim_expired successful_bounty : ReputationActionKind
  successful_bounty_and_claim unsuccessful_claim successful_claim : Bool → ReputationActionKind

pub record Config : Type 0 where
  pub bounty_claim_bond : ℕ
  pub bounty_forgiveness_period : ℕ
  pub period_for_opening_dispute : ℕ
  pub categories : List String
  pub tags : List String
  pub platform_fee_percentage : ℕ  -- u32
  pub validators_dao_fee_percentage : ℕ
  pub penalty_platform_fee_percentage : ℕ
  pub penalty_validators_dao_fee_percentage : ℕ
  pub currencies : List String
  pub use_owners_whitelist : Bool
  pub max_due_date : Option ℕ

-- `ONE_NEAR`, in yoctoNEAR.
abbrev pub default_bounty_claim_bond : ℕ
default_bounty_claim_bond = 10 ^ 24

abbrev pub max_slots : ℕ
max_slots = 32

abbrev pub min_deviation_for_total_bounty_amount : ℕ
min_deviation_for_total_bounty_amount = 20

-- The discriminants, which the derived `PartialEq` compares.
abbrev pub bounty_status_discriminant : BountyStatus → ℕ
bounty_status_discriminant BountyStatus.new = 0
bounty_status_discriminant BountyStatus.claimed = 1
bounty_status_discriminant BountyStatus.completed = 2
bounty_status_discriminant BountyStatus.canceled = 3
bounty_status_discriminant BountyStatus.many_claimed = 4
bounty_status_discriminant BountyStatus.awaiting_claims = 5
bounty_status_discriminant BountyStatus.partially_completed = 6

abbrev pub claim_status_discriminant : ClaimStatus → ℕ
claim_status_discriminant ClaimStatus.new = 0
claim_status_discriminant ClaimStatus.in_progress = 1
claim_status_discriminant ClaimStatus.completed = 2
claim_status_discriminant ClaimStatus.approved = 3
claim_status_discriminant ClaimStatus.rejected = 4
claim_status_discriminant ClaimStatus.canceled = 5
claim_status_discriminant ClaimStatus.expired = 6
claim_status_discriminant ClaimStatus.disputed = 7
claim_status_discriminant ClaimStatus.not_completed = 8
claim_status_discriminant ClaimStatus.not_hired = 9
claim_status_discriminant ClaimStatus.competes = 10
claim_status_discriminant ClaimStatus.ready_to_start = 11
claim_status_discriminant ClaimStatus.completed_with_dispute = 12

abbrev pub bounty_status_eq : BountyStatus → BountyStatus → Bool
bounty_status_eq a b = bounty_status_discriminant a == bounty_status_discriminant b

abbrev pub claim_status_eq : ClaimStatus → ClaimStatus → Bool
claim_status_eq a b = claim_status_discriminant a == claim_status_discriminant b
