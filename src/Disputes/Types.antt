-- ===== src/Disputes/Types.antt =====
-- The data types of disputes/src/types.rs, with the versions in which they are stored.
use heroes_contracts.Prelude.{
  ℕ, String, Bool, true, false, Option, none, Result, ok, panic, ◌==◌, ◌*◌, ◌^◌, if◌then◌else◌,
}
use heroes_contracts.Near.{AccountId, Context}

pub data ContractStatus : Type 0 where
  genesis live read_only : ContractStatus

pub data DisputeStatus : Type 0 where
  new decision_pending in_favor_of_claimant in_favor_of_project_owner : DisputeStatus
  canceled_by_claimant canceled_by_project_owner : DisputeStatus

pub data Side : Type 0 where
  claimant project_owner : Side

-- An answer of the DAO to `get_proposal`.
pub record Proposal : Type 0 where
  pub id : ℕ
  pub proposer : AccountId
  pub description : String
  pub status : String

pub record Reason : Type 0 where
  pub side : Side
  pub argument_timestamp : ℕ
  pub description : String

pub data VersionedReason : Type 0 where
  current : Reason → VersionedReason

abbrev pub to_reason : VersionedReason → Reason
to_reason (VersionedReason.current reason) = reason

pub record DisputeCreate : Type 0 where
  pub bounty_id : ℕ
  pub description : String
  pub receiver_id : AccountId
  pub project_owner_delegate : AccountId
  pub claim_number : Option ℕ

pub record DisputeV1 : Type 0 where
  pub start_time : ℕ
  pub description : String
  pub bounty_id : ℕ
  pub receiver_id : AccountId
  pub project_owner_delegate : AccountId
  pub status : DisputeStatus
  pub proposal_id : Option ℕ
  pub proposal_timestamp : Option ℕ

pub record Dispute : Type 0 where
  pub start_time : ℕ
  pub description : String
  pub bounty_id : ℕ
  pub receiver_id : AccountId
  pub claim_number : Option ℕ
  pub project_owner_delegate : AccountId
  pub status : DisputeStatus
  pub proposal_id : Option ℕ
  pub proposal_timestamp : Option ℕ

abbrev pub to_dispute : Context → DisputeCreate → Dispute
to_dispute ctx create = record {
  start_time = ctx.block_timestamp;
  description = create.description;
  bounty_id = create.bounty_id;
  receiver_id = create.receiver_id;
  claim_number = create.claim_number;
  project_owner_delegate = create.project_owner_delegate;
  status = DisputeStatus.new;
  proposal_id = none;
  proposal_timestamp = none;
}

unfoldable pub get_side_of_dispute : Context → Dispute → Result Side
get_side_of_dispute ctx dispute =
    if ctx.predecessor == dispute.receiver_id
    then ok Side.claimant
    else (if ctx.predecessor == dispute.project_owner_delegate
        then ok Side.project_owner
        else panic "You do not have access rights to perform this action")

pub data VersionedDispute : Type 0 where
  v1 : DisputeV1 → VersionedDispute
  current : Dispute → VersionedDispute

abbrev pub upgrade_v1_to_v2 : DisputeV1 → Dispute
upgrade_v1_to_v2 dispute = record {
  start_time = dispute.start_time;
  description = dispute.description;
  bounty_id = dispute.bounty_id;
  receiver_id = dispute.receiver_id;
  claim_number = none;
  project_owner_delegate = dispute.project_owner_delegate;
  status = dispute.status;
  proposal_id = dispute.proposal_id;
  proposal_timestamp = dispute.proposal_timestamp;
}

-- `Dispute::from(VersionedDispute)`.
abbrev pub dispute_from : VersionedDispute → Dispute
dispute_from (VersionedDispute.current dispute) = dispute
dispute_from (VersionedDispute.v1 dispute) = upgrade_v1_to_v2 dispute

pub record Config : Type 0 where
  pub argument_period : ℕ
  pub decision_period : ℕ
  pub add_proposal_bond : ℕ

-- Ten days, seven days and one NEAR.
abbrev pub default_config : Config
default_config = record {
  argument_period = 1_000_000_000 * 60 * 60 * 24 * 10;
  decision_period = 1_000_000_000 * 60 * 60 * 24 * 7;
  add_proposal_bond = 10 ^ 24;
}

pub data VersionedConfig : Type 0 where
  current : Config → VersionedConfig

abbrev pub to_config : VersionedConfig → Config
to_config (VersionedConfig.current config) = config

abbrev pub dispute_status_eq : DisputeStatus → DisputeStatus → Bool
dispute_status_eq DisputeStatus.new DisputeStatus.new = true
dispute_status_eq DisputeStatus.decision_pending DisputeStatus.decision_pending = true
dispute_status_eq DisputeStatus.in_favor_of_claimant DisputeStatus.in_favor_of_claimant = true
dispute_status_eq DisputeStatus.in_favor_of_project_owner DisputeStatus.in_favor_of_project_owner =
    true
dispute_status_eq DisputeStatus.canceled_by_claimant DisputeStatus.canceled_by_claimant = true
dispute_status_eq DisputeStatus.canceled_by_project_owner DisputeStatus.canceled_by_project_owner =
    true
dispute_status_eq _ _ = false
