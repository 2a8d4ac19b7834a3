-- ===== src/Bounties/Answers.antt =====
-- What the contract does with the answers of the DAO, the disputes contract, the KYC whitelist and a
-- token: the callbacks of bounties/src/callbacks.rs that are not about transfers. An answer is `none`
-- where the promise failed or its result could not be read.
use heroes_contracts.Prelude.{
  ℕ, String, string_eq, Bool, true, false, ◌||◌, ◌==◌, if◌then◌else◌, Option, none, some, [], ◌∷◌,
  Result, ok, panic, assert, unwrap, ◌>>=◌, ◌>>◌, insert,
}
use heroes_contracts.Near.{AccountId, Context}
use heroes_contracts.Bounties.Types.{BountyStatus, ClaimStatus, Claimant, bounty_status_eq}
use heroes_contracts.Bounties.Bounty.{Bounty, is_different_tasks}
use heroes_contracts.Bounties.Claim.{BountyClaim}
use heroes_contracts.Bounties.FeeStats
use heroes_contracts.Bounties.Contract.{
  Contract, TokenDetails, PlaceOfCheckKyc, creating_claim, decision_on_claim, claim_done,
  get_bounty, save_claim,
}
use heroes_contracts.Bounties.Lookup.{internal_get_and_check_bounty_and_claim}
use heroes_contracts.Bounties.Closure.{
  internal_reject_claim, internal_reset_bounty_to_initial_state,
  internal_claim_return_after_dispute,
}
use heroes_contracts.Bounties.Payout.{internal_bounty_payout}
use heroes_contracts.Bounties.Claiming.{internal_create_claim}
use heroes_contracts.Bounties.Decision.{
  internal_add_proposal_and_create_claim, internal_approval_and_save_claim,
  internal_rejection_and_save_claim, internal_add_proposal_and_update_claim, internal_claim_done,
}

-- What is read of the DAO's answer to `get_proposal`.
pub record Proposal : Type 0 where
  pub id : ℕ
  pub proposer : AccountId
  pub status : String

-- What is read of the disputes contract's answer to `get_dispute`.
pub record Dispute : Type 0 where
  pub status : String

unfoldable pub on_added_proposal :
    Contract → Option ℕ → ℕ → AccountId → Option ℕ → Result (Bool × Contract)
on_added_proposal c none id receiver_id claim_number = ok (false, c)
on_added_proposal c (some proposal_id) id receiver_id claim_number = do
  done ← internal_claim_done c id receiver_id claim_number (some proposal_id)
  ok (true, done)

unfoldable pub after_add_proposal_callback :
    Context
    → Contract
    → Option ℕ
    → ℕ
    → AccountId
    → Option ℕ
    → String
    → Option ℕ
    → Result (Bool × Contract)
after_add_proposal_callback ctx c none id receiver_id deadline description slot = ok (false, c)
after_add_proposal_callback ctx c (some proposal_id) id receiver_id deadline description slot = do
  created ←
      internal_create_claim ctx c id receiver_id none deadline description (some proposal_id) slot
        none
  ok (true, created)

abbrev pub assert_proposal : Context → Proposal → ℕ → Result (Unit {0})
assert_proposal ctx proposal proposal_id = do
  assert (proposal.id == proposal_id) "assertion failed: `(left == right)`"
  assert (proposal.proposer == ctx.current_account) "assertion failed: `(left == right)`"

-- The claim that the answer is about, with its bounty.
abbrev pub answered_claim :
    Contract
    → ℕ
    → AccountId
    → Option ℕ
    → ClaimStatus
    → String
    → String
    → Result (Bounty × ℕ × BountyClaim)
answered_claim c id receiver_id claim_number status bounty_message claim_message = do
  checked ←
      internal_get_and_check_bounty_and_claim c id receiver_id claim_number
        (BountyStatus.claimed ∷ BountyStatus.many_claimed ∷ []) (status ∷ []) false bounty_message
        claim_message
  found ← unwrap checked.1
  ok (checked.0, found.0, found.1)

-- The decision of the DAO on the payout of all subtasks, or of one claim.
abbrev pub pay_as_decided : Context → Contract → ℕ → Option Claimant → String → Result Contract
pay_as_decided ctx c id none status = do
  bounty ← get_bounty c id
  assert (bounty_status_eq bounty.status BountyStatus.many_claimed)
      "Bounty status does not allow completion"
  if string_eq status "Approved"
      then internal_bounty_payout ctx c id none none
      else panic "The proposal status is not being processed"
pay_as_decided ctx c id (some (receiver_id, claim_number)) status = do
  found ←
      answered_claim c id receiver_id claim_number ClaimStatus.completed
        "Bounty status does not allow completion"
        "The claim status does not allow you to complete the bounty"
  if string_eq status "Approved"
      then internal_bounty_payout ctx c id (some (receiver_id, claim_number)) none
      else (if string_eq status "Rejected"
          then internal_reject_claim ctx c id receiver_id found.0 found.1 found.2
          else panic "The proposal status is not being processed")

unfoldable pub after_check_bounty_payout_proposal_callback :
    Context → Contract → Option Proposal → ℕ → Option Claimant → ℕ → Result Contract
after_check_bounty_payout_proposal_callback ctx c none id claimant proposal_id =
    panic "Error checking proposal status"
after_check_bounty_payout_proposal_callback ctx c (some proposal) id claimant proposal_id = do
  assert_proposal ctx proposal proposal_id
  pay_as_decided ctx c id claimant proposal.status

unfoldable pub after_check_approve_claimant_proposal_callback :
    Context → Contract → Option Proposal → ℕ → AccountId → Option ℕ → ℕ → Result Contract
after_check_approve_claimant_proposal_callback ctx c none id receiver_id claim_number proposal_id =
    panic "Error checking proposal status"
after_check_approve_claimant_proposal_callback ctx c (some proposal) id receiver_id claim_number
      proposal_id =
    do
      assert_proposal ctx proposal proposal_id
      if string_eq proposal.status "Approved"
          then internal_approval_and_save_claim ctx c id (some (receiver_id, claim_number)) none
              none
          else (if string_eq proposal.status "Rejected"
              then internal_rejection_and_save_claim ctx c (some (id, receiver_id, claim_number))
                  none
              else panic "The proposal status is not being processed")

unfoldable pub after_create_dispute_callback :
    Contract → Option ℕ → ℕ → AccountId → Option ℕ → Result (Bool × Contract)
after_create_dispute_callback c none id receiver_id claim_number = ok (false, c)
after_create_dispute_callback c (some dispute_id) id receiver_id claim_number = do
  found ←
      answered_claim c id receiver_id claim_number ClaimStatus.rejected
        "Bounty status does not allow opening a dispute"
        "The claim status does not allow opening a dispute"
  ok (
    true,
    save_claim c found.1
        (record found.2 { status = ClaimStatus.disputed; dispute_id = some dispute_id }),
  )

unfoldable pub after_get_dispute_callback :
    Context → Contract → Option Dispute → ℕ → AccountId → Option ℕ → Result Contract
after_get_dispute_callback ctx c none id receiver_id claim_number =
    panic "Error checking dispute status"
after_get_dispute_callback ctx c (some dispute) id receiver_id claim_number = do
  found ←
      answered_claim c id receiver_id claim_number ClaimStatus.disputed
        "Bounty status does not allow to reject a claim as a result of a dispute"
        "Claim status does not allow rejection as a result of a dispute"
  if string_eq dispute.status "InFavorOfClaimant"
        || string_eq dispute.status "CanceledByProjectOwner"
      then (if is_different_tasks found.0
          then ok (internal_claim_return_after_dispute c found.1 found.2)
          else internal_bounty_payout ctx c id (some (receiver_id, claim_number)) none)
      else (if string_eq dispute.status "InFavorOfProjectOwner"
            || string_eq dispute.status "CanceledByClaimant"
          then internal_reset_bounty_to_initial_state ctx c id receiver_id found.0 found.1 found.2
              none true
          else panic "The dispute status is not being processed")

-- Whether the token's metadata could be read.
unfoldable pub after_get_ft_metadata_callback :
    Contract → Bool → AccountId → Option ℕ → Bool × Contract
after_get_ft_metadata_callback c false token_id min_amount_for_kyc = (false, c)
after_get_ft_metadata_callback c true token_id min_amount_for_kyc =
    let details : TokenDetails = record {
      enabled = true;
      min_amount_for_kyc = min_amount_for_kyc;
    } in
    (
      true,
      record c {
        total_fees = insert c.total_fees token_id FeeStats.new;
        tokens = insert c.tokens token_id details;
      },
    )

-- What was waiting for the KYC check goes on.
abbrev pub go_on :
    Context → Contract → ℕ → AccountId → Option ℕ → PlaceOfCheckKyc → Option ℕ → Result Contract
go_on ctx c id receiver_id claim_number (creating_claim deadline description) slot =
    internal_add_proposal_and_create_claim ctx c id receiver_id claim_number
      (creating_claim deadline description) slot none
go_on ctx c id receiver_id claim_number (decision_on_claim is_kyc_delayed) slot =
    internal_approval_and_save_claim ctx c id (some (receiver_id, claim_number)) none is_kyc_delayed
go_on ctx c id receiver_id claim_number (claim_done description) slot =
    internal_add_proposal_and_update_claim c id receiver_id claim_number (claim_done description)

unfoldable pub after_check_if_whitelisted_callback :
    Context
    → Contract
    → Option Bool
    → ℕ
    → AccountId
    → Option ℕ
    → PlaceOfCheckKyc
    → Option ℕ
    → Result Contract
after_check_if_whitelisted_callback ctx c none id receiver_id claim_number place slot =
    panic "Error determining the claimant's KYC status"
after_check_if_whitelisted_callback ctx c (some is_whitelisted) id receiver_id claim_number place
      slot =
    do
      assert is_whitelisted "The claimant is not whitelisted"
      go_on ctx c id receiver_id claim_number place slot
