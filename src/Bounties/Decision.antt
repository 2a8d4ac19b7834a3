-- ===== src/Bounties/Decision.antt =====
-- Proposals to the validators' DAO, the decision on a claim and its completion,
-- bounties/src/internal.rs. The text of a proposal is left out.
use heroes_contracts.Prelude.{
  ℕ, String, Bool, false, not, ◌&&◌, if◌then◌else◌, Option, none, some, is_some, is_none, [], ◌∷◌,
  Result, ok, expect, unwrap, unreachable, ◌>>=◌,
}
use heroes_contracts.Near.{AccountId, Context}
use heroes_contracts.Bounties.Types.{
  BountyStatus, ClaimStatus, DefermentOfKyc, Claimant, Reviewers, ValidatorsDao,
}
use heroes_contracts.Bounties.Bounty.{
  Bounty, is_validators_dao_used, is_different_tasks, is_contest_or_hackathon,
}
use heroes_contracts.Bounties.Claim.{BountyClaim}
use heroes_contracts.Bounties.Contract.{
  Contract, Callback, PlaceOfCheckKyc, creating_claim, claim_done, add_proposal, after_add_proposal,
  on_added_proposal_callback, schedule, get_bounty, save_claim, internal_update_bounty,
  internal_return_bonds,
}
use heroes_contracts.Bounties.Runtime.{
  internal_complete_slot, internal_set_bounty_payout_proposal_id,
  internal_get_bounty_payout_proposal_id,
}
use heroes_contracts.Bounties.Lookup.{internal_get_and_check_bounty_and_claim}
use heroes_contracts.Bounties.Approval.{is_approval_required, internal_claimant_approval}
use heroes_contracts.Bounties.Claiming.{
  check_if_allowed_to_approve_claim_by_status, internal_create_claim,
}
use heroes_contracts.Bounties.Completion.{internal_are_all_slots_complete}

abbrev pub the_dao : Option Reviewers → Result ValidatorsDao
the_dao (some (Reviewers.validators_dao dao)) = ok dao
the_dao none = unwrap none
the_dao (some _) = unreachable

-- `internal_add_proposal` to the bounty's DAO, with the callback that ends it.
abbrev pub propose : Contract → Bounty → Callback → Result Contract
propose c bounty callback = do
  dao ← the_dao bounty.reviewers
  ok (schedule c (add_proposal dao.account_id dao.add_proposal_bond callback))

-- `internal_add_proposal_and_create_claim` at the deadline and the description.
abbrev pub propose_or_create :
    Context
    → Contract
    → ℕ
    → AccountId
    → Option ℕ
    → Option ℕ
    → String
    → Option ℕ
    → Option (Bounty × Option (ℕ × BountyClaim))
    → Result Contract
propose_or_create ctx c id receiver_id claim_number deadline description slot bounty_and_claim = do
  bounty ← get_bounty c id
  required ←
      if is_validators_dao_used bounty then is_approval_required bounty receiver_id else ok false
  if required
      then propose c bounty (after_add_proposal id receiver_id deadline description slot)
      else internal_create_claim ctx c id receiver_id claim_number deadline description none slot
          bounty_and_claim

unfoldable pub internal_add_proposal_and_create_claim :
    Context
    → Contract
    → ℕ
    → AccountId
    → Option ℕ
    → PlaceOfCheckKyc
    → Option ℕ
    → Option (Bounty × Option (ℕ × BountyClaim))
    → Result Contract
internal_add_proposal_and_create_claim ctx c id receiver_id claim_number
      (creating_claim deadline description) slot bounty_and_claim =
    propose_or_create ctx c id receiver_id claim_number deadline description slot bounty_and_claim
internal_add_proposal_and_create_claim ctx c id receiver_id claim_number _ slot bounty_and_claim =
    unreachable

-- The claim that is decided on: looked up anew for a claimant, given otherwise.
abbrev pub decided :
    Context
    → Contract
    → Option (ℕ × AccountId × Option ℕ)
    → Option (Bounty × ℕ × BountyClaim)
    → String
    → Result (Bounty × ℕ × BountyClaim)
decided ctx c (some (id, receiver_id, claim_number)) given message =
    check_if_allowed_to_approve_claim_by_status ctx c id receiver_id claim_number
decided ctx c none given message = expect given message

abbrev pub at_bounty : ℕ → Option Claimant → Option (ℕ × AccountId × Option ℕ)
at_bounty id none = none
at_bounty id (some (account, number)) = some (id, account, number)

unfoldable pub internal_approval_and_save_claim :
    Context
    → Contract
    → ℕ
    → Option Claimant
    → Option (Bounty × ℕ × BountyClaim)
    → Option DefermentOfKyc
    → Result Contract
internal_approval_and_save_claim ctx c id claimant given is_kyc_delayed = do
  found ← decided ctx c (at_bounty id claimant) given "Incorrect approval parameters"
  approved ← internal_claimant_approval ctx c id found.0 found.2 is_kyc_delayed
  ok (save_claim approved.0 found.1 approved.1)

unfoldable pub internal_rejection_and_save_claim :
    Context
    → Contract
    → Option (ℕ × AccountId × Option ℕ)
    → Option (Bounty × ℕ × BountyClaim)
    → Result Contract
internal_rejection_and_save_claim ctx c claimant given = do
  found ← decided ctx c claimant given "Incorrect rejection parameters"
  let claim = found.2
  internal_return_bonds (save_claim c found.1 (record claim { status = ClaimStatus.not_hired }))
      claim.owner claim.bond

abbrev pub record_proposal : Bounty → Option ℕ → Result Bounty
record_proposal bounty proposal_id =
    if is_some proposal_id
    then internal_set_bounty_payout_proposal_id bounty proposal_id
    else ok bounty

abbrev pub done_subtask : Contract → ℕ → Bounty → ℕ → BountyClaim → Option ℕ → Result Contract
done_subtask c id bounty claim_id claim proposal_id = do
  slot ← unwrap claim.slot
  b ← internal_complete_slot bounty slot
  proposed ← record_proposal b proposal_id
  ok (
      save_claim (internal_update_bounty c id proposed) claim_id
        (record claim { status = ClaimStatus.completed }))

unfoldable pub internal_claim_done :
    Contract → ℕ → AccountId → Option ℕ → Option ℕ → Result Contract
internal_claim_done c id receiver_id claim_number proposal_id = do
  checked ←
      internal_get_and_check_bounty_and_claim c id receiver_id claim_number
        (BountyStatus.claimed ∷ BountyStatus.many_claimed ∷ [])
        (ClaimStatus.in_progress ∷ ClaimStatus.competes ∷ []) false
        "Bounty status does not allow to completion"
        "The claim status does not allow to complete the bounty"
  found ← unwrap checked.1
  let claim = found.1
  if is_different_tasks checked.0
      then done_subtask c id checked.0 found.0 claim proposal_id
      else ok (
          save_claim c found.0 (record claim {
            status = ClaimStatus.completed;
            bounty_payout_proposal_id = proposal_id;
          }))

-- This claim completes the subtasks, and no proposal to pay them has been made.
abbrev pub is_last_subtask : Contract → ℕ → Bounty → Claimant → Result Bool
is_last_subtask c id bounty claimant =
    if is_validators_dao_used bounty && is_different_tasks bounty
    then (do
      complete ← internal_are_all_slots_complete c id bounty (some claimant)
      if complete
          then (do proposal ← internal_get_bounty_payout_proposal_id bounty; ok (is_none proposal))
          else ok false)
    else ok false

-- The text that comes with a finished claim.
abbrev pub done_description : PlaceOfCheckKyc → Result String
done_description (claim_done description) = ok description
done_description _ = unreachable

abbrev pub propose_done :
    Contract → ℕ → AccountId → Option ℕ → Bounty → PlaceOfCheckKyc → Result Contract
propose_done c id receiver_id claim_number bounty place = do
  dao ← the_dao bounty.reviewers
  description ← done_description place
  propose c bounty (on_added_proposal_callback id receiver_id claim_number)

unfoldable pub internal_add_proposal_and_update_claim :
    Contract → ℕ → AccountId → Option ℕ → PlaceOfCheckKyc → Result Contract
internal_add_proposal_and_update_claim c id receiver_id claim_number place = do
  bounty ← get_bounty c id
  if is_validators_dao_used bounty
        && not (is_different_tasks bounty)
        && not (is_contest_or_hackathon bounty)
      then propose_done c id receiver_id claim_number bounty place
      else (do
        last ← is_last_subtask c id bounty (receiver_id, claim_number)
        if last
            then propose_done c id receiver_id claim_number bounty place
            else internal_claim_done c id receiver_id claim_number none)
