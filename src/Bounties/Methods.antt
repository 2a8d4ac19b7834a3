-- ===== src/Bounties/Methods.antt =====
-- The public methods of the bounty contract for claimants, owners and reviewers,
-- bounties/src/lib.rs. A method returns the new state, or panics.
use heroes_contracts.Prelude.{
  ℕ, String, Bool, not, ◌&&◌, ◌||◌, ◌==◌, leb, bool_eq, is_empty, if◌then◌else◌, Option, none, some,
  is_some, [], ◌∷◌, Result, ok, assert, unwrap, sub, ◌>>=◌, ◌>>◌, true,
}
use heroes_contracts.Near.{AccountId, Context, assert_one_yocto}
use heroes_contracts.Bounties.Types.{
  BountyStatus, ClaimStatus, DefermentOfKyc, bounty_status_eq, claim_status_eq,
}
use heroes_contracts.Bounties.Bounty.{
  Bounty, is_claim_deadline_correct, assert_account_is_not_owner_or_reviewer,
  not_allowed_to_create_claim, check_access_rights, is_simple, is_contest_or_hackathon,
  is_one_bounty_for_many_claimants,
}
use heroes_contracts.Bounties.Claim.{BountyClaim, get_start_time, is_claim_expired}
use heroes_contracts.Bounties.Contract.{
  Contract, creating_claim, decision_on_claim, claim_done, assert_live, get_bounty,
  internal_update_bounty,
}
use heroes_contracts.Bounties.Runtime.{
  internal_participants_decrement, internal_occupied_slots_decrement, internal_reset_slot,
}
use heroes_contracts.Bounties.Lookup.{internal_get_claim, has_claim_status, has_bounty_status}
use heroes_contracts.Bounties.Closure.{
  internal_claim_closure, internal_reset_bounty_to_initial_state, internal_set_claim_expiry_status,
}
use heroes_contracts.Bounties.Claiming.{
  check_if_allowed_to_create_claim_by_status, check_if_allowed_to_approve_claim_by_status,
  is_kyc_check_required, check_if_claimant_in_kyc_whitelist,
}
use heroes_contracts.Bounties.Decision.{
  internal_add_proposal_and_create_claim, internal_approval_and_save_claim,
  internal_rejection_and_save_claim, internal_add_proposal_and_update_claim,
}

unfoldable pub bounty_claim :
    Context → Contract → ℕ → Option ℕ → String → Option ℕ → Result Contract
bounty_claim ctx c id deadline description slot = do
  assert_live c
  assert (ctx.attached_deposit == c.config.bounty_claim_bond) "Bounty wrong bond"
  assert (not (is_empty description)) "The description cannot be empty"
  let sender_id = ctx.predecessor
  checked ← check_if_allowed_to_create_claim_by_status ctx c id sender_id slot
  let bounty = checked.0
  correct ← is_claim_deadline_correct ctx bounty deadline
  assert correct "Bounty wrong deadline"
  assert_account_is_not_owner_or_reviewer bounty sender_id
  excluded ← not_allowed_to_create_claim bounty.claimant_approval sender_id
  assert (not excluded) "The sender is not whitelisted"
  let place = creating_claim deadline description
  kyc ← is_kyc_check_required c bounty none none place
  if kyc
      then check_if_claimant_in_kyc_whitelist c id sender_id checked.2 place slot
      else internal_add_proposal_and_create_claim ctx c id sender_id checked.2 place slot
          (some (bounty, checked.1))

simple_flow_unsupported : String
simple_flow_unsupported = "This operation is not supported for simple bounty flow"

unfoldable pub accept_claimant :
    Context → Contract → ℕ → AccountId → Option ℕ → Option DefermentOfKyc → Result Contract
unfolding simple_flow_unsupported
accept_claimant ctx c id receiver_id claim_number kyc_postponed = do
  assert_live c
  assert_one_yocto ctx
  found ← check_if_allowed_to_approve_claim_by_status ctx c id receiver_id claim_number
  let bounty = found.0
  check_access_rights ctx bounty
  assert (not (is_simple bounty.bounty_flow)) simple_flow_unsupported
  correct ← is_claim_deadline_correct ctx bounty found.2.deadline
  assert correct "The claim deadline is no longer correct"
  let place = decision_on_claim kyc_postponed
  kyc ← is_kyc_check_required c bounty none none place
  if kyc
      then check_if_claimant_in_kyc_whitelist c id receiver_id claim_number place none
      else internal_approval_and_save_claim ctx c id none (some found) kyc_postponed

unfoldable pub decline_claimant : Context → Contract → ℕ → AccountId → Option ℕ → Result Contract
unfolding simple_flow_unsupported
decline_claimant ctx c id receiver_id claim_number = do
  assert_live c
  found ← check_if_allowed_to_approve_claim_by_status ctx c id receiver_id claim_number
  check_access_rights ctx found.0
  assert (not (is_simple found.0.bounty_flow)) simple_flow_unsupported
  internal_rejection_and_save_claim ctx c none (some found)

-- A competitor who finishes after the contest was decided.
abbrev pub late_competitor : Contract → ℕ → AccountId → Bounty → ℕ → BountyClaim → Result Contract
late_competitor c id sender_id bounty claim_id claim = do
  b ← internal_participants_decrement bounty
  internal_claim_closure (internal_update_bounty c id b) sender_id b.owner b.status claim_id claim
      none true

abbrev pub report_done :
    Contract → ℕ → AccountId → Option ℕ → Bounty → BountyClaim → String → Result Contract
report_done c id sender_id claim_number bounty claim description = do
  let place = claim_done description
  kyc ← is_kyc_check_required c bounty (some claim) (some sender_id) place
  if kyc
      then check_if_claimant_in_kyc_whitelist c id sender_id claim_number place none
      else internal_add_proposal_and_update_claim c id sender_id claim_number place

unfoldable pub bounty_done : Context → Contract → ℕ → String → Option ℕ → Result Contract
unfolding simple_flow_unsupported
bounty_done ctx c id description claim_number = do
  assert_live c
  bounty ← get_bounty c id
  assert (not (is_simple bounty.bounty_flow)) simple_flow_unsupported
  assert
      (has_bounty_status (BountyStatus.claimed ∷ BountyStatus.many_claimed ∷ []) bounty.status
        || (bounty_status_eq bounty.status BountyStatus.completed
            && is_contest_or_hackathon bounty))
      "Bounty status does not allow to completion"
  assert (bool_eq (is_some claim_number) bounty.allow_creating_many_claims)
      "Invalid claim_number value"
  let sender_id = ctx.predecessor
  found ← internal_get_claim c id sender_id claim_number
  let claim = found.1
  assert (has_claim_status (ClaimStatus.in_progress ∷ ClaimStatus.competes ∷ []) claim.status)
      "The claim status does not allow to complete the bounty"
  expired ← is_claim_expired ctx claim bounty
  if expired
      then internal_set_claim_expiry_status ctx c id sender_id bounty found.0 claim
      else (if bounty_status_eq bounty.status BountyStatus.completed
            && claim_status_eq claim.status ClaimStatus.competes
          then late_competitor c id sender_id bounty found.0 claim
          else report_done c id sender_id claim_number bounty claim description)

abbrev pub may_give_up : Bounty → BountyClaim → Bool
may_give_up bounty claim =
    has_claim_status
      (ClaimStatus.new ∷ ClaimStatus.in_progress ∷ ClaimStatus.competes ∷ ClaimStatus.ready_to_start
        ∷ [])
      claim.status
    || (claim_status_eq claim.status ClaimStatus.completed
        && is_contest_or_hackathon bounty
        && has_bounty_status (BountyStatus.new ∷ BountyStatus.canceled ∷ []) bounty.status)

-- The work on the claim is under way.
abbrev pub is_working : Bounty → BountyClaim → Bool
is_working bounty claim =
    claim_status_eq claim.status ClaimStatus.in_progress
    || (claim_status_eq claim.status ClaimStatus.competes
        && bounty_status_eq bounty.status BountyStatus.many_claimed)

-- The bounty without the place that a claim held before its work began.
abbrev pub leave : Bounty → BountyClaim → Result Bounty
leave bounty claim =
    if has_claim_status (ClaimStatus.competes ∷ ClaimStatus.completed ∷ []) claim.status
    then internal_participants_decrement bounty
    else (if claim_status_eq claim.status ClaimStatus.ready_to_start
        then (if is_one_bounty_for_many_claimants bounty
            then internal_occupied_slots_decrement bounty
            else (do slot ← unwrap claim.slot; internal_reset_slot bounty slot))
        else ok bounty)

-- The bond comes back within the forgiveness period.
unfoldable pub is_forgiven : Context → Contract → Bounty → BountyClaim → Result Bool
is_forgiven ctx c bounty claim = do
  start ← get_start_time claim bounty
  elapsed ← sub ctx.block_timestamp start
  ok (leb elapsed c.config.bounty_forgiveness_period)

unfoldable pub bounty_give_up : Context → Contract → ℕ → Option ℕ → Result Contract
bounty_give_up ctx c id claim_number = do
  assert_live c
  bounty ← get_bounty c id
  let sender_id = ctx.predecessor
  assert (bool_eq (is_some claim_number) bounty.allow_creating_many_claims)
      "Invalid claim_number value"
  found ← internal_get_claim c id sender_id claim_number
  let claim = found.1
  assert (may_give_up bounty claim) "The claim status does not allow to give up the bounty"
  if is_working bounty claim
      then (do
        return_bond ← is_forgiven ctx c bounty claim
        internal_reset_bounty_to_initial_state ctx c id sender_id bounty found.0 claim
            (some ClaimStatus.canceled) return_bond)
      else (do
        b ← leave bounty claim
        internal_claim_closure (internal_update_bounty c id b) sender_id b.owner b.status found.0
            claim (some ClaimStatus.canceled) true)
