-- ===== src/Bounties/Finalize.antt =====
-- Finalizing a bounty: `bounty_finalize` of bounties/src/lib.rs and what it calls in
-- bounties/src/internal.rs.
use heroes_contracts.Prelude.{
  ℕ, Bool, true, false, ◌&&◌, ◌||◌, bool_eq, if◌then◌else◌, Option, none, some, is_some, is_none,
  [], ◌∷◌, Result, ok, panic, assert, unwrap, unreachable, ◌>>=◌, ◌>>◌,
}
use heroes_contracts.Near.{AccountId, Context}
use heroes_contracts.Bounties.Types.{
  BountyStatus, ClaimStatus, Claimant, bounty_status_eq, claim_status_eq,
}
use heroes_contracts.Bounties.Multitasking.{
  Multitasking, contest_or_hackathon, one_for_all, different_tasks,
}
use heroes_contracts.Bounties.Bounty.{
  Bounty, is_validators_dao_used, is_different_tasks, is_contest_or_hackathon,
  is_one_bounty_for_many_claimants,
}
use heroes_contracts.Bounties.Claim.{BountyClaim, is_claim_expired}
use heroes_contracts.Bounties.Contract.{
  Contract, Callback, after_check_bounty_payout_proposal, after_check_approve_claimant_proposal,
  after_get_dispute, get_proposal, get_dispute, schedule, get_bounty, assert_live,
  internal_update_bounty,
}
use heroes_contracts.Bounties.Runtime.{
  internal_participants_decrement, internal_occupied_slots_decrement, internal_reset_slot,
  internal_get_bounty_payout_proposal_id,
}
use heroes_contracts.Bounties.Lookup.{
  has_bounty_status, has_claim_status, internal_get_claim, internal_find_active_claim,
}
use heroes_contracts.Bounties.Closure.{
  internal_claim_closure, internal_reset_bounty_to_initial_state, internal_set_claim_expiry_status,
  is_deadline_for_opening_dispute_expired,
}
use heroes_contracts.Bounties.Completion.{internal_are_all_slots_complete}
use heroes_contracts.Bounties.Decision.{the_dao}

-- `a && b`, where computing `b` may panic.
abbrev pub and_then : Bool → Result Bool → Result Bool
and_then false b = ok false
and_then true b = b

-- `internal_check_proposal` at the bounty's DAO.
abbrev pub check_proposal : Contract → Bounty → ℕ → Callback → Result Contract
check_proposal c bounty proposal_id callback = do
  dao ← the_dao bounty.reviewers
  ok (schedule c (get_proposal dao.account_id proposal_id callback))

abbrev pub internal_check_bounty_payout_proposal :
    Contract → ℕ → Bounty → Option Claimant → ℕ → Result Contract
internal_check_bounty_payout_proposal c id bounty claimant proposal_id =
    check_proposal c bounty proposal_id (after_check_bounty_payout_proposal id claimant proposal_id)

abbrev pub internal_check_approve_claimant_proposal :
    Contract → ℕ → Bounty → AccountId → Option ℕ → ℕ → Result Contract
internal_check_approve_claimant_proposal c id bounty receiver_id claim_number proposal_id =
    check_proposal c bounty proposal_id
      (after_check_approve_claimant_proposal id receiver_id claim_number proposal_id)

abbrev pub internal_get_dispute : Contract → ℕ → AccountId → Option ℕ → ℕ → Result Contract
internal_get_dispute c id receiver_id claim_number dispute_id = do
  dispute_contract ← unwrap c.dispute_contract
  ok (
      schedule c
        (get_dispute dispute_contract dispute_id (after_get_dispute id receiver_id claim_number)))

abbrev pub is_claimed : Bounty → Bool
is_claimed bounty =
    bounty_status_eq bounty.status BountyStatus.claimed
    || bounty_status_eq bounty.status BountyStatus.many_claimed

-- All subtasks are complete, and a proposal to pay them has been made.
abbrev pub has_payout_proposal : Contract → ℕ → Bounty → Result Bool
has_payout_proposal c id bounty = do
  complete ← internal_are_all_slots_complete c id bounty none
  and_then complete
      (do proposal ← internal_get_bounty_payout_proposal_id bounty; ok (is_some proposal))

abbrev pub works_late : Context → Bounty → BountyClaim → Result Bool
works_late ctx bounty claim =
    and_then
      (has_claim_status (ClaimStatus.in_progress ∷ ClaimStatus.competes ∷ []) claim.status
        && (is_claimed bounty
            || (bounty_status_eq bounty.status BountyStatus.completed
                && is_contest_or_hackathon bounty)))
      (is_claim_expired ctx claim bounty)

abbrev pub awaits_payout : Contract → ℕ → Bounty → BountyClaim → Result Bool
awaits_payout c id bounty claim = do
  completed ←
      if is_different_tasks bounty
      then has_payout_proposal c id bounty
      else ok (claim_status_eq claim.status ClaimStatus.completed)
  ok (completed && is_claimed bounty && is_validators_dao_used bounty)

abbrev pub payout_proposal_of : Bounty → BountyClaim → Result ℕ
payout_proposal_of bounty claim =
    if is_different_tasks bounty
    then (do proposal ← internal_get_bounty_payout_proposal_id bounty; unwrap proposal)
    else unwrap claim.bounty_payout_proposal_id

abbrev pub is_rejection_final : Context → Contract → Bounty → BountyClaim → Result Bool
is_rejection_final ctx c bounty claim =
    and_then (claim_status_eq claim.status ClaimStatus.rejected && is_claimed bounty)
      (is_deadline_for_opening_dispute_expired ctx c claim)

abbrev pub as_finalized : Result Contract → Result (Option Contract)
as_finalized r = do c ← r; ok (some c)

-- Finalizing a bounty with subtasks as a whole; `none` where there is nothing to finalize.
abbrev pub finalize_subtasks : Contract → ℕ → Bounty → Result (Option Contract)
finalize_subtasks c id bounty = do
  proposed ←
      and_then
        (bounty_status_eq bounty.status BountyStatus.many_claimed && is_different_tasks bounty)
        (has_payout_proposal c id bounty)
  if proposed && is_validators_dao_used bounty
      then (do
        proposal ← internal_get_bounty_payout_proposal_id bounty
        proposal_id ← unwrap proposal
        as_finalized (internal_check_bounty_payout_proposal c id bounty none proposal_id))
      else ok none

-- The claimant whose payout was proposed; for subtasks, all of them.
abbrev pub payee : Bounty → BountyClaim → Option Claimant
payee bounty claim =
    if is_different_tasks bounty then none else some (claim.owner, claim.claim_number)

abbrev pub finalize_claim :
    Context → Contract → ℕ → Bounty → ℕ → BountyClaim → Result (Option Contract)
finalize_claim ctx c id bounty claim_id claim = do
  late ← works_late ctx bounty claim
  if late
      then as_finalized
          (internal_set_claim_expiry_status ctx c id claim.owner bounty claim_id claim)
      else (do
        payable ← awaits_payout c id bounty claim
        if payable
            then (do
              proposal_id ← payout_proposal_of bounty claim
              as_finalized (
                  internal_check_bounty_payout_proposal c id bounty (payee bounty claim)
                    proposal_id))
            else (do
              final ← is_rejection_final ctx c bounty claim
              if final
                  then as_finalized (
                      internal_reset_bounty_to_initial_state ctx c id claim.owner bounty claim_id
                        claim none true)
                  else (if claim_status_eq claim.status ClaimStatus.disputed && is_claimed bounty
                      then (do
                        dispute_id ← unwrap claim.dispute_id
                        as_finalized
                            (internal_get_dispute c id claim.owner claim.claim_number dispute_id))
                      else ok none)))

unfoldable pub internal_finalize_active_claim :
    Context → Contract → ℕ → Bounty → Option (ℕ × BountyClaim) → Result (Option Contract)
internal_finalize_active_claim ctx c id bounty none = finalize_subtasks c id bounty
internal_finalize_active_claim ctx c id bounty (some (claim_id, claim)) =
    finalize_claim ctx c id bounty claim_id claim

-- The claimant leaves the bounty that has ended.
abbrev pub left : Bounty → BountyClaim → Option Multitasking → Result Bounty
left bounty claim none = unwrap none
left bounty claim (some (contest_or_hackathon _ _ _ _ _)) = internal_participants_decrement bounty
left bounty claim (some (one_for_all _ _ _ _)) = internal_occupied_slots_decrement bounty
left bounty claim (some (different_tasks _ _)) = do
  slot ← unwrap claim.slot
  internal_reset_slot bounty slot
left bounty claim (some _) = unreachable

-- Claims that a bounty's end has left open: of competitors, and of those who wait for a start.
abbrev pub is_left_open : Bounty → BountyClaim → Bool
is_left_open bounty claim =
    (has_bounty_status (BountyStatus.completed ∷ BountyStatus.canceled ∷ []) bounty.status
      && has_claim_status (ClaimStatus.competes ∷ ClaimStatus.completed ∷ []) claim.status
      && is_contest_or_hackathon bounty)
    || (bounty_status_eq bounty.status BountyStatus.canceled
        && claim_status_eq claim.status ClaimStatus.ready_to_start
        && (is_one_bounty_for_many_claimants bounty || is_different_tasks bounty))

abbrev pub close_left_open : Contract → ℕ → AccountId → Bounty → ℕ → BountyClaim → Result Contract
close_left_open c id receiver_id bounty claim_id claim = do
  b ← left bounty claim bounty.multitasking
  internal_claim_closure (internal_update_bounty c id b) receiver_id b.owner b.status claim_id claim
      (if bounty_status_eq b.status BountyStatus.canceled then some ClaimStatus.canceled else none)
      true

abbrev pub is_undecided_claim : Bounty → BountyClaim → Bool
is_undecided_claim bounty claim =
    claim_status_eq claim.status ClaimStatus.new
    && bounty_status_eq bounty.status BountyStatus.new
    && is_validators_dao_used bounty

abbrev pub is_unanswered : Bounty → BountyClaim → Bool
is_unanswered bounty claim =
    claim_status_eq claim.status ClaimStatus.new
    && has_bounty_status
        (BountyStatus.completed ∷ BountyStatus.canceled ∷ BountyStatus.partially_completed ∷ [])
        bounty.status

abbrev pub finalize_other :
    Contract → ℕ → AccountId → Option ℕ → Bounty → ℕ → BountyClaim → Result Contract
finalize_other c id receiver_id claim_number bounty claim_id claim =
    if is_undecided_claim bounty claim
    then (do
      proposal_id ← unwrap claim.approve_claimant_proposal_id
      internal_check_approve_claimant_proposal c id bounty receiver_id claim_number proposal_id)
    else (if is_unanswered bounty claim
        then internal_claim_closure c receiver_id bounty.owner bounty.status claim_id claim
            (some ClaimStatus.canceled) true
        else (if is_left_open bounty claim
            then close_left_open c id receiver_id bounty claim_id claim
            else panic "This bounty claim is not subject to finalization"))

abbrev pub or_else : Option Contract → Result Contract → Result Contract
or_else (some c) r = ok c
or_else none r = r

unfoldable pub internal_finalize_some_claim :
    Context → Contract → ℕ → AccountId → Option ℕ → Bounty → Result Contract
internal_finalize_some_claim ctx c id receiver_id claim_number bounty = do
  found ← internal_get_claim c id receiver_id claim_number
  finalized ←
      if is_some bounty.multitasking
      then internal_finalize_active_claim ctx c id bounty (some found)
      else ok none
  or_else finalized (finalize_other c id receiver_id claim_number bounty found.0 found.1)

abbrev pub finalize_bounty : Context → Contract → ℕ → Bounty → Result (Option Contract)
finalize_bounty ctx c id bounty =
    if is_none bounty.multitasking
    then (do
      active ← internal_find_active_claim c id
      internal_finalize_active_claim ctx c id bounty (some active))
    else (if is_different_tasks bounty
        then internal_finalize_active_claim ctx c id bounty none
        else ok none)

unfoldable pub bounty_finalize : Context → Contract → ℕ → Option Claimant → Result Contract
bounty_finalize ctx c id none = do
  assert_live c
  bounty ← get_bounty c id
  assert (is_claimed bounty) "Bounty status does not allow approval of the execution result"
  finalized ← finalize_bounty ctx c id bounty
  or_else finalized (panic "This bounty is not subject to finalization")
bounty_finalize ctx c id (some (receiver_id, claim_number)) = do
  assert_live c
  bounty ← get_bounty c id
  assert (bool_eq (is_some claim_number) bounty.allow_creating_many_claims)
      "Invalid claim_number value"
  internal_finalize_some_claim ctx c id receiver_id claim_number bounty
