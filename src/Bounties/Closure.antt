-- ===== src/Bounties/Closure.antt =====
-- How a claim ends without a payout, bounties/src/internal.rs: closing it, with or without its
-- bond, and taking the bounty back to a state in which it can be claimed.
use heroes_contracts.Prelude.{
  ℕ, Bool, true, false, not, ◌&&◌, ◌||◌, ◌==◌, ltb, if◌then◌else◌, Option, none, some, is_some, [],
  ◌∷◌, Result, ok, assert, unwrap, unreachable, add, u64_bound, ◌>>=◌, ◌>>◌,
}
use heroes_contracts.Near.{AccountId, Context}
use heroes_contracts.Bounties.Types.{
  BountyStatus, ClaimStatus, ReputationActionKind, bounty_status_eq, claim_status_eq,
}
use heroes_contracts.Bounties.Multitasking
use heroes_contracts.Bounties.Multitasking.{
  Multitasking, contest_or_hackathon, one_for_all, different_tasks,
}
use heroes_contracts.Bounties.Bounty.{Bounty, is_payment_outside_contract, is_contest_or_hackathon}
use heroes_contracts.Bounties.Claim.{BountyClaim}
use heroes_contracts.Bounties.Contract.{
  Contract, internal_update_bounty, internal_update_statistic, save_claim, internal_return_bonds,
  internal_unlock_non_refunded_bond,
}
use heroes_contracts.Bounties.Runtime.{
  set_competition_timestamp, internal_participants_decrement, internal_occupied_slots_decrement,
  internal_reset_slot,
}
use heroes_contracts.Bounties.Lookup.{internal_get_claim, has_bounty_status, has_claim_status}

-- The final status of a closed claim, with what the statistics are told.
abbrev pub closing_action : ClaimStatus → Bool → Result ReputationActionKind
closing_action ClaimStatus.not_completed with_dispute =
    ok (ReputationActionKind.unsuccessful_claim with_dispute)
closing_action ClaimStatus.expired with_dispute = ok ReputationActionKind.claim_expired
closing_action ClaimStatus.canceled with_dispute = ok ReputationActionKind.claim_cancelled
closing_action _ with_dispute = unreachable

abbrev pub closing_status : Option ClaimStatus → ClaimStatus
closing_status none = ClaimStatus.not_completed
closing_status (some s) = s

-- The work on the claim had not begun.
abbrev pub not_begun : BountyClaim → BountyStatus → Bool
not_begun claim old_status =
    claim_status_eq claim.status ClaimStatus.new
    || (has_claim_status (ClaimStatus.competes ∷ ClaimStatus.ready_to_start ∷ []) claim.status
        && has_bounty_status (BountyStatus.new ∷ BountyStatus.canceled ∷ []) old_status)

abbrev pub told_owner : ClaimStatus → AccountId → Option AccountId
told_owner ClaimStatus.not_completed owner = some owner
told_owner _ owner = none

abbrev pub settle_bond : Contract → AccountId → Option ℕ → Bool → Result Contract
settle_bond c receiver_id bond return_bond =
    if return_bond
    then internal_return_bonds c receiver_id bond
    else internal_unlock_non_refunded_bond c bond

unfoldable pub internal_claim_closure :
    Contract
    → AccountId
    → AccountId
    → BountyStatus
    → ℕ
    → BountyClaim
    → Option ClaimStatus
    → Bool
    → Result Contract
internal_claim_closure c receiver_id owner old_status claim_id claim claim_status return_bond = do
  let new_status = closing_status claim_status
  action_kind ← closing_action new_status (claim_status_eq claim.status ClaimStatus.disputed)
  let saved = save_claim c claim_id (record claim { status = new_status })
  let told =
      if not (not_begun claim old_status) || not (claim_status_eq new_status ClaimStatus.canceled)
      then internal_update_statistic saved (some receiver_id) (told_owner new_status owner)
          action_kind
      else saved
  settle_bond told receiver_id claim.bond return_bond

abbrev release_contest : Context → Bounty → Result Bounty
release_contest ctx bounty = do
  b ← internal_participants_decrement bounty
  m ← unwrap b.multitasking
  participants ← Multitasking.get_participants m
  if bounty_status_eq b.status BountyStatus.many_claimed && participants == 0
      then (do
        stopped ← set_competition_timestamp ctx b none
        ok (record stopped { status = BountyStatus.new }))
      else ok b

abbrev release_slot : Bounty → Result Bounty
release_slot bounty = do
  b ← internal_occupied_slots_decrement bounty
  m ← unwrap b.multitasking
  slots ← Multitasking.get_one_for_all_env m
  ok (
      if bounty_status_eq b.status BountyStatus.many_claimed && slots.0 == 0
      then record b {
        status = if slots.1 == 0 then BountyStatus.new else BountyStatus.awaiting_claims;
      }
      else b)

abbrev release_subtask : Bounty → Option ℕ → Result Bounty
release_subtask bounty slot = do
  s ← unwrap slot
  b ← internal_reset_slot bounty s
  m ← unwrap b.multitasking
  available ← Multitasking.are_all_slots_available m
  ok (if available then record b { status = BountyStatus.new } else b)

abbrev release : Context → Bounty → Option ℕ → Option Multitasking → Result Bounty
release ctx bounty slot none = ok (record bounty { status = BountyStatus.new })
release ctx bounty slot (some (contest_or_hackathon _ _ _ _ _)) = release_contest ctx bounty
release ctx bounty slot (some (one_for_all _ _ _ _)) = release_slot bounty
release ctx bounty slot (some (different_tasks _ _)) = release_subtask bounty slot
release ctx bounty slot (some _) = unreachable

-- The bounty after the claimant of the slot has left it.
unfoldable pub bounty_released : Context → Bounty → Option ℕ → Result Bounty
bounty_released ctx bounty slot = release ctx bounty slot bounty.multitasking

unfoldable pub internal_reset_bounty_to_initial_state :
    Context
    → Contract
    → ℕ
    → AccountId
    → Bounty
    → ℕ
    → BountyClaim
    → Option ClaimStatus
    → Bool
    → Result Contract
internal_reset_bounty_to_initial_state ctx c id receiver_id bounty claim_id claim claim_status
      return_bond =
    do
      b ← bounty_released ctx bounty claim.slot
      internal_claim_closure (internal_update_bounty c id b) receiver_id b.owner bounty.status
          claim_id claim claim_status return_bond

unfoldable pub internal_set_claim_expiry_status :
    Context → Contract → ℕ → AccountId → Bounty → ℕ → BountyClaim → Result Contract
internal_set_claim_expiry_status ctx c id receiver_id bounty claim_id claim =
    internal_reset_bounty_to_initial_state ctx c id receiver_id bounty claim_id claim
      (some ClaimStatus.expired) false

unfoldable pub is_deadline_for_opening_dispute_expired :
    Context → Contract → BountyClaim → Result Bool
is_deadline_for_opening_dispute_expired ctx c claim = do
  rejected_at ← unwrap claim.rejected_timestamp
  limit ← add u64_bound rejected_at c.config.period_for_opening_dispute
  ok (ltb limit ctx.block_timestamp)

unfoldable pub internal_reject_claim :
    Context → Contract → ℕ → AccountId → Bounty → ℕ → BountyClaim → Result Contract
internal_reject_claim ctx c id receiver_id bounty claim_id claim =
    if is_some c.dispute_contract
      && not (is_payment_outside_contract bounty)
      && not (is_contest_or_hackathon bounty)
    then ok (
        save_claim c claim_id (record claim {
          status = ClaimStatus.rejected;
          rejected_timestamp = some ctx.block_timestamp;
        }))
    else internal_reset_bounty_to_initial_state ctx c id receiver_id bounty claim_id claim none true

unfoldable pub internal_claim_return_after_dispute : Contract → ℕ → BountyClaim → Contract
internal_claim_return_after_dispute c claim_id claim =
    save_claim c claim_id (record claim { status = ClaimStatus.completed_with_dispute })

-- The claim of a subtask after its reward was sent.
unfoldable pub internal_slot_finalize :
    Contract → ℕ → Bounty → AccountId → Option ℕ → ℕ → Result Contract
internal_slot_finalize c id bounty receiver_id claim_number slot = do
  found ← internal_get_claim c id receiver_id claim_number
  let claim = found.1
  let with_dispute = claim_status_eq claim.status ClaimStatus.completed_with_dispute
  assert (claim_status_eq claim.status ClaimStatus.completed || with_dispute)
      "The claim status does not allow this action"
  let c1 = save_claim c found.0 (record claim { status = ClaimStatus.approved })
  b ← internal_reset_slot bounty slot
  let c2 =
      internal_update_statistic (internal_update_bounty c1 id b) (some receiver_id) (some b.owner)
        (ReputationActionKind.successful_claim with_dispute)
  internal_return_bonds c2 receiver_id claim.bond
