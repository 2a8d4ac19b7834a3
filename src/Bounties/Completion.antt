-- ===== src/Bounties/Completion.antt =====
-- What a payout changes once the reward is sent, `internal_bounty_completion` of
-- bounties/src/internal.rs.
use heroes_contracts.Prelude.{
  ℕ, Bool, true, false, not, ◌&&◌, ◌==◌, if◌then◌else◌, Option, none, some, is_none, List, [], ◌∷◌,
  Result, ok, assert, expect, unwrap, unreachable, ◌>>=◌, ◌>>◌,
}
use heroes_contracts.Near.{AccountId, Context}
use heroes_contracts.Bounties.Types.{
  BountyStatus, ClaimStatus, ReputationActionKind, Claimant, SubtaskEnv, bounty_status_eq,
  claim_status_eq,
}
use heroes_contracts.Bounties.Multitasking
use heroes_contracts.Bounties.Multitasking.{
  Multitasking, contest_or_hackathon, one_for_all, different_tasks, is_excepted,
}
use heroes_contracts.Bounties.Bounty.{
  Bounty, is_payment_outside_contract, is_one_bounty_for_many_claimants, is_different_tasks,
}
use heroes_contracts.Bounties.Contract.{
  Contract, internal_update_bounty, internal_update_statistic, save_claim, internal_return_bonds,
}
use heroes_contracts.Bounties.Runtime.{
  set_multitasking, set_competition_timestamp, internal_participants_decrement,
  internal_paid_slots_increment,
}
use heroes_contracts.Bounties.Lookup.{internal_get_claim, internal_get_and_check_bounty_and_claim}
use heroes_contracts.Bounties.Commissions.{internal_total_fees_unlocking_funds}

-- The claim in a slot is still to be completed, the excepted one aside.
abbrev slot_incomplete : Contract → ℕ → Option Claimant → Option SubtaskEnv → Result Bool
slot_incomplete c id except none = unwrap none
slot_incomplete c id except (some env) = if is_excepted except env then ok false else (do
  found ← internal_get_claim c id env.participant env.claim_number
  ok (
      not (claim_status_eq found.1.status ClaimStatus.completed)
      && not (claim_status_eq found.1.status ClaimStatus.completed_with_dispute)))

abbrev claims_completed : Contract → ℕ → Option Claimant → List (Option SubtaskEnv) → Result Bool
claims_completed c id except [] = ok true
claims_completed c id except (p ∷ ps) = do
  incomplete ← slot_incomplete c id except p
  let rest = claims_completed c id except ps
  if incomplete then ok false else rest

unfoldable pub were_all_claims_completed : Contract → ℕ → Bounty → Option Claimant → Result Bool
were_all_claims_completed c id bounty except = do
  m ← unwrap bounty.multitasking
  slots ← Multitasking.get_slots m
  claims_completed c id except slots

unfoldable pub internal_are_all_slots_complete :
    Contract → ℕ → Bounty → Option Claimant → Result Bool
internal_are_all_slots_complete c id bounty except = do
  m ← unwrap bounty.multitasking
  complete ← Multitasking.are_all_slots_complete m except
  if complete then were_all_claims_completed c id bounty except else ok false

abbrev approval_action : Bounty → Bool → ReputationActionKind
approval_action bounty with_dispute =
    if is_one_bounty_for_many_claimants bounty
    then ReputationActionKind.successful_claim with_dispute
    else ReputationActionKind.successful_bounty_and_claim with_dispute

-- The claim that is paid: the contract with the claim approved, what the statistics are told, and
-- the bond to return. All subtasks are paid together, so no single claim is.
abbrev pub complete_subtasks :
    Contract → ℕ → Bounty → Option Claimant → Result (Contract × ReputationActionKind × Option ℕ)
complete_subtasks c id bounty claimant = do
  assert (is_none claimant) "The claimant must not be established"
  assert (bounty_status_eq bounty.status BountyStatus.many_claimed)
      "Bounty status does not allow to payout"
  complete ← internal_are_all_slots_complete c id bounty none
  assert complete "Not all tasks have already been completed"
  ok (c, ReputationActionKind.successful_bounty, none)

abbrev pub complete_claim :
    Contract → ℕ → Bounty → Option Claimant → Result (Contract × ReputationActionKind × Option ℕ)
complete_claim c id bounty claimant = do
  who ← expect claimant "The claimant must be established"
  checked ←
      internal_get_and_check_bounty_and_claim c id who.0 who.1
        (BountyStatus.claimed ∷ BountyStatus.many_claimed ∷ [])
        (ClaimStatus.completed ∷ ClaimStatus.disputed ∷ []) false
        "Bounty status does not allow to payout" "The claim status does not allow to payout"
  found ← unwrap checked.1
  let claim = found.1
  ok (
    save_claim c found.0 (record claim { status = ClaimStatus.approved }),
    approval_action bounty (claim_status_eq claim.status ClaimStatus.disputed),
    claim.bond,
  )

abbrev pay_winner : Bounty → Option Claimant → Option ℕ → Result Bounty
pay_winner bounty claimant place = if is_payment_outside_contract bounty then ok bounty else (do
  m ← unwrap bounty.multitasking
  p ← expect place "This bounty type requires a place value"
  who ← unwrap claimant
  n ← Multitasking.set_competition_winner m p who
  ok (set_multitasking bounty n))

abbrev paid_contest : Context → Bounty → Option Claimant → Option ℕ → Result Bounty
paid_contest ctx bounty claimant place = do
  b ← internal_participants_decrement bounty
  paid ← pay_winner b claimant place
  m ← unwrap paid.multitasking
  taken ← Multitasking.are_all_prize_places_taken m
  if taken
      then (do
        finished ← set_competition_timestamp ctx paid none
        ok (record finished { status = BountyStatus.completed }))
      else ok paid

abbrev paid_slot : Bounty → ℕ → Result Bounty
paid_slot bounty number_of_slots = do
  b ← internal_paid_slots_increment bounty
  m ← unwrap b.multitasking
  slots ← Multitasking.get_one_for_all_env m
  ok (
      if slots.0 == 0
      then record b {
        status =
            if slots.1 == number_of_slots
            then BountyStatus.completed
            else BountyStatus.awaiting_claims;
      }
      else b)

abbrev paid : Context → Bounty → Option Claimant → Option ℕ → Option Multitasking → Result Bounty
paid ctx bounty claimant place none = ok (record bounty { status = BountyStatus.completed })
paid ctx bounty claimant place (some (contest_or_hackathon _ _ _ _ _)) =
    paid_contest ctx bounty claimant place
paid ctx bounty claimant place (some (one_for_all number_of_slots _ _ _)) =
    paid_slot bounty number_of_slots
paid ctx bounty claimant place (some (different_tasks _ _)) =
    ok (record bounty { status = BountyStatus.completed })
paid ctx bounty claimant place (some _) = unreachable

-- The bounty after one payout.
unfoldable pub bounty_paid : Context → Bounty → Option Claimant → Option ℕ → Result Bounty
bounty_paid ctx bounty claimant place = paid ctx bounty claimant place bounty.multitasking

abbrev pub return_claimant_bond : Contract → Option Claimant → Option ℕ → Result Contract
return_claimant_bond c none bond = ok c
return_claimant_bond c (some (receiver_id, _)) bond = internal_return_bonds c receiver_id bond

abbrev pub account_of : Option Claimant → Option AccountId
account_of none = none
account_of (some (account, _)) = some account

unfoldable pub internal_bounty_completion :
    Context → Contract → ℕ → Bounty → Option Claimant → ℕ × ℕ × ℕ → Option ℕ → Result Contract
internal_bounty_completion ctx c id bounty claimant (reward, platform_fee, dao_fee) place = do
  approved ←
      if is_different_tasks bounty
      then complete_subtasks c id bounty claimant
      else complete_claim c id bounty claimant
  c1 ← internal_total_fees_unlocking_funds approved.0 bounty platform_fee dao_fee
  b ← bounty_paid ctx bounty claimant place
  let c2 =
      internal_update_statistic (internal_update_bounty c1 id b) (account_of claimant)
        (some b.owner) approved.1
  return_claimant_bond c2 claimant approved.2
