-- ===== src/Bounties/Payments.antt =====
-- The public methods that pay, refund, reject and withdraw, and those that deal with disputes,
-- bounties/src/lib.rs.
use heroes_contracts.Prelude.{
  ℕ, Bool, true, false, not, ◌&&◌, ◌||◌, ◌==◌, ltb, leb, bool_eq, option_eq, if◌then◌else◌, ◌%◌,
  Option, none, some, is_some, is_none, unwrap_or, [], ◌∷◌, length, Result, ok, assert, panic,
  unwrap, unreachable, u16_bound, ◌>>=◌, ◌>>◌,
}
use heroes_contracts.Near.{AccountId, Context, assert_one_yocto}
use heroes_contracts.Bounties.Types.{
  BountyStatus, ClaimStatus, Deadline, Claimant, PaymentTimestamps, claim_status_eq,
}
use heroes_contracts.Bounties.Multitasking
use heroes_contracts.Bounties.Multitasking.{
  Multitasking, contest_or_hackathon, one_for_all, different_tasks,
}
use heroes_contracts.Bounties.Bounty.{
  Bounty, check_access_rights, is_contest_or_hackathon, is_different_tasks,
  is_payment_outside_contract, get_payment_timestamps, default_payment_timestamps,
}
use heroes_contracts.Bounties.Claim.{BountyClaim}
use heroes_contracts.Bounties.Contract.{Contract, assert_live, get_bounty}
use heroes_contracts.Bounties.Lookup.{
  internal_get_claim, get_claims_with_statuses, has_bounty_status,
}
use heroes_contracts.Bounties.Closure.{internal_reject_claim}
use heroes_contracts.Bounties.Completion.{internal_are_all_slots_complete}
use heroes_contracts.Bounties.Payout.{internal_bounty_payout, internal_refund_bounty_amount}

-- The timestamps of the claim in a shared bounty, of the bounty otherwise.
unfoldable pub internal_get_payment_timestamps : Bounty → BountyClaim → Result PaymentTimestamps
internal_get_payment_timestamps bounty claim =
    if is_some bounty.multitasking
    then ok (unwrap_or claim.payment_timestamps default_payment_timestamps)
    else (do postpaid ← unwrap bounty.postpaid; get_payment_timestamps postpaid)

unfoldable pub assert_postpaid_is_ready : Bounty → BountyClaim → Bool → Result (Unit {0})
assert_postpaid_is_ready bounty claim approve =
    if is_payment_outside_contract bounty
    then (do
      t ← internal_get_payment_timestamps bounty claim
      assert (is_none t.payment_at || approve)
          "The result cannot be rejected after the payment has been confirmed"
      assert (not approve || (is_some t.payment_at && is_some t.payment_confirmed_at))
          "No payment confirmation")
    else ok tt

abbrev after_due_date : Context → Deadline → Bool
after_due_date ctx (Deadline.due_date t) = ltb t ctx.block_timestamp
after_due_date ctx _ = true

abbrev enough_finished : Contract → ℕ → Option ℕ → Result (Unit {0})
enough_finished c id none = ok tt
enough_finished c id (some required) = do
  claims ← get_claims_with_statuses c id (ClaimStatus.completed ∷ []) none
  assert (leb required (length claims % u16_bound)) "Not enough participants finished"

abbrev is_the_winner : Option Claimant → AccountId → Option ℕ → Bool
is_the_winner none receiver_id claim_number = false
is_the_winner (some (account, number)) receiver_id claim_number =
    account == receiver_id && option_eq number claim_number

abbrev contest_requirements :
    Context
    → Contract
    → ℕ
    → Bounty
    → AccountId
    → Option ℕ
    → Option ℕ
    → Multitasking
    → Option ℕ
    → Result (Unit {0})
contest_requirements ctx c id bounty receiver_id claim_number place m successful = do
  assert (after_due_date ctx bounty.deadline)
      "The winner of the competition can be determined only after the deadline."
  started ← Multitasking.has_competition_started m
  assert started "The competition does not continue"
  enough_finished c id successful
  winner ← Multitasking.get_competition_winner m place none
  if is_payment_outside_contract bounty
      then assert (is_the_winner winner receiver_id claim_number)
          "Only the winner of the competition can be approved"
      else assert (is_none winner) "There is already a winner for this prize place"

abbrev shared_requirements :
    Context
    → Contract
    → ℕ
    → Bounty
    → AccountId
    → Option ℕ
    → Option ℕ
    → Option Multitasking
    → Result (Unit {0})
shared_requirements ctx c id bounty receiver_id claim_number place none = ok tt
shared_requirements ctx c id bounty receiver_id claim_number place
      (some (contest_or_hackathon a successful s p e)) =
    contest_requirements ctx c id bounty receiver_id claim_number place
      (contest_or_hackathon a successful s p e) successful
shared_requirements ctx c id bounty receiver_id claim_number place (some (one_for_all _ _ _ _)) =
    ok tt
shared_requirements ctx c id bounty receiver_id claim_number place (some (different_tasks _ _)) =
    panic "This action is not available for DifferentTasks mode"
shared_requirements ctx c id bounty receiver_id claim_number place (some _) = unreachable

unfoldable pub assert_multitasking_requirements :
    Context → Contract → ℕ → Bounty → AccountId → Option ℕ → Option ℕ → Result (Unit {0})
assert_multitasking_requirements ctx c id bounty receiver_id claim_number place =
    shared_requirements ctx c id bounty receiver_id claim_number place bounty.multitasking

abbrev real_place : Option ℕ → Bool → Result (Option ℕ)
real_place none contest = ok (if contest then some 0 else none)
real_place (some p) contest = do
  assert contest "The prize_place parameter cannot be used for this bounty type"
  ok (some p)

unfoldable pub internal_get_real_prize_place : Option ℕ → Bounty → Result (Option ℕ)
internal_get_real_prize_place prize_place bounty =
    real_place prize_place (is_contest_or_hackathon bounty)

-- The guards that `bounty_approve` and `bounty_reject` share, and the claim.
abbrev pub decidable_claim :
    Context → Contract → ℕ → AccountId → Option ℕ → Result (Bounty × ℕ × BountyClaim)
decidable_claim ctx c id receiver_id claim_number = do
  bounty ← get_bounty c id
  assert (has_bounty_status (BountyStatus.claimed ∷ BountyStatus.many_claimed ∷ []) bounty.status)
      "Bounty status does not allow approval of the execution result"
  check_access_rights ctx bounty
  assert (bool_eq (is_some claim_number) bounty.allow_creating_many_claims)
      "Invalid claim_number value"
  found ← internal_get_claim c id receiver_id claim_number
  assert (claim_status_eq found.1.status ClaimStatus.completed)
      "The claim status does not allow approval of the execution result"
  ok (bounty, found.0, found.1)

unfoldable pub bounty_approve :
    Context → Contract → ℕ → AccountId → Option ℕ → Option ℕ → Result Contract
bounty_approve ctx c id receiver_id claim_number prize_place = do
  assert_live c
  assert_one_yocto ctx
  found ← decidable_claim ctx c id receiver_id claim_number
  place ← internal_get_real_prize_place prize_place found.0
  assert_postpaid_is_ready found.0 found.2 true
  assert_multitasking_requirements ctx c id found.0 receiver_id claim_number place
  internal_bounty_payout ctx c id (some (receiver_id, claim_number)) place

unfoldable pub bounty_reject : Context → Contract → ℕ → AccountId → Option ℕ → Result Contract
bounty_reject ctx c id receiver_id claim_number = do
  assert_live c
  found ← decidable_claim ctx c id receiver_id claim_number
  assert_postpaid_is_ready found.0 found.2 false
  internal_reject_claim ctx c id receiver_id found.0 found.1 found.2

abbrev all_confirmed : Bounty → Result (Unit {0})
all_confirmed bounty =
    if is_payment_outside_contract bounty
    then (do
      m ← unwrap bounty.multitasking
      confirmed ← Multitasking.are_all_slots_confirmed m
      assert confirmed "Not all tasks are confirmed to be paid")
    else ok tt

unfoldable pub bounty_approve_of_several : Context → Contract → ℕ → Result Contract
bounty_approve_of_several ctx c id = do
  assert_live c
  assert_one_yocto ctx
  bounty ← get_bounty c id
  assert (has_bounty_status (BountyStatus.claimed ∷ BountyStatus.many_claimed ∷ []) bounty.status)
      "Bounty status does not allow approval of the execution result"
  check_access_rights ctx bounty
  assert (is_different_tasks bounty) "This action is only available for the DifferentTasks mode"
  complete ← internal_are_all_slots_complete c id bounty none
  assert complete "Not all tasks have already been completed"
  all_confirmed bounty
  internal_bounty_payout ctx c id none none

unfoldable pub bounty_cancel : Context → Contract → ℕ → Result Contract
bounty_cancel ctx c id = do
  assert_live c
  bounty ← get_bounty c id
  assert (has_bounty_status (BountyStatus.new ∷ BountyStatus.awaiting_claims ∷ []) bounty.status)
      "Bounty status does not allow cancellation"
  assert (bounty.owner == ctx.predecessor) "Only the owner of the bounty can call this method"
  internal_refund_bounty_amount c id bounty
