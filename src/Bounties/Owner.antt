-- ===== src/Bounties/Owner.antt =====
-- The methods by which the owner of a bounty, or the claimant, moves it on without a payment by the
-- contract, bounties/src/lib.rs.
use heroes_contracts.Prelude.{
  ℕ, Bool, true, false, not, ◌==◌, ltb, bool_eq, if◌then◌else◌, Option, none, some, is_some,
  is_none, unwrap_or, [], ◌∷◌, Result, ok, panic, assert, unwrap, unreachable, ◌>>=◌, ◌>>◌,
}
use heroes_contracts.Near.{AccountId, Context}
use heroes_contracts.Bounties.Types.{
  BountyStatus, ClaimStatus, Claimant, DateOrPeriod, StartConditions, Postpaid, Reviewers,
  ValidatorsDaoParams, bounty_status_eq,
}
use heroes_contracts.Bounties.Multitasking
use heroes_contracts.Bounties.Multitasking.{Multitasking, contest_or_hackathon}
use heroes_contracts.Bounties.Bounty.{
  Bounty, is_simple, is_contest_or_hackathon, is_different_tasks, is_payment_outside_contract,
  is_validators_dao_used, is_claim_deadline_correct, default_payment_timestamps, to_validators_dao,
}
use heroes_contracts.Bounties.Claim.{BountyClaim, set_payment_at, set_payment_confirmed_at}
use heroes_contracts.Bounties.Contract.{
  Contract, get_bounty, assert_live, save_claim, internal_update_bounty,
  internal_change_status_and_save_bounty,
}
use heroes_contracts.Bounties.Runtime
use heroes_contracts.Bounties.Runtime.{set_multitasking, internal_confirm_slot}
use heroes_contracts.Bounties.Lookup.{
  has_claim_status, internal_get_claim, internal_find_active_claim,
}
use heroes_contracts.Bounties.Payments.{
  internal_get_payment_timestamps, internal_get_real_prize_place,
}
use heroes_contracts.Bounties.Finalize.{is_claimed}

-- Whether there is an old deadline, and the new one is later.
abbrev pub is_later : Option ℕ → ℕ → Result Bool
is_later old deadline = do before ← unwrap old; ok (ltb before deadline)

unfoldable pub extend_claim_deadline :
    Context → Contract → ℕ → AccountId → Option ℕ → ℕ → Result Contract
extend_claim_deadline ctx c id receiver_id claim_number deadline = do
  assert_live c
  bounty ← get_bounty c id
  assert (not (is_simple bounty.bounty_flow))
      "This operation is not supported for simple bounty flow"
  assert (is_claimed bounty) "Bounty status does not allow to postpone the claim deadline"
  assert (bool_eq (is_some claim_number) bounty.allow_creating_many_claims)
      "Invalid claim_number value"
  assert (bounty.owner == ctx.predecessor) "Only the owner of the bounty can call this method"
  found ← internal_get_claim c id receiver_id claim_number
  let claim = found.1
  assert (has_claim_status (ClaimStatus.in_progress ∷ ClaimStatus.competes ∷ []) claim.status)
      "Claim status does not allow to postpone the deadline"
  assert (is_some claim.deadline) "This bounty does not use a claim deadline"
  correct ← is_claim_deadline_correct ctx bounty (some deadline)
  later ← if correct then is_later claim.deadline deadline else ok false
  assert later "The claim deadline is incorrect"
  ok (save_claim c found.0 (record claim { deadline = some deadline }))

-- `Postpaid::set_payment_at`.
abbrev pub postpaid_paid_at : Postpaid → Option ℕ → Result Postpaid
postpaid_paid_at (Postpaid.payment_outside_contract currency timestamps) time =
    let t = unwrap_or timestamps default_payment_timestamps in
    ok (Postpaid.payment_outside_contract currency (some (record t { payment_at = time })))
postpaid_paid_at (Postpaid.payment_outside_contract_v1 _) time = unreachable

-- `Postpaid::set_payment_confirmed_at`.
abbrev pub postpaid_confirmed_at : Postpaid → Option ℕ → Result Postpaid
postpaid_confirmed_at (Postpaid.payment_outside_contract currency timestamps) time =
    let t = unwrap_or timestamps default_payment_timestamps in
    ok
      (Postpaid.payment_outside_contract currency (some (record t { payment_confirmed_at = time })))
postpaid_confirmed_at (Postpaid.payment_outside_contract_v1 _) time = unreachable

abbrev pub is_completed_claim : BountyClaim → Bool
is_completed_claim claim =
    has_claim_status (ClaimStatus.completed ∷ ClaimStatus.completed_with_dispute ∷ []) claim.status

-- The claim that the owner marks as paid: the claimant's in a shared bounty, else the active one.
abbrev pub claim_to_mark :
    Contract → ℕ → Bounty → Option AccountId → Option ℕ → Result (ℕ × BountyClaim)
claim_to_mark c id bounty receiver_id claim_number =
    if is_some bounty.multitasking
    then (do
      assert (is_some receiver_id) "The claimant parameter is mandatory for multitasking bounties"
      account ← unwrap receiver_id
      internal_get_claim c id account claim_number)
    else (do
      assert (is_none receiver_id)
          "The claimant parameter is required only for multitasking bounties"
      internal_find_active_claim c id)

-- A contest's winner is recorded when the prize is marked as paid.
abbrev pub with_winner :
    Contract → ℕ → Bounty → Option AccountId → Option ℕ → Option ℕ → Result Contract
with_winner c id bounty receiver_id claim_number place =
    if is_contest_or_hackathon bounty
    then (do
      m ← unwrap bounty.multitasking
      i ← unwrap place
      account ← unwrap receiver_id
      n ← Multitasking.set_competition_winner m i (account, claim_number)
      ok (internal_update_bounty c id (set_multitasking bounty n)))
    else ok c

unfoldable pub mark_as_paid :
    Context → Contract → ℕ → Option AccountId → Option ℕ → Option ℕ → Result Contract
mark_as_paid ctx c id receiver_id claim_number prize_place = do
  assert_live c
  bounty ← get_bounty c id
  assert (is_payment_outside_contract bounty)
      "This method is allowed to be used only when paying outside the contract"
  assert (is_claimed bounty) "Bounty status does not allow this action"
  assert (bounty.owner == ctx.predecessor) "Only the owner of the bounty can call this method"
  assert (bool_eq (is_some claim_number) bounty.allow_creating_many_claims)
      "Invalid claim_number value"
  found ← claim_to_mark c id bounty receiver_id claim_number
  assert (is_completed_claim found.1) "The status of the claim does not allow this action"
  timestamps ← internal_get_payment_timestamps bounty found.1
  assert (is_none timestamps.payment_at) "This action has already been performed"
  place ← internal_get_real_prize_place prize_place bounty
  if is_some bounty.multitasking
      then (do
        won ← with_winner c id bounty receiver_id claim_number place
        ok (save_claim won found.0 (set_payment_at found.1 (some ctx.block_timestamp))))
      else (do
        postpaid ← unwrap bounty.postpaid
        marked ← postpaid_paid_at postpaid (some ctx.block_timestamp)
        ok (internal_update_bounty c id (record bounty { postpaid = some marked })))

-- The claim whose payment the caller confirms.
abbrev pub claim_to_confirm : Context → Contract → ℕ → Bounty → Option ℕ → Result (ℕ × BountyClaim)
claim_to_confirm ctx c id bounty claim_number =
    if is_some bounty.multitasking
    then internal_get_claim c id ctx.predecessor claim_number
    else (do
      active ← internal_find_active_claim c id
      assert (active.1.owner == ctx.predecessor)
          "Only the owner of the claim is allowed this action"
      ok active)

abbrev pub assert_winner : Bounty → Claimant → Result (Unit {0})
assert_winner bounty claimant =
    if is_contest_or_hackathon bounty
    then (do
      m ← unwrap bounty.multitasking
      winner ← Multitasking.get_competition_winner m none (some claimant)
      assert (is_some winner) "You aren't a contest winner")
    else ok tt

abbrev pub confirm_subtask : Contract → ℕ → Bounty → BountyClaim → Result Contract
confirm_subtask c id bounty claim =
    if is_different_tasks bounty
    then (do
      slot ← unwrap claim.slot
      b ← internal_confirm_slot bounty slot
      ok (internal_update_bounty c id b))
    else ok c

unfoldable pub confirm_payment : Context → Contract → ℕ → Option ℕ → Result Contract
confirm_payment ctx c id claim_number = do
  assert_live c
  bounty ← get_bounty c id
  assert (is_payment_outside_contract bounty)
      "This method is allowed to be used only when paying outside the contract"
  assert (is_claimed bounty) "Bounty status does not allow this action"
  assert (bool_eq (is_some claim_number) bounty.allow_creating_many_claims)
      "Invalid claim_number value"
  found ← claim_to_confirm ctx c id bounty claim_number
  assert (is_completed_claim found.1) "The status of the claim does not allow this action"
  timestamps ← internal_get_payment_timestamps bounty found.1
  assert (is_some timestamps.payment_at) "Payment by the bounty owner has not yet been confirmed"
  assert (is_none timestamps.payment_confirmed_at) "This action has already been performed"
  if is_some bounty.multitasking
      then (do
        assert_winner bounty (ctx.predecessor, claim_number)
        let claim = set_payment_confirmed_at found.1 (some ctx.block_timestamp)
        confirm_subtask (save_claim c found.0 claim) id bounty claim)
      else (do
        postpaid ← unwrap bounty.postpaid
        confirmed ← postpaid_confirmed_at postpaid (some ctx.block_timestamp)
        ok (internal_update_bounty c id (record bounty { postpaid = some confirmed })))

abbrev pub assert_date_passed : Context → Option DateOrPeriod → Result (Unit {0})
assert_date_passed ctx (some (DateOrPeriod.date t)) =
    assert (ltb t ctx.block_timestamp)
      "The start is possible only after the date before which it is allowed to create new claims"
assert_date_passed ctx _ = ok tt

abbrev is_manual : Option StartConditions → Bool
is_manual (some StartConditions.manually_start) = true
is_manual _ = false

abbrev pub is_allowed_to_start : Context → Option Multitasking → Result Bool
is_allowed_to_start ctx (some (contest_or_hackathon allowed to start places env)) = do
  assert_date_passed ctx allowed
  started ← Multitasking.has_competition_started (contest_or_hackathon allowed to start places env)
  assert (not started) "The competition has already started"
  ok (is_manual start)
is_allowed_to_start ctx _ = ok false

unfoldable pub start_competition : Context → Contract → ℕ → Result Contract
start_competition ctx c id = do
  assert_live c
  bounty ← get_bounty c id
  assert (bounty_status_eq bounty.status BountyStatus.new)
      "Bounty status does not allow this action"
  assert (bounty.owner == ctx.predecessor) "Only the owner of the bounty can call this method"
  allowed ← is_allowed_to_start ctx bounty.multitasking
  assert allowed "Manual start of the competition is not supported"
  m ← unwrap bounty.multitasking
  participants ← Multitasking.get_participants m
  assert (ltb 1 participants) "Too few participants to start the competition"
  b ← Runtime.set_competition_timestamp ctx bounty (some ctx.block_timestamp)
  ok (internal_change_status_and_save_bounty c id b BountyStatus.many_claimed)

abbrev pub assert_validators_dao_account_id : Bounty → AccountId → Result (Unit {0})
assert_validators_dao_account_id bounty account_id = elim bounty.reviewers [
  | some (Reviewers.validators_dao dao) ↦
      assert (dao.account_id == account_id) "DAO account ID does not match"
  | _ ↦ panic "Validators DAO are not used"
]

unfoldable pub update_validators_dao_params :
    Context → Contract → ℕ → ValidatorsDaoParams → Result Contract
update_validators_dao_params ctx c id dao_params = do
  assert_live c
  bounty ← get_bounty c id
  assert (bounty.owner == ctx.predecessor) "Only the owner of the bounty can call this method"
  assert (is_validators_dao_used bounty) "DAO validators are not used for this bounty"
  assert_validators_dao_account_id bounty dao_params.account_id
  ok (
      internal_update_bounty c id (record bounty {
        reviewers = some (Reviewers.validators_dao (to_validators_dao dao_params));
      }))
