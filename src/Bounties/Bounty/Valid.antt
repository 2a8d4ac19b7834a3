-- ===== src/Bounties/Bounty/Valid.antt =====
-- `Bounty::assert_valid`, bounties/src/types.rs, in the order of its checks.
use heroes_contracts.Prelude.{
  ℕ, String, Bool, true, false, not, ◌&&◌, ◌||◌, ◌==◌, ltb, leb, if◌then◌else◌, is_empty, Option,
  none, some, is_some, is_none, List, [], ◌∷◌, length, any, map, Result, ok, assert, unreachable,
  add, mul, u32_bound, u128_bound, ◌>>=◌, ◌>>◌, ◌-◌,
}
use heroes_contracts.Near.{Context}
use heroes_contracts.Bounties.Types.{
  BountyMetadata, Deadline, ClaimantApproval, Reviewers, KycVerificationMethod, KycConfig,
  DateOrPeriod, StartConditions, Subtask, PrizePlace, max_slots,
  min_deviation_for_total_bounty_amount,
}
use heroes_contracts.Bounties.Multitasking.{
  Multitasking, contest_or_hackathon, one_for_all, different_tasks,
}
use heroes_contracts.Bounties.Bounty.{
  Bounty, is_payment_outside_contract, is_validators_dao_used, is_simple,
}

abbrev attachments_listed : Option (List String) → Bool
attachments_listed none = true
attachments_listed (some attachments) = ltb 0 (length attachments)

assert_metadata : BountyMetadata → Result (Unit {0})
assert_metadata m = do
  assert (not (is_empty m.title)) "The title cannot be empty"
  assert (not (is_empty m.description)) "The description cannot be empty"
  assert (not (is_empty m.category)) "The bounty type cannot be empty"
  assert (attachments_listed m.attachments)
      "The expected number of attachments is greater than zero"

assert_deadline : Context → Deadline → Bool → Result (Unit {0})
assert_deadline ctx (Deadline.due_date t) stretch =
    assert (ltb ctx.block_timestamp t) "Incorrect due date"
assert_deadline ctx (Deadline.max_deadline m) stretch =
    assert (ltb 0 m) "The max deadline is incorrect"
assert_deadline ctx Deadline.without_deadline stretch =
    assert (not stretch) "This bounty has no deadline, so the claimant must specify a deadline"

assert_reviewers : Option Reviewers → Result (Unit {0})
assert_reviewers (some (Reviewers.more_reviewers accounts)) =
    assert (ltb 0 (length accounts)) "The expected number of reviewers is greater than zero"
assert_reviewers _ = ok tt

-- `iter().sum()`, which panics on overflow.
abbrev pub checked_sum : ℕ → List ℕ → Result ℕ
checked_sum bound [] = ok 0
checked_sum bound (x ∷ xs) = do rest ← checked_sum bound xs; add bound x rest

abbrev within_due_date : ℕ → Deadline → Bool
within_due_date d (Deadline.due_date t) = leb d t
within_due_date d _ = true

assert_allowed_to : Context → Deadline → Option DateOrPeriod → Result (Unit {0})
assert_allowed_to ctx deadline (some (DateOrPeriod.date d)) =
    assert (ltb ctx.block_timestamp d && within_due_date d deadline)
      "The date until which it is allowed to create claims is incorrect"
assert_allowed_to ctx deadline _ = ok tt

assert_successful_claims : Option ℕ → Result (Unit {0})
assert_successful_claims none = ok tt
assert_successful_claims (some n) =
    assert (ltb 1 n && leb n max_slots) "Incorrect number of successful claims to obtain a result"

assert_start : Option StartConditions → Result (Unit {0})
assert_start (some (StartConditions.min_amount_to_start n)) =
    assert (ltb 1 n) "The minimum number of claims to start is incorrect"
assert_start _ = ok tt

abbrev pub place_amounts : List PrizePlace → List ℕ
place_amounts = map (λ p. p.place_amount)

assert_places : ℕ → Option (List PrizePlace) → Result (Unit {0})
assert_places amount none = ok tt
assert_places amount (some places) = do
  assert (ltb 0 (length places) && leb (length places) max_slots)
      "The number of places must be greater than zero"
  assert (not (any (λ p. is_empty p.place_description) places))
      "The places description cannot be empty"
  total ← checked_sum u128_bound (place_amounts places)
  assert (total == amount) "The sum of all places must equal the bounty amount"

assert_min_slots : Option ℕ → Result (Unit {0})
assert_min_slots none = ok tt
assert_min_slots (some n) =
    assert (ltb 1 n && leb n max_slots) "The minimum number of claims to start is incorrect"

assert_slots : ℕ → ℕ → ℕ → ℕ → Option ℕ → Result (Unit {0})
assert_slots amount platform_fee number_of_slots amount_per_slot min_slots = do
  assert (ltb 1 number_of_slots) "The number of slots must be greater than one"
  assert (ltb 0 amount_per_slot) "The cost of one slot cannot be zero"
  assert_min_slots min_slots
  total ← add u128_bound amount platform_fee
  required ← mul u128_bound amount_per_slot number_of_slots
  assert (leb required total && leb (total - required) min_deviation_for_total_bounty_amount)
      "Total bounty amount is incorrect"

abbrev pub subtask_percents : List Subtask → List ℕ
subtask_percents = map (λ s. s.subtask_percent)

assert_subtasks : List Subtask → Result (Unit {0})
assert_subtasks subtasks = do
  assert (ltb 1 (length subtasks) && leb (length subtasks) max_slots)
      "The number of subtasks must be greater than one"
  assert (not (any (λ s. is_empty s.subtask_description) subtasks))
      "The subtask description cannot be empty"
  total ← checked_sum u32_bound (subtask_percents subtasks)
  assert (total == 100_000) "The sum of the cost of all subtasks must equal 100%"

assert_multitasking : Context → Bounty → Option Multitasking → Result (Unit {0})
unfolding assert_allowed_to assert_successful_claims assert_start assert_places assert_slots
    assert_min_slots assert_subtasks
assert_multitasking ctx b none = ok tt
assert_multitasking ctx b (some (contest_or_hackathon allowed successful start places _)) = do
  assert_allowed_to ctx b.deadline allowed
  assert_successful_claims successful
  assert_start start
  assert_places b.amount places
assert_multitasking ctx b (some (one_for_all number_of_slots amount_per_slot min_slots _)) =
    assert_slots b.amount b.platform_fee number_of_slots amount_per_slot min_slots
assert_multitasking ctx b (some (different_tasks subtasks _)) = assert_subtasks subtasks
assert_multitasking ctx b (some _) = unreachable

abbrev approves_by_itself : ClaimantApproval → Bool
approves_by_itself ClaimantApproval.without_approval = true
approves_by_itself (ClaimantApproval.approval_by_whitelist _) = true
approves_by_itself _ = false

abbrev checks_during_approval : KycConfig → Bool
checks_during_approval (KycConfig.kyc_required KycVerificationMethod.during_claim_approval) = true
checks_during_approval _ = false

assert_flow : Bounty → Result (Unit {0})
assert_flow b =
    if is_simple b.bounty_flow
    then (do
      assert (approves_by_itself b.claimant_approval)
          "claimant_approval and bounty_flow values are incompatible"
      assert (not (checks_during_approval b.kyc_config))
          "kyc_config and bounty_flow values are incompatible"
      assert (not (is_validators_dao_used b)) "Validators Dao cannot be used for Simple Bounty"
      assert (not b.allow_deadline_stretch)
          "allow_deadline_stretch and bounty_flow values are incompatible")
    else ok tt

unfoldable pub assert_valid : Context → Bounty → Result (Unit {0})
unfolding assert_metadata assert_deadline assert_reviewers assert_multitasking assert_flow
assert_valid ctx b = do
  assert_metadata b.metadata
  assert (ltb 0 b.amount) "The bounty amount is incorrect"
  assert (if is_payment_outside_contract b then is_none b.token else is_some b.token)
      "Invalid token_id value"
  assert_deadline ctx b.deadline b.allow_deadline_stretch
  assert_reviewers b.reviewers
  assert_multitasking ctx b b.multitasking
  assert_flow b
  assert (not b.allow_creating_many_claims || is_some b.multitasking)
      "One account can create multiple claims only for multitasking bounties"
