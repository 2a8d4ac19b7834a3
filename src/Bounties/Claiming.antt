-- ===== src/Bounties/Claiming.antt =====
-- Making a claim and deciding on it, bounties/src/internal.rs.
use heroes_contracts.Prelude.{
  ℕ, String, Bool, true, false, not, ◌&&◌, ltb, if◌then◌else◌, Option, none, some, is_some, is_none,
  unwrap_or, List, [], ◌∷◌, ◌++◌, length, Result, ok, assert, expect, unwrap, unreachable, add,
  u64_bound, u128_bound, insert, ◌>>=◌, ◌>>◌, bool_eq,
}
use heroes_contracts.Near.{AccountId, Context}
use heroes_contracts.Bounties.Types.{
  BountyStatus, ClaimStatus, DefermentOfKyc, ReputationActionKind, KycConfig, KycVerificationMethod,
}
use heroes_contracts.Bounties.Multitasking
use heroes_contracts.Bounties.Multitasking.{
  Multitasking, contest_or_hackathon, one_for_all, different_tasks, is_different_tasks_mode,
}
use heroes_contracts.Bounties.Bounty.{
  Bounty, is_payment_outside_contract, default_payment_timestamps,
}
use heroes_contracts.Bounties.Claim.{BountyClaim}
use heroes_contracts.Bounties.Contract.{
  Contract, PlaceOfCheckKyc, creating_claim, decision_on_claim, claim_done, is_whitelisted,
  after_check_if_whitelisted, schedule, get_bounty, internal_update_statistic, save_claim,
}
use heroes_contracts.Bounties.Lookup.{internal_get_and_check_bounty_and_claim}
use heroes_contracts.Bounties.Approval.{is_approval_required, internal_claimant_approval}

abbrev may_skip_approval_check : Bounty → Option AccountId → Result Bool
may_skip_approval_check bounty none = ok false
may_skip_approval_check bounty (some receiver_id) = do
  required ← is_approval_required bounty receiver_id
  ok (not required)

abbrev is_before_deadline : Option DefermentOfKyc → Bool
is_before_deadline (some DefermentOfKyc.before_deadline) = true
is_before_deadline _ = false

abbrev kyc_was_delayed : Option BountyClaim → Bool
kyc_was_delayed none = false
kyc_was_delayed (some claim) = is_before_deadline claim.is_kyc_delayed

abbrev kyc_check_at :
    KycVerificationMethod
    → Bounty
    → Option BountyClaim
    → Option AccountId
    → PlaceOfCheckKyc
    → Result Bool
kyc_check_at KycVerificationMethod.when_creating_claim bounty claim receiver_id
      (creating_claim _ _) =
    ok true
kyc_check_at KycVerificationMethod.during_claim_approval bounty claim receiver_id
      (decision_on_claim delayed) =
    ok (is_none delayed)
kyc_check_at KycVerificationMethod.during_claim_approval bounty claim receiver_id (claim_done _) =
    if kyc_was_delayed claim then ok true else may_skip_approval_check bounty receiver_id
kyc_check_at _ bounty claim receiver_id _ = ok false

abbrev kyc_check :
    Contract
    → KycConfig
    → Bounty
    → Option BountyClaim
    → Option AccountId
    → PlaceOfCheckKyc
    → Result Bool
kyc_check c KycConfig.kyc_not_required bounty claim receiver_id place = ok false
kyc_check c (KycConfig.kyc_required method) bounty claim receiver_id place = do
  assert (is_some c.kyc_whitelist_contract) "KYC whitelist contract is not set"
  kyc_check_at method bounty claim receiver_id place

unfoldable pub is_kyc_check_required :
    Contract → Bounty → Option BountyClaim → Option AccountId → PlaceOfCheckKyc → Result Bool
is_kyc_check_required c bounty claim receiver_id place =
    kyc_check c bounty.kyc_config bounty claim receiver_id place

unfoldable pub check_if_claimant_in_kyc_whitelist :
    Contract → ℕ → AccountId → Option ℕ → PlaceOfCheckKyc → Option ℕ → Result Contract
check_if_claimant_in_kyc_whitelist c id receiver_id claim_number place slot = do
  kyc ← unwrap c.kyc_whitelist_contract
  ok (
      schedule c (
        is_whitelisted kyc receiver_id
          (after_check_if_whitelisted id receiver_id claim_number place slot)))

-- A new claim id, in the lists of its owner and of its bounty.
unfoldable pub internal_add_claim : Contract → BountyClaim → Result Contract
internal_add_claim c claim = do
  let claim_id = c.last_claim_id
  next ← add u64_bound claim_id 1
  let of_owner = unwrap_or (c.bounty_claimants claim.owner) []
  let of_bounty = unwrap_or (c.bounty_claims claim.bounty_id) []
  ok (record c {
    bounty_claimants = insert c.bounty_claimants claim.owner (of_owner ++ claim_id ∷ []);
    bounty_claims = insert c.bounty_claims claim.bounty_id (of_bounty ++ claim_id ∷ []);
    last_claim_id = next;
    claims = insert c.claims claim_id claim;
  })

-- The bounty statuses in which a claim can be made, the statuses of an earlier claim of the same
-- account that forbid it, and what is said then.
abbrev Allowed : Type 0
Allowed = List BountyStatus × List ClaimStatus × String

abbrev allowed_in : Option Multitasking → Option ℕ → Result Allowed
allowed_in none slot = do
  assert (is_none slot) "The slot parameter is not used for this mode"
  ok (BountyStatus.new ∷ [], ClaimStatus.new ∷ [], "You already have a claim with the status 'New'")
allowed_in (some (contest_or_hackathon _ _ _ _ _)) slot = do
  assert (is_none slot) "The slot parameter is not used for this mode"
  ok (
    BountyStatus.new ∷ BountyStatus.many_claimed ∷ [],
    ClaimStatus.new ∷ ClaimStatus.competes ∷ ClaimStatus.completed ∷ ClaimStatus.not_hired ∷ [],
    "You already have a claim to participate in the competition",
  )
allowed_in (some (one_for_all _ _ _ _)) slot = do
  assert (is_none slot) "The slot parameter is not used for this mode"
  ok (
    BountyStatus.new ∷ BountyStatus.many_claimed ∷ BountyStatus.awaiting_claims ∷ [],
    ClaimStatus.new ∷ ClaimStatus.ready_to_start ∷ ClaimStatus.in_progress ∷ ClaimStatus.completed
        ∷ ClaimStatus.rejected ∷ ClaimStatus.disputed ∷ [],
    "You already have an active claim",
  )
allowed_in (some (different_tasks subtasks _)) slot = do
  s ← expect slot "The slot parameter is required for this mode"
  assert (ltb s (length subtasks)) "The slot parameter cannot exceed the number of bounty tasks"
  ok (
    BountyStatus.new ∷ BountyStatus.many_claimed ∷ [],
    ClaimStatus.new ∷ ClaimStatus.ready_to_start ∷ ClaimStatus.in_progress ∷ ClaimStatus.completed
        ∷ ClaimStatus.rejected ∷ ClaimStatus.disputed ∷ ClaimStatus.completed_with_dispute ∷ [],
    "You already have an active claim",
  )
allowed_in (some _) slot = do
  assert (is_none slot) "The slot parameter is not used for this mode"
  unreachable

-- The number of the account's next claim, if it may have several.
abbrev next_claim_number : Context → Bounty → Option Multitasking → Option ℕ → ℕ → Result (Option ℕ)
next_claim_number ctx bounty none slot claims = ok none
next_claim_number ctx bounty (some m) slot claims = do
  allowed ← Multitasking.is_allowed_to_create_or_approve_claims ctx m slot
  assert allowed "It is no longer possible to create new claims"
  if bounty.allow_creating_many_claims
      then (do
        assert (ltb claims 255) "One account can create no more than 255 claims"
        ok (some claims))
      else ok none

unfoldable pub check_if_allowed_to_create_claim_by_status :
    Context
    → Contract
    → ℕ
    → AccountId
    → Option ℕ
    → Result (Bounty × Option (ℕ × BountyClaim) × Option ℕ)
check_if_allowed_to_create_claim_by_status ctx c id receiver_id slot = do
  bounty ← get_bounty c id
  allowed ← allowed_in bounty.multitasking slot
  checked ←
      internal_get_and_check_bounty_and_claim c id receiver_id none allowed.0 allowed.1 true
        "Bounty status does not allow to submit a claim" allowed.2
  claim_number ← next_claim_number ctx bounty bounty.multitasking slot (length checked.2)
  ok (bounty, checked.1, claim_number)

abbrev pub decidable_in : Option Multitasking → Result (List BountyStatus)
decidable_in none = ok (BountyStatus.new ∷ [])
decidable_in (some (contest_or_hackathon _ _ _ _ _)) =
    ok (BountyStatus.new ∷ BountyStatus.many_claimed ∷ [])
decidable_in (some (one_for_all _ _ _ _)) =
    ok (BountyStatus.new ∷ BountyStatus.many_claimed ∷ BountyStatus.awaiting_claims ∷ [])
decidable_in (some (different_tasks _ _)) = ok (BountyStatus.new ∷ BountyStatus.many_claimed ∷ [])
decidable_in (some _) = unreachable

abbrev pub still_open : Context → Option Multitasking → Option ℕ → Result (Unit {0})
still_open ctx none slot = ok tt
still_open ctx (some m) slot = do
  allowed ← Multitasking.is_allowed_to_create_or_approve_claims ctx m slot
  assert allowed "It is no longer possible to create new claims"

unfoldable pub check_if_allowed_to_approve_claim_by_status :
    Context → Contract → ℕ → AccountId → Option ℕ → Result (Bounty × ℕ × BountyClaim)
check_if_allowed_to_approve_claim_by_status ctx c id receiver_id claim_number = do
  bounty ← get_bounty c id
  assert (bool_eq (is_some claim_number) bounty.allow_creating_many_claims)
      "Invalid claim_number value"
  statuses ← decidable_in bounty.multitasking
  checked ←
      internal_get_and_check_bounty_and_claim c id receiver_id claim_number statuses
        (ClaimStatus.new ∷ []) false "Bounty status does not allow to make a decision on a claim"
        "Claim status does not allow a decision to be made"
  found ← unwrap checked.1
  still_open ctx bounty.multitasking found.1.slot
  ok (bounty, found.0, found.1)

-- The claim as it is made, before any approval.
abbrev pub new_claim :
    Context
    → Contract
    → ℕ
    → Bounty
    → AccountId
    → Option ℕ
    → Option ℕ
    → String
    → Option ℕ
    → Option ℕ
    → BountyClaim
new_claim ctx c id bounty receiver_id claim_number deadline description proposal_id slot = record {
  owner = receiver_id;
  bounty_id = id;
  created_at = ctx.block_timestamp;
  start_time = none;
  deadline = deadline;
  description = description;
  status = ClaimStatus.new;
  bounty_payout_proposal_id = none;
  approve_claimant_proposal_id = proposal_id;
  rejected_timestamp = none;
  dispute_id = none;
  is_kyc_delayed = none;
  payment_timestamps =
      if is_payment_outside_contract bounty && is_some bounty.multitasking
      then some default_payment_timestamps
      else none;
  slot = slot;
  bond = some c.config.bounty_claim_bond;
  claim_number = claim_number;
}

-- A claim of the same account that has ended is replaced.
abbrev pub store_claim : Contract → Option (ℕ × BountyClaim) → BountyClaim → Result Contract
store_claim c none claim = internal_add_claim c claim
store_claim c (some (claim_id, _)) claim = ok (save_claim c claim_id claim)

abbrev pub checked_or :
    Context
    → Contract
    → ℕ
    → AccountId
    → Option ℕ
    → Option ℕ
    → Option (Bounty × Option (ℕ × BountyClaim))
    → Result (Bounty × Option (ℕ × BountyClaim) × Option ℕ)
checked_or ctx c id receiver_id claim_number slot (some (bounty, claim)) =
    ok (bounty, claim, claim_number)
checked_or ctx c id receiver_id claim_number slot none =
    check_if_allowed_to_create_claim_by_status ctx c id receiver_id slot

unfoldable pub internal_create_claim :
    Context
    → Contract
    → ℕ
    → AccountId
    → Option ℕ
    → Option ℕ
    → String
    → Option ℕ
    → Option ℕ
    → Option (Bounty × Option (ℕ × BountyClaim))
    → Result Contract
internal_create_claim ctx c id receiver_id claim_number deadline description proposal_id slot
      bounty_and_claim =
    do
      checked ← checked_or ctx c id receiver_id claim_number slot bounty_and_claim
      let bounty = checked.0
      let claim =
          new_claim ctx c id bounty receiver_id checked.2 deadline description proposal_id slot
      required ← is_approval_required bounty receiver_id
      started ←
          if required then ok (c, claim) else internal_claimant_approval ctx c id bounty claim none
      stored ← store_claim started.0 checked.1 started.1
      locked_amount ← add u128_bound stored.locked_amount c.config.bounty_claim_bond
      ok (
          internal_update_statistic (record stored { locked_amount = locked_amount })
            (some receiver_id) (some bounty.owner) ReputationActionKind.claim_created)
