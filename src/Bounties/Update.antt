-- ===== src/Bounties/Update.antt =====
-- `bounty_update`, bounties/src/lib.rs. The bounty that the claims are tested with is the stored
-- one: no change of the method is about its status or its mode.
use heroes_contracts.Prelude.{
  ℕ, Bool, true, false, not, ◌&&◌, ◌||◌, ◌==◌, any, ltb, if◌then◌else◌, contains, Option, none,
  some, is_some, is_none, List, [], ◌∷◌, Result, ok, panic, assert, unwrap, ◌>>=◌, ◌>>◌,
}
use heroes_contracts.Near.{AccountId, Context}
use heroes_contracts.Bounties.Types.{
  BountyStatus, ClaimStatus, BountyMetadata, Deadline, ClaimantApproval, Reviewers, ReviewersParams,
  bounty_status_eq, claim_status_eq,
}
use heroes_contracts.Bounties.Bounty.{
  Bounty, get_deadline_type, get_deadline_value, to_reviewers, get_payment_timestamps,
  is_contest_or_hackathon, is_payment_outside_contract,
}
use heroes_contracts.Bounties.Claim.{BountyClaim}
use heroes_contracts.Bounties.Contract.{Contract, assert_live, get_bounty, internal_update_bounty}
use heroes_contracts.Bounties.Lookup.{
  has_bounty_status, has_claim_status, internal_get_claims_by_bounty_id,
}
use heroes_contracts.Bounties.Creation.{check_bounty}

pub record BountyUpdate : Type 0 where
  pub metadata : Option BountyMetadata
  pub deadline : Option Deadline
  pub claimant_approval : Option ClaimantApproval
  pub reviewers : Option ReviewersParams
  pub amount : Option ℕ

-- A claim that has been started, or is waiting for its start.
abbrev pub is_started : Bounty → BountyClaim → Bool
is_started bounty claim =
    has_claim_status
      (ClaimStatus.in_progress ∷ ClaimStatus.competes ∷ ClaimStatus.ready_to_start ∷ [])
      claim.status
    || (claim_status_eq claim.status ClaimStatus.completed
        && is_contest_or_hackathon bounty
        && bounty_status_eq bounty.status BountyStatus.new)

abbrev pub has_found_claim : Bounty → List (ℕ × BountyClaim) → Bool
has_found_claim bounty claims =
    any (λ c. claim_status_eq c.1.status ClaimStatus.new || is_started bounty c.1) claims

abbrev pub is_untouched : Bool → Bounty → Bool
is_untouched found_claim bounty = not found_claim && bounty_status_eq bounty.status BountyStatus.new

abbrev pub update_metadata : Bool → Bounty → Option BountyMetadata → Result Bounty
update_metadata found_claim bounty none = ok bounty
update_metadata found_claim bounty (some metadata) = do
  assert (is_untouched found_claim bounty) "Metadata cannot be changed if there are already claims"
  ok (record bounty { metadata = metadata })

-- Whether both are lists of the same kind.
abbrev pub are_whitelists : ClaimantApproval → ClaimantApproval → Bool
are_whitelists (ClaimantApproval.approval_by_whitelist _)
      (ClaimantApproval.approval_by_whitelist _) =
    true
are_whitelists (ClaimantApproval.whitelist_with_approvals _)
      (ClaimantApproval.whitelist_with_approvals _) =
    true
are_whitelists _ _ = false

abbrev pub assert_whitelisted_claims :
    Bounty → List (ℕ × BountyClaim) → ClaimantApproval → Result (Unit {0})
assert_whitelisted_claims bounty claims (ClaimantApproval.approval_by_whitelist whitelist) =
    assert (not (any (λ c. not (contains whitelist c.1.owner) && is_started bounty c.1) claims))
      "Approval settings cannot be changed if there are non-whitelisted claims"
assert_whitelisted_claims bounty claims _ = ok tt

abbrev pub update_claimant_approval :
    Bool → List (ℕ × BountyClaim) → Bounty → Option ClaimantApproval → Result Bounty
update_claimant_approval found_claim claims bounty none = ok bounty
update_claimant_approval found_claim claims bounty (some approval) = do
  assert (is_untouched found_claim bounty || are_whitelists bounty.claimant_approval approval)
      "The approval setting cannot be changed to this value"
  assert_whitelisted_claims bounty claims approval
  ok (record bounty { claimant_approval = approval })

abbrev pub is_unlimited : Deadline → Bool
is_unlimited Deadline.without_deadline = true
is_unlimited _ = false

-- With claims, a deadline can be dropped, or replaced by a later one of the same type.
abbrev pub assert_later_deadline : Deadline → Deadline → Result (Unit {0})
assert_later_deadline old new = do
  assert (not (is_unlimited old)) "The deadline cannot be limited if there are already claims"
  if is_unlimited new then ok tt else (do
    assert (get_deadline_type old == get_deadline_type new)
        "The type of deadline cannot be changed if there are already claims"
    after ← get_deadline_value new
    before ← get_deadline_value old
    assert (ltb before after) "The deadline can be increased only in the upward direction")

abbrev pub update_deadline : Bool → Bounty → Option Deadline → Result Bounty
update_deadline found_claim bounty none = ok bounty
update_deadline found_claim bounty (some deadline) = do
  if found_claim then assert_later_deadline bounty.deadline deadline else ok tt
  ok (record bounty { deadline = deadline })

abbrev pub accounts_eq : List AccountId → List AccountId → Bool
accounts_eq [] [] = true
accounts_eq (x ∷ xs) (y ∷ ys) = (x == y) && accounts_eq xs ys
accounts_eq _ _ = false

-- The other reviewers are not those that the bounty has.
abbrev pub assert_other_reviewers : Option Reviewers → List AccountId → Result (Unit {0})
assert_other_reviewers none accounts = ok tt
assert_other_reviewers (some (Reviewers.more_reviewers before)) accounts =
    assert (not (accounts_eq accounts before)) "The list of reviewers has not changed"
assert_other_reviewers (some (Reviewers.validators_dao _)) accounts =
    panic "Validators DAO settings cannot be changed"

abbrev pub reviewers_or_none : List AccountId → Option Reviewers
reviewers_or_none [] = none
reviewers_or_none (x ∷ xs) = some (to_reviewers (ReviewersParams.more_reviewers (x ∷ xs)))

abbrev pub is_dao_of : Option Reviewers → Bool
is_dao_of (some (Reviewers.validators_dao _)) = true
is_dao_of _ = false

abbrev pub more_reviewers_of : ReviewersParams → Result (List AccountId)
more_reviewers_of (ReviewersParams.more_reviewers accounts) = ok accounts
more_reviewers_of (ReviewersParams.validators_dao _) =
    panic "It is not possible to start using Validators DAO after creating a bounty"

abbrev pub update_reviewers : Bounty → Option ReviewersParams → Result Bounty
update_reviewers bounty none = ok bounty
update_reviewers bounty (some params) = do
  assert (bounty_status_eq bounty.status BountyStatus.new) "Bounty status does not allow updating"
  assert (not (is_dao_of bounty.reviewers)) "Validators DAO settings cannot be changed"
  accounts ← more_reviewers_of params
  assert_other_reviewers bounty.reviewers accounts
  ok (record bounty { reviewers = reviewers_or_none accounts })

abbrev pub update_amount : Bounty → Option ℕ → Result Bounty
update_amount bounty none = ok bounty
update_amount bounty (some amount) = do
  assert (ltb 0 amount) "The bounty amount cannot be zero"
  assert (is_payment_outside_contract bounty && is_none bounty.multitasking)
      "The amount of the bounty cannot be changed"
  postpaid ← unwrap bounty.postpaid
  timestamps ← get_payment_timestamps postpaid
  assert (is_none timestamps.payment_at)
      "The amount of the bounty cannot be changed after the payment has been confirmed"
  ok (record bounty { amount = amount })

abbrev pub is_change : BountyUpdate → Bool
is_change update =
    is_some update.metadata
    || is_some update.claimant_approval
    || is_some update.deadline
    || is_some update.reviewers
    || is_some update.amount

abbrev pub is_updatable : Bounty → Bool
is_updatable bounty =
    has_bounty_status
      (BountyStatus.new ∷ BountyStatus.claimed ∷ BountyStatus.many_claimed
        ∷ BountyStatus.awaiting_claims ∷ [])
      bounty.status

-- The changes, in the order of the method.
abbrev pub updated : Bounty → List (ℕ × BountyClaim) → BountyUpdate → Result Bounty
updated bounty claims update = do
  let found_claim = has_found_claim bounty claims
  b1 ← update_metadata found_claim bounty update.metadata
  b2 ← update_claimant_approval found_claim claims b1 update.claimant_approval
  b3 ← update_deadline found_claim b2 update.deadline
  b4 ← update_reviewers b3 update.reviewers
  update_amount b4 update.amount

unfoldable pub bounty_update : Context → Contract → ℕ → BountyUpdate → Result Contract
bounty_update ctx c id update = do
  assert_live c
  bounty ← get_bounty c id
  assert (is_updatable bounty) "Bounty status does not allow updating"
  assert (bounty.owner == ctx.predecessor) "Only the owner of the bounty can call this method"
  claims ← internal_get_claims_by_bounty_id c id
  changed ← updated bounty claims update
  assert (is_change update) "No changes found"
  check_bounty ctx c changed
  ok (internal_update_bounty c id changed)
