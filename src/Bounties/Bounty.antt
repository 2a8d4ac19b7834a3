-- ===== src/Bounties/Bounty.antt =====
-- `Bounty` and its methods, `BountyCreate::to_bounty`, `Deadline`, `Reviewers`, `ClaimantApproval`
-- and `Postpaid`: bounties/src/types.rs. `Bounty/Valid.antt` has `assert_valid`.
pub mod Valid
pub mod Split
pub mod Access
use heroes_contracts.Prelude.{
  ℕ, String, Bool, true, false, not, ◌&&◌, ◌||◌, ◌==◌, ltb, leb, if◌then◌else◌, contains, Option,
  none, some, is_some, is_none, unwrap_or, List, ◌++◌, [], ◌∷◌, Result, ok, panic, assert,
  unreachable, add, mul, sub, div, u64_bound, u128_bound, ◌>>=◌, ◌>>◌,
}
use heroes_contracts.Near.{AccountId, Context}
use heroes_contracts.Bounties.Types.{
  BountyStatus, BountyMetadata, Deadline, ClaimantApproval, ValidatorsDao, ValidatorsDaoParams,
  Reviewers, ReviewersParams, KycVerificationMethod, KycConfig, PaymentTimestamps, Postpaid,
  BountyFlow, Config, bounty_status_eq,
}
use heroes_contracts.Bounties.Multitasking
use heroes_contracts.Bounties.Multitasking.{
  Multitasking, is_competition_mode, is_one_for_all_mode, is_different_tasks_mode,
}

pub record Bounty : Type 0 where
  pub token : Option AccountId
  pub amount : ℕ  -- u128, as the fees
  pub platform_fee : ℕ
  pub dao_fee : ℕ
  pub metadata : BountyMetadata
  pub deadline : Deadline
  pub claimant_approval : ClaimantApproval
  pub reviewers : Option Reviewers
  pub owner : AccountId
  pub status : BountyStatus
  pub created_at : ℕ
  pub kyc_config : KycConfig
  pub postpaid : Option Postpaid
  pub multitasking : Option Multitasking
  pub allow_deadline_stretch : Bool
  pub bounty_flow : BountyFlow
  pub allow_creating_many_claims : Bool

-- `Deadline::get_deadline_type`.
abbrev pub get_deadline_type : Deadline → ℕ
get_deadline_type (Deadline.due_date _) = 1
get_deadline_type (Deadline.max_deadline _) = 2
get_deadline_type Deadline.without_deadline = 3

-- `Deadline::get_deadline_value`.
abbrev pub get_deadline_value : Deadline → Result ℕ
get_deadline_value (Deadline.due_date t) = ok t
get_deadline_value (Deadline.max_deadline t) = ok t
get_deadline_value Deadline.without_deadline = panic "No value"

-- `ClaimantApproval::not_allowed_to_create_claim`.
unfoldable pub not_allowed_to_create_claim : ClaimantApproval → AccountId → Result Bool
not_allowed_to_create_claim (ClaimantApproval.approval_by_whitelist whitelist) account =
    ok (not (contains whitelist account))
not_allowed_to_create_claim (ClaimantApproval.whitelist_with_approvals whitelist) account =
    ok (not (contains whitelist account))
not_allowed_to_create_claim ClaimantApproval.approval_with_whitelist account =
    panic "ApprovalWithWhitelist is not supported"
not_allowed_to_create_claim _ account = ok false

-- `ValidatorsDaoParams::to_validators_dao`, with the three default amounts of gas.
abbrev pub to_validators_dao : ValidatorsDaoParams → ValidatorsDao
to_validators_dao p = record {
  account_id = p.account_id;
  add_proposal_bond = p.add_proposal_bond;
  gas_for_add_proposal = unwrap_or p.gas_for_add_proposal 25_000_000_000_000;
  gas_for_claim_approval = unwrap_or p.gas_for_claim_approval 70_000_000_000_000;
  gas_for_claimant_approval = unwrap_or p.gas_for_claimant_approval 120_000_000_000_000;
}

-- `ReviewersParams::to_reviewers`.
abbrev pub to_reviewers : ReviewersParams → Reviewers
to_reviewers (ReviewersParams.validators_dao p) = Reviewers.validators_dao (to_validators_dao p)
to_reviewers (ReviewersParams.more_reviewers accounts) = Reviewers.more_reviewers accounts

abbrev pub default_payment_timestamps : PaymentTimestamps
default_payment_timestamps = record { payment_at = none; payment_confirmed_at = none }

-- `Postpaid::init`.
abbrev pub postpaid_init : Postpaid → Result Postpaid
postpaid_init (Postpaid.payment_outside_contract currency timestamps) = do
  assert (is_none timestamps) "The PaymentTimestamps instance is already initialized"
  ok (Postpaid.payment_outside_contract currency (some default_payment_timestamps))
postpaid_init (Postpaid.payment_outside_contract_v1 _) = unreachable

-- `Postpaid::get_payment_timestamps`.
abbrev pub get_payment_timestamps : Postpaid → Result PaymentTimestamps
get_payment_timestamps (Postpaid.payment_outside_contract _ timestamps) =
    ok (unwrap_or timestamps default_payment_timestamps)
get_payment_timestamps (Postpaid.payment_outside_contract_v1 _) = unreachable

abbrev is_contest : Option Multitasking → Bool
is_contest none = false
is_contest (some m) = is_competition_mode m

abbrev is_one_for_all : Option Multitasking → Bool
is_one_for_all none = false
is_one_for_all (some m) = is_one_for_all_mode m

abbrev is_tasks : Option Multitasking → Bool
is_tasks none = false
is_tasks (some m) = is_different_tasks_mode m

abbrev is_outside : Option Postpaid → Bool
is_outside (some (Postpaid.payment_outside_contract _ _)) = true
is_outside _ = false

abbrev is_dao : Option Reviewers → Bool
is_dao (some (Reviewers.validators_dao _)) = true
is_dao _ = false

abbrev pub is_contest_or_hackathon : Bounty → Bool
is_contest_or_hackathon b = is_contest b.multitasking

abbrev pub is_one_bounty_for_many_claimants : Bounty → Bool
is_one_bounty_for_many_claimants b = is_one_for_all b.multitasking

abbrev pub is_different_tasks : Bounty → Bool
is_different_tasks b = is_tasks b.multitasking

abbrev pub is_payment_outside_contract : Bounty → Bool
is_payment_outside_contract b = is_outside b.postpaid

abbrev pub is_validators_dao_used : Bounty → Bool
is_validators_dao_used b = is_dao b.reviewers

-- `check_access_rights` for the reviewers and the owner given.
abbrev pub access_rights : Option Reviewers → AccountId → AccountId → Result (Unit {0})
access_rights (some (Reviewers.validators_dao dao)) owner sender =
    assert (dao.account_id == sender) "This method can only call DAO validators"
access_rights (some (Reviewers.more_reviewers accounts)) owner sender =
    assert (contains (accounts ++ owner ∷ []) sender)
      "This method can only be called by one of the reviewers"
access_rights none owner sender =
    assert (owner == sender) "Only the owner of the bounty can call this method"

unfoldable pub check_access_rights : Context → Bounty → Result (Unit {0})
check_access_rights ctx b = access_rights b.reviewers b.owner ctx.predecessor

abbrev delegate : Option Reviewers → AccountId → AccountId
delegate (some (Reviewers.validators_dao dao)) owner = dao.account_id
delegate _ owner = owner

abbrev pub get_bounty_owner_delegate : Bounty → AccountId
get_bounty_owner_delegate b = delegate b.reviewers b.owner

abbrev not_reviewer : Option Reviewers → AccountId → Result (Unit {0})
not_reviewer (some (Reviewers.more_reviewers accounts)) account =
    assert (not (contains accounts account)) "The predecessor cannot be one of the reviewers"
not_reviewer (some (Reviewers.validators_dao dao)) account =
    assert (not (dao.account_id == account)) "The predecessor cannot be a validators DAO"
not_reviewer none account = ok tt

unfoldable pub assert_account_is_not_owner_or_reviewer : Bounty → AccountId → Result (Unit {0})
assert_account_is_not_owner_or_reviewer b account = do
  assert (not (b.owner == account)) "The predecessor cannot be a bounty owner"
  not_reviewer b.reviewers account

abbrev pub is_simple : BountyFlow → Bool
is_simple BountyFlow.simple_bounty = true
is_simple BountyFlow.advanced_flow = false

abbrev simple_deadline_open : Context → Deadline → Bool
simple_deadline_open ctx (Deadline.due_date t) = leb ctx.block_timestamp t
simple_deadline_open ctx _ = true

-- The asserts at the head of `is_claim_deadline_correct`.
abbrev claim_deadline_present : Context → Bounty → Option ℕ → Result (Unit {0})
claim_deadline_present ctx b claim_deadline =
    if is_simple b.bounty_flow
    then (do
      assert (is_none claim_deadline) "This bounty does not have a claim deadline"
      assert (simple_deadline_open ctx b.deadline)
          "You can only create a claim until the bounty expires")
    else (if b.allow_deadline_stretch
        then ok tt
        else assert (is_some claim_deadline)
            "For this bounty, you need to specify a claim deadline")

abbrev claim_deadline_fits : Context → Deadline → Option ℕ → Result Bool
claim_deadline_fits ctx _ none = ok true
claim_deadline_fits ctx (Deadline.due_date t) (some d) = do
  ends ← add u64_bound ctx.block_timestamp d
  ok (leb ends t)
claim_deadline_fits ctx (Deadline.max_deadline m) (some d) = ok (leb d m)
claim_deadline_fits ctx Deadline.without_deadline (some d) = ok true

unfoldable pub is_claim_deadline_correct : Context → Bounty → Option ℕ → Result Bool
is_claim_deadline_correct ctx b claim_deadline = do
  claim_deadline_present ctx b claim_deadline
  claim_deadline_fits ctx b.deadline claim_deadline

-- The percentages of the platform and of the DAO, in thousandths of a percent.
abbrev pub get_percentage_of_commissions : Config → Option Reviewers → ℕ × ℕ
get_percentage_of_commissions config reviewers = (
  config.platform_fee_percentage,
  if is_dao reviewers then config.validators_dao_fee_percentage else 0,
)
