-- ===== src/Bounties/Contract.antt =====
-- The state of `BountiesContract`, bounties/src/lib.rs, the promises that it schedules, and the
-- smallest internal methods, bounties/src/internal.rs and view.rs.
use heroes_contracts.Prelude.{
  ℕ, String, Bool, ◌==◌, contains, Option, none, some, unwrap_or, List, [], ◌∷◌, Result, ok, assert,
  expect, add, sub, u128_bound, ◌>>=◌, if◌then◌else◌, LookupMap, insert, remove,
}
use heroes_contracts.Near.{AccountId}
use heroes_contracts.Bounties.Types.{
  BountyStatus, ContractStatus, ReputationActionKind, Config, Claimant, DefermentOfKyc,
  default_bounty_claim_bond,
}
use heroes_contracts.Bounties.Bounty.{Bounty}
use heroes_contracts.Bounties.Claim.{BountyClaim}
use heroes_contracts.Bounties.FeeStats.{FeeStats}

pub record TokenDetails : Type 0 where
  pub enabled : Bool
  pub min_amount_for_kyc : Option ℕ

pub record DaoFeeStats : Type 0 where
  pub token_id : AccountId
  pub fee_stats : FeeStats

pub data PlaceOfCheckKyc : Type 0 where
  creating_claim : Option ℕ → String → PlaceOfCheckKyc
  decision_on_claim : Option DefermentOfKyc → PlaceOfCheckKyc
  claim_done : String → PlaceOfCheckKyc

-- The method of this contract that is called when a promise has ended, with its arguments.
pub data Callback : Type 0 where
  on_added_proposal_callback : ℕ → AccountId → Option ℕ → Callback
  after_add_proposal : ℕ → AccountId → Option ℕ → String → Option ℕ → Callback
  after_ft_transfer : ℕ → Option Claimant → ℕ × ℕ × ℕ → Option ℕ → Callback
  after_bounty_withdraw : ℕ → AccountId → Option ℕ → ℕ → Callback
  after_refund_bounty_amount : ℕ → Callback
  after_fees_payout : AccountId → ℕ → Bool → AccountId → Callback
  after_check_bounty_payout_proposal : ℕ → Option Claimant → ℕ → Callback
  after_check_approve_claimant_proposal : ℕ → AccountId → Option ℕ → ℕ → Callback
  after_create_dispute after_get_dispute : ℕ → AccountId → Option ℕ → Callback
  after_get_ft_metadata : AccountId → Option ℕ → Callback
  after_check_if_whitelisted : ℕ → AccountId → Option ℕ → PlaceOfCheckKyc → Option ℕ → Callback

-- A call of another contract, without its gas and the texts that only its receiver reads.
pub data Receipt : Type 0 where
  transfer : AccountId → ℕ → Receipt  -- receiver, amount in yoctoNEAR
  ft_transfer : AccountId → AccountId → ℕ → Callback → Receipt  -- token, receiver, amount
  emit : AccountId → Option AccountId → Option AccountId → ReputationActionKind → Receipt
  add_proposal : AccountId → ℕ → Callback → Receipt  -- DAO, bond
  get_proposal : AccountId → ℕ → Callback → Receipt  -- DAO, proposal
  create_dispute : AccountId → ℕ → String → AccountId → AccountId → Option ℕ → Callback → Receipt
  get_dispute : AccountId → ℕ → Callback → Receipt
  is_whitelisted : AccountId → AccountId → Callback → Receipt
  ft_metadata : AccountId → Callback → Receipt  -- token

-- `old_bounty_claimants` and `old_bounty_claimant_accounts` serve only migrations. `receipts` are
-- the promises scheduled so far, the oldest last.
pub record Contract : Type 0 where
  pub tokens : LookupMap TokenDetails
  pub last_bounty_id : ℕ
  pub bounties : LookupMap Bounty
  pub account_bounties : LookupMap (List ℕ)
  pub locked_amount : ℕ
  pub unlocked_amount : ℕ
  pub admins_whitelist : List AccountId
  pub config : Config
  pub reputation_contract : Option AccountId
  pub dispute_contract : Option AccountId
  pub kyc_whitelist_contract : Option AccountId
  pub owners_whitelist : List AccountId
  pub postpaid_subscribers_whitelist : List AccountId
  pub total_fees : LookupMap FeeStats
  pub total_validators_dao_fees : LookupMap (List DaoFeeStats)
  pub recipient_of_platform_fee : Option AccountId
  pub status : ContractStatus
  pub last_claim_id : ℕ
  pub claims : LookupMap BountyClaim
  pub bounty_claimants : LookupMap (List ℕ)
  pub bounty_claims : LookupMap (List ℕ)
  pub receipts : List Receipt

abbrev pub schedule : Contract → Receipt → Contract
schedule c r = record c { receipts = r ∷ c.receipts }

abbrev is_live : ContractStatus → Bool
is_live ContractStatus.live = Bool.true
is_live _ = Bool.false

abbrev pub assert_live : Contract → Result (Unit {0})
assert_live c = assert (is_live c.status) "The contract status is not Live"

abbrev pub assert_admins_whitelist : Contract → AccountId → Result (Unit {0})
assert_admins_whitelist c account =
    assert (contains c.admins_whitelist account) "Not in admin whitelist"

abbrev pub get_bounty : Contract → ℕ → Result Bounty
get_bounty c id = expect (c.bounties id) "Bounty not found"

abbrev pub get_bounty_claim : Contract → ℕ → Result BountyClaim
get_bounty_claim c id = expect (c.claims id) "No claim found"

abbrev pub internal_update_bounty : Contract → ℕ → Bounty → Contract
internal_update_bounty c id bounty = record c { bounties = insert c.bounties id bounty }

abbrev pub internal_change_status_and_save_bounty : Contract → ℕ → Bounty → BountyStatus → Contract
internal_change_status_and_save_bounty c id bounty status =
    internal_update_bounty c id (record bounty { status = status })

-- `self.claims.insert(&claim_id, &claim)`.
abbrev pub save_claim : Contract → ℕ → BountyClaim → Contract
save_claim c claim_id claim = record c { claims = insert c.claims claim_id claim }

abbrev pub emit_to :
    Option AccountId
    → Contract
    → Option AccountId
    → Option AccountId
    → ReputationActionKind
    → Contract
emit_to none c receiver owner action = c
emit_to (some reputation) c receiver owner action =
    schedule c (emit reputation receiver owner action)

abbrev pub internal_update_statistic :
    Contract → Option AccountId → Option AccountId → ReputationActionKind → Contract
internal_update_statistic c receiver owner action =
    emit_to c.reputation_contract c receiver owner action

-- The bond of a claim; claims made before bonds were stored have the default one.
abbrev pub bond_of : Option ℕ → ℕ
bond_of bond = unwrap_or bond default_bounty_claim_bond

unfoldable pub internal_return_bonds : Contract → AccountId → Option ℕ → Result Contract
internal_return_bonds c receiver_id bond = if bond_of bond == 0 then ok c else (do
  locked_amount ← sub c.locked_amount (bond_of bond)
  ok (schedule (record c { locked_amount = locked_amount }) (transfer receiver_id (bond_of bond))))

unfoldable pub internal_unlock_non_refunded_bond : Contract → Option ℕ → Result Contract
internal_unlock_non_refunded_bond c bond = if bond_of bond == 0 then ok c else (do
  locked_amount ← sub c.locked_amount (bond_of bond)
  unlocked_amount ← add u128_bound c.unlocked_amount (bond_of bond)
  ok (record c { locked_amount = locked_amount; unlocked_amount = unlocked_amount }))

abbrev save_indices : LookupMap (List ℕ) → AccountId → List ℕ → LookupMap (List ℕ)
save_indices m account [] = remove m account
save_indices m account (i ∷ is) = insert m account (i ∷ is)

abbrev pub internal_save_account_bounties : Contract → AccountId → List ℕ → Contract
internal_save_account_bounties c account indices = record c {
  account_bounties = save_indices c.account_bounties account indices;
}
