-- ===== src/Bounties/Bounty/Split.antt =====
-- `BountyCreate::to_bounty`, bounties/src/types.rs: how the deposit of a new bounty is split into
-- the reward and the commissions.
use heroes_contracts.Prelude.{
  ℕ, Bool, false, ◌-◌, ◌+◌, ◌*◌, ◌/◌, ◌<◌, ◌≤◌, ◌≡◌, Option, none, some, is_none, Result, ok, add,
  mul, sub, div, u128_bound, ◌>>=◌, if◌then◌else◌, unwrap_or, arith, div_bounds, true, ap,
}
use native.Mathlib.Nat.{mul-le-mul_left, le_of_mul-le-mul_right}
use heroes_contracts.Near.{AccountId, Context}
use heroes_contracts.Bounties.Types.{
  BountyStatus, BountyMetadata, Deadline, ClaimantApproval, Reviewers, ReviewersParams,
  KycVerificationMethod, KycConfig, Postpaid, BountyFlow, Config,
}
use heroes_contracts.Bounties.Multitasking
use heroes_contracts.Bounties.Multitasking.{Multitasking}
use heroes_contracts.Bounties.Bounty.{
  Bounty, get_percentage_of_commissions, to_reviewers, postpaid_init,
}

pub record BountyCreate : Type 0 where
  pub metadata : BountyMetadata
  pub deadline : Deadline
  pub claimant_approval : ClaimantApproval
  pub reviewers : Option ReviewersParams
  pub kyc_config : Option KycConfig
  pub postpaid : Option Postpaid
  pub multitasking : Option Multitasking
  pub allow_deadline_stretch : Option Bool
  pub bounty_flow : Option BountyFlow
  pub allow_creating_many_claims : Option Bool

-- One commission of a deposit: nothing for a bounty that is paid outside the contract.
commission : Bool → ℕ → ℕ → ℕ → Result ℕ
commission prepaid amount percentage percentage_dao =
    if prepaid
    then (do
      product ← mul u128_bound amount percentage
      whole ← add u128_bound 100_000 percentage_dao
      div product whole)
    else ok 0

-- The reward, the platform's commission and the DAO's.
unfoldable pub split : Bool → ℕ → ℕ × ℕ → Result (ℕ × ℕ × ℕ)
unfolding commission
split prepaid amount (percentage_platform, percentage_dao) = do
  platform_fee ← commission prepaid amount percentage_platform percentage_dao
  dao_fee ← commission prepaid amount percentage_dao percentage_dao
  without_platform ← sub amount platform_fee
  bounty_amount ← sub without_platform dao_fee
  ok (bounty_amount, platform_fee, dao_fee)

abbrev reviewers_of : Option ReviewersParams → Option Reviewers
reviewers_of none = none
reviewers_of (some p) = some (to_reviewers p)

abbrev init_postpaid : Option Postpaid → Result (Option Postpaid)
init_postpaid none = ok none
init_postpaid (some p) = do q ← postpaid_init p; ok (some q)

abbrev init_multitasking : Option Multitasking → Result (Option Multitasking)
init_multitasking none = ok none
init_multitasking (some m) = do n ← Multitasking.init m; ok (some n)

unfoldable pub to_bounty :
    Context → BountyCreate → AccountId → Option AccountId → ℕ → Config → Result Bounty
to_bounty ctx c payer_id token_id amount config = do
  let reviewers = reviewers_of c.reviewers
  parts ← split (is_none c.postpaid) amount (get_percentage_of_commissions config reviewers)
  postpaid ← init_postpaid c.postpaid
  multitasking ← init_multitasking c.multitasking
  ok (record {
    token = token_id;
    amount = parts.0;
    platform_fee = parts.1;
    dao_fee = parts.2;
    metadata = c.metadata;
    deadline = c.deadline;
    claimant_approval = c.claimant_approval;
    reviewers = reviewers;
    owner = payer_id;
    status = BountyStatus.new;
    created_at = ctx.block_timestamp;
    kyc_config =
        unwrap_or c.kyc_config (KycConfig.kyc_required KycVerificationMethod.when_creating_claim);
    postpaid = postpaid;
    multitasking = multitasking;
    allow_deadline_stretch = unwrap_or c.allow_deadline_stretch false;
    bounty_flow = unwrap_or c.bounty_flow BountyFlow.advanced_flow;
    allow_creating_many_claims = unwrap_or c.allow_creating_many_claims false;
  })

-- No part of the deposit is lost or made up by the split.
split_exact :
    (prepaid : Bool) (amount : ℕ) (percentages : ℕ × ℕ) {parts : ℕ × ℕ × ℕ}
    → split prepaid amount percentages ≡ ok parts
    → parts.0 + parts.1 + parts.2 ≡ amount
unfolding split
split_exact prepaid amount (p, d) h = ground arith

-- The two commissions are rounded down.
split_commissions :
    (amount p d : ℕ) {parts : ℕ × ℕ × ℕ}
    → split true amount (p, d) ≡ ok parts
    → (parts.1 ≡ amount * p / (100_000 + d)) × (parts.2 ≡ amount * d / (100_000 + d))
unfolding split
split_commissions amount p d h = ground arith

to_bounty-split :
    (ctx : Context) (c : BountyCreate) (payer : AccountId) (token : Option AccountId) (amount : ℕ)
    (config : Config) {b : Bounty}
    → to_bounty ctx c payer token amount config ≡ ok b
    → split
        (is_none c.postpaid)
        amount
        (get_percentage_of_commissions config (reviewers_of c.reviewers))
      ≡ ok (b.amount, b.platform_fee, b.dao_fee)
unfolding to_bounty
to_bounty-split ctx c payer token amount config h = ground arith

-- A new bounty holds exactly the deposit: the reward and the two commissions add up to it. It is
-- new and belongs to the payer.
pub to_bounty_conserves :
    (ctx : Context) (c : BountyCreate) (payer : AccountId) (token : Option AccountId) (amount : ℕ)
    (config : Config) {b : Bounty}
    → to_bounty ctx c payer token amount config ≡ ok b
    → (b.amount + b.platform_fee + b.dao_fee ≡ amount)
      × (b.status ≡ BountyStatus.new)
      × (b.owner ≡ payer)
unfolding to_bounty
to_bounty_conserves ctx c payer token amount config h = (
  split_exact _ _ _ (to_bounty-split ctx c payer token amount config h),
  ground arith,
  ground arith,
)

-- In a prepaid bounty with the percentages `p` and `d` in thousandths of a percent, the reward is
-- not below `amount * (100_000 - p) / (100_000 + d)` and exceeds it by less than two units, since
-- the commissions are rounded down.
pub split_reward_bounds :
    (amount p d : ℕ) {parts : ℕ × ℕ × ℕ}
    → split true amount (p, d) ≡ ok parts
    → (amount * 100_000 ≤ parts.0 * (100_000 + d) + amount * p)
      × (parts.0 * (100_000 + d) + amount * p < amount * 100_000 + 2 * (100_000 + d))
split_reward_bounds amount p d {parts} h =
    let e = split_exact true amount (p, d) h in
    let f = split_commissions amount p d h in
    let x = div_bounds (amount * p) (100_000 + d) (omega arith) in
    let y = div_bounds (amount * d) (100_000 + d) (omega arith) in
    let whole : (parts.0 + parts.1 + parts.2) * (100_000 + d) ≡ amount * (100_000 + d) =
      ap (λ (t : ℕ). t * (100_000 + d)) e in
    let platform : parts.1 * (100_000 + d) ≡ amount * p / (100_000 + d) * (100_000 + d) =
      ap (λ (t : ℕ). t * (100_000 + d)) f.0 in
    let dao : parts.2 * (100_000 + d) ≡ amount * d / (100_000 + d) * (100_000 + d) =
      ap (λ (t : ℕ). t * (100_000 + d)) f.1 in
    (omega arith, omega arith)

commissions_fit :
    (amount p d : ℕ)
    → p ≤ 100_000
    → amount * p / (100_000 + d) + amount * d / (100_000 + d) ≤ amount
commissions_fit amount p d hp =
    let x = div_bounds (amount * p) (100_000 + d) (omega arith) in
    let y = div_bounds (amount * d) (100_000 + d) (omega arith) in
    let share : amount * p ≤ amount * 100_000 = mul-le-mul_left amount hp in
    le_of_mul-le-mul_right {k = 100_000 + d} (omega arith) (omega arith)

-- The split succeeds for every deposit whose product with 100_000 fits 128 bits, if neither
-- percentage is above a hundred percent.
pub split_total :
    (prepaid : Bool) (amount p d : ℕ)
    → p ≤ 100_000
    → d ≤ 100_000
    → amount * 100_000 < u128_bound
    → (parts : ℕ × ℕ × ℕ) × (split prepaid amount (p, d) ≡ ok parts)
unfolding split
split_total true amount p d hp hd ha =
    let platform : amount * p < u128_bound = omega (arith, mul-le-mul_left amount hp) in
    let dao : amount * d < u128_bound = omega (arith, mul-le-mul_left amount hd) in
    (
      (
        amount - amount * p / (100_000 + d) - amount * d / (100_000 + d),
        amount * p / (100_000 + d),
        amount * d / (100_000 + d),
      ),
      ground (arith, commissions_fit amount p d hp),
    )
split_total false amount p d hp hd ha = ((amount, 0, 0), ground arith)
