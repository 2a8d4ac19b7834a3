-- ===== src/Bounties/Creation.antt =====
-- Creating a bounty: `bounty_create` of bounties/src/lib.rs, `ft_on_transfer` of
-- bounties/src/receiver.rs and what they call in bounties/src/internal.rs.
use heroes_contracts.Prelude.{
  ℕ, String, string_eq, Bool, not, ◌||◌, ◌++◌, leb, ◌==◌, any, if◌then◌else◌, contains, Option,
  none, some, is_some, is_none, unwrap_or, List, [], ◌∷◌, Result, ok, assert, expect, unwrap,
  unreachable, add, u64_bound, ◌>>=◌, ◌>>◌,
}
use heroes_contracts.Near.{AccountId, Context, assert_one_yocto}
use heroes_contracts.Bounties.Types.{
  BountyMetadata, Config, Deadline, KycConfig, Postpaid, ReputationActionKind,
}
use heroes_contracts.Bounties.Bounty.{Bounty, get_deadline_type, get_deadline_value}
use heroes_contracts.Bounties.Bounty.Split.{BountyCreate, to_bounty}
use heroes_contracts.Bounties.Bounty.Valid.{assert_valid}
use heroes_contracts.Bounties.Contract.{
  Contract, assert_live, internal_update_bounty, internal_save_account_bounties,
  internal_update_statistic,
}
use heroes_contracts.Bounties.Commissions.{internal_total_fees_receiving_funds}

unfoldable pub assert_that_token_is_allowed : Contract → AccountId → Result (Unit {0})
assert_that_token_is_allowed c account_id = do
  details ← expect (c.tokens account_id) "Predecessor account ID is not an allowed FT contract"
  assert details.enabled "Creating a bounty using this token is not currently supported"

-- `entries.contains(&entry)`.
abbrev pub has_entry : List String → String → Bool
has_entry entries entry = any (λ e. string_eq e entry) entries

abbrev pub assert_bounty_category_is_correct : Config → String → Result (Unit {0})
assert_bounty_category_is_correct config category =
    assert (has_entry config.categories category) "Invalid bounty type {}"

abbrev pub assert_bounty_tags_are_correct : Config → List String → Result (Unit {0})
assert_bounty_tags_are_correct config [] = ok tt
assert_bounty_tags_are_correct config (tag ∷ tags) = do
  assert (has_entry config.tags tag) "Invalid bounty tag {}"
  assert_bounty_tags_are_correct config tags

abbrev pub assert_bounty_currency_is_correct : Config → String → Result (Unit {0})
assert_bounty_currency_is_correct config currency =
    assert (has_entry config.currencies currency) "Invalid currency {}"

abbrev pub assert_postpaid_currency : Config → Option Postpaid → Result (Unit {0})
assert_postpaid_currency config none = ok tt
assert_postpaid_currency config (some (Postpaid.payment_outside_contract currency timestamps)) =
    assert_bounty_currency_is_correct config currency
assert_postpaid_currency config (some (Postpaid.payment_outside_contract_v1 _)) = unreachable

abbrev pub assert_kyc_contract : Contract → KycConfig → Result (Unit {0})
assert_kyc_contract c KycConfig.kyc_not_required = ok tt
assert_kyc_contract c (KycConfig.kyc_required _) =
    assert (is_some c.kyc_whitelist_contract) "KYC whitelist contract is not set"

abbrev pub assert_due_date : Context → Option ℕ → Deadline → Result (Unit {0})
assert_due_date ctx none deadline = ok tt
assert_due_date ctx (some period) deadline =
    if get_deadline_type deadline == 1
    then (do
      date ← get_deadline_value deadline
      end ← add u64_bound ctx.block_timestamp period
      assert (leb date end) "Incorrect due date")
    else ok tt

unfoldable pub check_bounty : Context → Contract → Bounty → Result (Unit {0})
check_bounty ctx c bounty = do
  assert_valid ctx bounty
  assert_bounty_category_is_correct c.config bounty.metadata.category
  assert_bounty_tags_are_correct c.config (unwrap_or bounty.metadata.tags [])
  assert_postpaid_currency c.config bounty.postpaid
  assert_kyc_contract c bounty.kyc_config
  assert_due_date ctx c.config.max_due_date bounty.deadline

-- The tags that the configuration has; no list where none is left.
abbrev kept_tags : Config → List String → List String
kept_tags config [] = []
kept_tags config (tag ∷ tags) =
    let rest = kept_tags config tags in if has_entry config.tags tag then tag ∷ rest else rest

abbrev listed : List String → Option (List String)
listed [] = none
listed (tag ∷ tags) = some (tag ∷ tags)

abbrev filtered_tags : Config → Option (List String) → Option (List String)
filtered_tags config none = none
filtered_tags config (some tags) = listed (kept_tags config tags)

unfoldable pub internal_tag_filter : Contract → Bounty → Bounty
internal_tag_filter c bounty =
    let metadata : BountyMetadata = record bounty.metadata {
      tags = filtered_tags c.config bounty.metadata.tags;
    } in
    record bounty { metadata = metadata }

-- The state in which the bounty is stored and listed under the next index.
abbrev pub added : Contract → Bounty → ℕ → Contract
added c bounty last =
    let stored = internal_update_bounty c c.last_bounty_id bounty in
    let indices = unwrap_or (stored.account_bounties bounty.owner) [] in
    record (internal_save_account_bounties stored bounty.owner
      (indices ++ (c.last_bounty_id ∷ []))) { last_bounty_id = last }

unfoldable pub internal_add_bounty : Contract → Bounty → Result (ℕ × Contract)
internal_add_bounty c bounty = do
  last ← add u64_bound c.last_bounty_id 1
  booked ←
      internal_total_fees_receiving_funds (added c bounty last) bounty bounty.platform_fee
        bounty.dao_fee
  ok (
    c.last_bounty_id,
    internal_update_statistic booked none (some bounty.owner) ReputationActionKind.bounty_created,
  )

unfoldable pub internal_create_bounty :
    Context → Contract → BountyCreate → AccountId → Option AccountId → ℕ → Result Contract
internal_create_bounty ctx c bounty_create payer_id token_id amount = do
  made ← to_bounty ctx bounty_create payer_id token_id amount c.config
  let bounty = internal_tag_filter c made
  check_bounty ctx c bounty
  created ← internal_add_bounty c bounty
  ok created.1

abbrev pub assert_token : Contract → Option AccountId → Result (Unit {0})
assert_token c none = ok tt
assert_token c (some token_id) = assert_that_token_is_allowed c token_id

unfoldable pub bounty_create :
    Context → Contract → BountyCreate → Option AccountId → ℕ → Result Contract
bounty_create ctx c create token_id amount = do
  assert_live c
  assert_one_yocto ctx
  assert (is_some create.postpaid) "The postpaid parameter is incorrect"
  assert (contains c.postpaid_subscribers_whitelist ctx.predecessor)
      "You are not allowed to create postpaid bounties"
  assert_token c token_id
  internal_create_bounty ctx c create ctx.predecessor token_id amount

-- `serde_json::from_str` on the message of the transfer; `none` is an error.
module _ (from_str : String → Option BountyCreate) where
  -- The amount of the transfer that is returned, and the state. The caller is the token.
  unfoldable pub ft_on_transfer :
      Context → Contract → AccountId → ℕ → String → Result (ℕ × Contract)
  ft_on_transfer ctx c sender_id amount msg = do
    assert_live c
    assert_that_token_is_allowed c ctx.predecessor
    assert (not c.config.use_owners_whitelist || contains c.owners_whitelist sender_id)
        "You are not allowed to create bounties"
    create ← unwrap (from_str msg)
    assert (is_none create.postpaid) "The postpaid parameter is incorrect"
    created ← internal_create_bounty ctx c create sender_id (some ctx.predecessor) amount
    ok (0, created)
