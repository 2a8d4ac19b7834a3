-- ===== src/Bounties/Admin.antt =====
-- The administrators' methods, bounties/src/lib.rs.
use heroes_contracts.Prelude.{
  ℕ, ◌*◌, unwrap_or, String, string_eq, Bool, true, false, not, ◌||◌, ◌==◌, Option, none, some,
  is_some, is_none, List, [], ◌∷◌, ◌++◌, position, remove_at, Result, ok, assert, expect, ◌>>=◌,
  ◌>>◌, insert, insert_all, remove_all, set_is_empty, empty,
}
use heroes_contracts.Near.{AccountId, Context}
use heroes_contracts.Bounties.Types.{ContractStatus, Config, default_bounty_claim_bond}
use heroes_contracts.Bounties.Contract.{
  Contract, TokenDetails, after_get_ft_metadata, ft_metadata, schedule, assert_live,
  assert_admins_whitelist,
}

-- `Config::default()`.
abbrev pub default_config : Config
default_config = record {
  bounty_claim_bond = default_bounty_claim_bond;
  bounty_forgiveness_period = 1_000_000_000 * 60 * 60 * 24;
  period_for_opening_dispute = 1_000_000_000 * 60 * 60 * 24 * 10;
  categories = "Marketing" ∷ "Development" ∷ "Design" ∷ "Other" ∷ [];
  tags =
      "API" ∷ "Blockchain" ∷ "Community" ∷ "CSS" ∷ "DAO" ∷ "dApp" ∷ "DeFi" ∷ "Design"
      ∷ "Documentation" ∷ "HTML" ∷ "Javascript" ∷ "NFT" ∷ "React" ∷ "Rust" ∷ "Smart contract"
      ∷ "Typescript" ∷ "UI/UX" ∷ "web3" ∷ [];
  platform_fee_percentage = 10_000;
  validators_dao_fee_percentage = 10_000;
  penalty_platform_fee_percentage = 0;
  penalty_validators_dao_fee_percentage = 0;
  currencies = [];
  use_owners_whitelist = false;
  max_due_date = some (1_000_000_000 * 60 * 60 * 24 * 90);
}

unfoldable pub new :
    List AccountId
    → Option Config
    → Option AccountId
    → Option AccountId
    → Option AccountId
    → Option AccountId
    → Result Contract
new admins_whitelist config reputation dispute kyc_whitelist recipient = do
  assert (not (set_is_empty admins_whitelist)) "Admin whitelist must contain at least one account"
  ok (record {
    tokens = empty;
    last_bounty_id = 0;
    bounties = empty;
    account_bounties = empty;
    locked_amount = 0;
    unlocked_amount = 0;
    admins_whitelist = insert_all [] admins_whitelist;
    config = unwrap_or config default_config;
    reputation_contract = reputation;
    dispute_contract = dispute;
    kyc_whitelist_contract = kyc_whitelist;
    owners_whitelist = [];
    postpaid_subscribers_whitelist = [];
    total_fees = empty;
    total_validators_dao_fees = empty;
    recipient_of_platform_fee = recipient;
    status = ContractStatus.genesis;
    last_claim_id = 0;
    claims = empty;
    bounty_claimants = empty;
    bounty_claims = empty;
    receipts = [];
  })

pub data WhitelistType : Type 0 where
  administrators_whitelist owners_whitelist postpaid_subscribers_whitelist : WhitelistType

abbrev pub assert_admin : Context → Contract → Result (Unit {0})
assert_admin ctx c = do assert_live c; assert_admins_whitelist c ctx.predecessor

abbrev listed_accounts : Option AccountId → Option (List AccountId) → Result (List AccountId)
listed_accounts account_id (some account_ids) = ok account_ids
listed_accounts account_id none = do
  account ← expect account_id "Expected either account_id or account_ids"
  ok (account ∷ [])

-- The whitelist of the type, changed.
abbrev pub with_whitelist : Contract → WhitelistType → (List AccountId → List AccountId) → Contract
with_whitelist c WhitelistType.administrators_whitelist f = record c {
  admins_whitelist = f c.admins_whitelist;
}
with_whitelist c WhitelistType.owners_whitelist f = record c {
  owners_whitelist = f c.owners_whitelist;
}
with_whitelist c WhitelistType.postpaid_subscribers_whitelist f = record c {
  postpaid_subscribers_whitelist = f c.postpaid_subscribers_whitelist;
}

unfoldable pub add_to_some_whitelist :
    Context
    → Contract
    → Option AccountId
    → Option (List AccountId)
    → WhitelistType
    → Result Contract
add_to_some_whitelist ctx c account_id account_ids whitelist = do
  assert_admin ctx c
  accounts ← listed_accounts account_id account_ids
  ok (with_whitelist c whitelist (λ xs. insert_all xs accounts))

abbrev is_administrators : WhitelistType → Bool
is_administrators WhitelistType.administrators_whitelist = true
is_administrators _ = false

unfoldable pub remove_from_some_whitelist :
    Context
    → Contract
    → Option AccountId
    → Option (List AccountId)
    → WhitelistType
    → Result Contract
remove_from_some_whitelist ctx c account_id account_ids whitelist = do
  assert_admin ctx c
  accounts ← listed_accounts account_id account_ids
  let d = with_whitelist c whitelist (λ xs. remove_all xs accounts)
  assert (not (is_administrators whitelist) || not (set_is_empty d.admins_whitelist))
      "Cannot remove all accounts from admin whitelist"
  ok d

unfoldable pub add_token_id : Context → Contract → AccountId → Option ℕ → Result Contract
add_token_id ctx c token_id min_amount_for_kyc = do
  assert_admin ctx c
  assert (is_none (c.tokens token_id)) "The token already exists"
  ok (schedule c (ft_metadata token_id (after_get_ft_metadata token_id min_amount_for_kyc)))

unfoldable pub update_token : Context → Contract → AccountId → TokenDetails → Result Contract
update_token ctx c token_id token_details = do
  assert_admin ctx c
  assert (is_some (c.tokens token_id)) "No token found"
  ok (record c { tokens = insert c.tokens token_id token_details })

unfoldable pub update_kyc_whitelist_contract :
    Context → Contract → Option AccountId → Result Contract
update_kyc_whitelist_contract ctx c account = do
  assert_admin ctx c
  ok (record c { kyc_whitelist_contract = account })

unfoldable pub update_reputation_contract : Context → Contract → AccountId → Result Contract
update_reputation_contract ctx c account = do
  assert_admin ctx c
  assert (is_some c.reputation_contract) "The reputation contract is not used"
  ok (record c { reputation_contract = some account })

unfoldable pub update_dispute_contract : Context → Contract → AccountId → Result Contract
update_dispute_contract ctx c account = do
  assert_admin ctx c
  assert (is_some c.dispute_contract) "The dispute contract is not used"
  ok (record c { dispute_contract = some account })

pub record ConfigCreate : Type 0 where
  pub bounty_claim_bond : ℕ
  pub bounty_forgiveness_period : ℕ
  pub period_for_opening_dispute : ℕ
  pub platform_fee_percentage : ℕ
  pub validators_dao_fee_percentage : ℕ
  pub penalty_platform_fee_percentage : ℕ
  pub penalty_validators_dao_fee_percentage : ℕ
  pub use_owners_whitelist : Bool
  pub max_due_date : Option ℕ

-- `ConfigCreate::to_config`: the dictionaries are kept.
abbrev pub to_config : ConfigCreate → Config → Config
to_config create config = record {
  bounty_claim_bond = create.bounty_claim_bond;
  bounty_forgiveness_period = create.bounty_forgiveness_period;
  period_for_opening_dispute = create.period_for_opening_dispute;
  categories = config.categories;
  tags = config.tags;
  platform_fee_percentage = create.platform_fee_percentage;
  validators_dao_fee_percentage = create.validators_dao_fee_percentage;
  penalty_platform_fee_percentage = create.penalty_platform_fee_percentage;
  penalty_validators_dao_fee_percentage = create.penalty_validators_dao_fee_percentage;
  currencies = config.currencies;
  use_owners_whitelist = create.use_owners_whitelist;
  max_due_date = create.max_due_date;
}

unfoldable pub change_config : Context → Contract → ConfigCreate → Result Contract
change_config ctx c create = do
  assert_admin ctx c
  ok (record c { config = to_config create c.config })

pub data ReferenceType : Type 0 where
  categories tags currencies : ReferenceType

-- The entries of the call, `get_configuration_dictionary`.
abbrev dictionary_entries : Option String → Option (List String) → Result (List String)
dictionary_entries entry (some entries) = ok entries
dictionary_entries entry none = do one ← expect entry "Expected either {} or {}"; ok (one ∷ [])

-- The configuration with the dictionary changed.
abbrev pub with_dictionary : Config → ReferenceType → (List String → List String) → Config
with_dictionary config ReferenceType.categories f = record config {
  categories = f config.categories;
}
with_dictionary config ReferenceType.tags f = record config { tags = f config.tags }
with_dictionary config ReferenceType.currencies f = record config {
  currencies = f config.currencies;
}

unfoldable pub update_configuration_dictionary_entries :
    Context → Contract → ReferenceType → Option String → Option (List String) → Result Contract
update_configuration_dictionary_entries ctx c dict entry entries = do
  assert_admin ctx c
  added ← dictionary_entries entry entries
  ok (record c { config = with_dictionary c.config dict (λ reference. reference ++ added) })

abbrev without_index : List String → Option ℕ → List String
without_index reference none = reference
without_index reference (some i) = remove_at reference i

-- The first occurrence of each entry is removed.
abbrev pub without_entries : List String → List String → List String
without_entries reference [] = reference
without_entries reference (entry ∷ rest) =
    without_entries (without_index reference (position (λ e. string_eq e entry) reference)) rest

unfoldable pub remove_configuration_dictionary_entries :
    Context → Contract → ReferenceType → Option String → Option (List String) → Result Contract
remove_configuration_dictionary_entries ctx c dict entry entries = do
  assert_admin ctx c
  removed ← dictionary_entries entry entries
  ok (record c {
    config = with_dictionary c.config dict (λ reference. without_entries reference removed);
  })

unfoldable pub change_recipient_of_platform_fee : Context → Contract → AccountId → Result Contract
change_recipient_of_platform_fee ctx c account = do
  assert_admin ctx c
  ok (record c { recipient_of_platform_fee = some account })

abbrev is_genesis : ContractStatus → Bool
is_genesis ContractStatus.genesis = true
is_genesis _ = false

-- `#[private]`: only the contract itself may call it.
unfoldable pub set_status : Context → Contract → ContractStatus → Result Contract
set_status ctx c status = do
  assert (ctx.predecessor == ctx.current_account) "Method set_status is private"
  assert (not (is_genesis status)) "The status can't be set to Genesis"
  ok (record c { status = status })
