-- ===== src/Reputation/Contract.antt =====
-- The state and the methods of `ReputationContract`, reputation/src/lib.rs.
use heroes_contracts.Prelude.{
  ℕ, Bool, true, false, not, ◌&&◌, ◌||◌, ◌==◌, ltb, ◌-◌, is_some, unwrap_or, Option, none, some,
  List, [], ◌∷◌, length, contains, Result, ok, assert, expect, unwrap, get_elem?, zero, suc, add,
  u64_bound, ◌>>=◌, ◌>>◌, if◌then◌else◌, insert_all, remove_all, set_is_empty, UnorderedMap,
  get_entry, put_entry,
}
use heroes_contracts.Near.{AccountId, Context}
use heroes_contracts.Reputation.Metrics.{
  ClaimantMetrics, BountyOwnerMetrics, ActionKind, default_claimant_metrics,
  default_bounty_owner_metrics, count_for_claimant, count_for_owner,
}

pub record Contract : Type 0 where
  pub bounties_contract : AccountId
  pub claimants_entries : UnorderedMap ClaimantMetrics
  pub bounty_owners_entries : UnorderedMap BountyOwnerMetrics
  pub admin_whitelist : List AccountId

unfoldable pub new : AccountId → List AccountId → Result Contract
new bounties_contract admin_whitelist = do
  assert (not (set_is_empty admin_whitelist)) "Admin whitelist must contain at least one account"
  ok (record {
    bounties_contract = bounties_contract;
    claimants_entries = [];
    bounty_owners_entries = [];
    admin_whitelist = insert_all [] admin_whitelist;
  })

abbrev pub get_statistics :
    Contract → AccountId → Option ClaimantMetrics × Option BountyOwnerMetrics
get_statistics c account_id =
    (get_entry c.claimants_entries account_id, get_entry c.bounty_owners_entries account_id)

-- `(a..b).map(|id| (keys.get(id).unwrap(), values.get(id).unwrap()))`, for `n` indices from `a` on.
abbrev entries_from {ℓ} : {V : Type ℓ} → UnorderedMap V → ℕ → ℕ → Result (UnorderedMap V)
entries_from entries a zero = ok []
entries_from entries a (suc n) = do
  entry ← unwrap (get_elem? entries a)
  rest ← entries_from entries (suc a) n
  ok (entry ∷ rest)

abbrev pub entries_page {ℓ} :
    {V : Type ℓ} → UnorderedMap V → Option ℕ → Option ℕ → Result (UnorderedMap V)
entries_page entries from_index limit = do
  let a = unwrap_or from_index 0
  end ← add u64_bound a (unwrap_or limit (length entries))
  entries_from entries a ((if ltb (length entries) end then length entries else end) - a)

abbrev pub get_claimants_entries :
    Contract → Option ℕ → Option ℕ → Result (UnorderedMap ClaimantMetrics)
get_claimants_entries c = entries_page c.claimants_entries

abbrev pub get_bounty_owners_entries :
    Contract → Option ℕ → Option ℕ → Result (UnorderedMap BountyOwnerMetrics)
get_bounty_owners_entries c = entries_page c.bounty_owners_entries

abbrev pub assert_called_by_bounties_contract : Context → Contract → Result (Unit {0})
assert_called_by_bounties_contract ctx c =
    assert (c.bounties_contract == ctx.predecessor) "Only a bounties contract can call this method"

abbrev assert_admin_whitelist : Context → Contract → Result (Unit {0})
assert_admin_whitelist ctx c =
    assert (contains c.admin_whitelist ctx.predecessor) "Not in admin whitelist"

abbrev pub without_claimant : ActionKind → Bool
without_claimant ActionKind.bounty_created = true
without_claimant ActionKind.bounty_cancelled = true
without_claimant ActionKind.successful_bounty = true
without_claimant _ = false

abbrev pub without_bounty_owner : ActionKind → Bool
without_bounty_owner ActionKind.claim_cancelled = true
without_bounty_owner ActionKind.claim_expired = true
without_bounty_owner _ = false

-- The accounts that the action concerns are given, and no others.
abbrev pub assert_accounts : ActionKind → Bool → Bool → Result (Unit {0})
assert_accounts action claimant_given owner_given = do
  assert (not (without_claimant action) || (owner_given && not claimant_given))
      "Bounty owner is required and Claimant is not required"
  assert (not (without_bounty_owner action) || (not owner_given && claimant_given))
      "Claimant is required and Bounty owner is not required"
  assert (without_claimant action || without_bounty_owner action || (owner_given && claimant_given))
      "Claimant and bounty owner required"

-- The counters of an account; none are stored yet, or there is no account.
abbrev pub claimant_metrics_of : Contract → Option AccountId → ClaimantMetrics
claimant_metrics_of c none = default_claimant_metrics
claimant_metrics_of c (some account) =
    unwrap_or (get_entry c.claimants_entries account) default_claimant_metrics

abbrev pub owner_metrics_of : Contract → Option AccountId → BountyOwnerMetrics
owner_metrics_of c none = default_bounty_owner_metrics
owner_metrics_of c (some account) =
    unwrap_or (get_entry c.bounty_owners_entries account) default_bounty_owner_metrics

-- `if !without { entries.insert(&account.unwrap(), &metrics) }`.
abbrev pub stored_entry {ℓ} :
    {V : Type ℓ} → Bool → UnorderedMap V → Option AccountId → V → Result (UnorderedMap V)
stored_entry true entries account metrics = ok entries
stored_entry false entries none metrics = expect none "called `Option::unwrap()` on a `None` value"
stored_entry false entries (some account) metrics = ok (put_entry entries account metrics)

unfoldable pub emit :
    Context → Contract → Option AccountId → Option AccountId → ActionKind → Result Contract
emit ctx c receiver_id bounty_owner action = do
  assert_called_by_bounties_contract ctx c
  assert_accounts action (is_some receiver_id) (is_some bounty_owner)
  claimant ← count_for_claimant action (claimant_metrics_of c receiver_id)
  owner ← count_for_owner action (owner_metrics_of c bounty_owner)
  claimants ← stored_entry (without_claimant action) c.claimants_entries receiver_id claimant
  owners ← stored_entry (without_bounty_owner action) c.bounty_owners_entries bounty_owner owner
  ok (record c { claimants_entries = claimants; bounty_owners_entries = owners })

abbrev pub listed_accounts : Option AccountId → Option (List AccountId) → Result (List AccountId)
listed_accounts account_id (some account_ids) = ok account_ids
listed_accounts account_id none = do
  account ← expect account_id "Expected either account_id or account_ids"
  ok (account ∷ [])

unfoldable pub add_to_admin_whitelist :
    Context → Contract → Option AccountId → Option (List AccountId) → Result Contract
add_to_admin_whitelist ctx c account_id account_ids = do
  assert_admin_whitelist ctx c
  accounts ← listed_accounts account_id account_ids
  ok (record c { admin_whitelist = insert_all c.admin_whitelist accounts })

unfoldable pub remove_from_admin_whitelist :
    Context → Contract → Option AccountId → Option (List AccountId) → Result Contract
remove_from_admin_whitelist ctx c account_id account_ids = do
  assert_admin_whitelist ctx c
  accounts ← listed_accounts account_id account_ids
  let left = remove_all c.admin_whitelist accounts
  assert (not (set_is_empty left)) "Cannot remove all accounts from admin whitelist"
  ok (record c { admin_whitelist = left })

unfoldable pub update_bounties_contract : Context → Contract → AccountId → Result Contract
update_bounties_contract ctx c bounties_contract = do
  assert_admin_whitelist ctx c
  ok (record c { bounties_contract = bounties_contract })
