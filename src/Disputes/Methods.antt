-- ===== src/Disputes/Methods.antt =====
-- The public methods, disputes/src/lib.rs.
use heroes_contracts.Prelude.{
  ℕ, String, Bool, true, false, not, is_empty, ◌==◌, Option, some, none, List, [], ◌∷◌, Result, ok,
  assert, expect, unwrap, ◌>>=◌, ◌>>◌, empty, insert_all, remove_all, set_is_empty, unwrap_or,
}
use heroes_contracts.Near.{AccountId, Context}
use heroes_contracts.Disputes.Types.{
  ContractStatus, DisputeStatus, Side, DisputeCreate, Config, VersionedConfig, to_dispute,
  get_side_of_dispute, default_config, dispute_status_eq,
}
use heroes_contracts.Disputes.Contract.{
  Contract, assert_live, assert_admin_whitelist, get_dispute, internal_add_dispute,
  internal_add_argument, internal_send_result_of_dispute, internal_get_proposal,
  internal_add_proposal, is_argument_period_expired, is_decision_period_expired,
}

unfoldable pub new : AccountId → AccountId → List AccountId → Option Config → Result Contract
new bounties_contract dispute_dao admin_whitelist config = do
  assert (not (set_is_empty admin_whitelist)) "Admin whitelist must contain at least one account"
  ok (record {
    bounties_contract = bounties_contract;
    dispute_dao = dispute_dao;
    last_dispute_id = 0;
    disputes = empty;
    arguments = empty;
    bounty_disputes = empty;
    admin_whitelist = insert_all [] admin_whitelist;
    config = VersionedConfig.current (unwrap_or config default_config);
    status = ContractStatus.genesis;
    receipts = [];
  })

abbrev pub listed_accounts : Option AccountId → Option (List AccountId) → Result (List AccountId)
listed_accounts account_id (some account_ids) = ok account_ids
listed_accounts account_id none = do
  account ← expect account_id "Expected either account_id or account_ids"
  ok (account ∷ [])

unfoldable pub add_to_admin_whitelist :
    Context → Contract → Option AccountId → Option (List AccountId) → Result Contract
add_to_admin_whitelist ctx c account_id account_ids = do
  assert_live c
  assert_admin_whitelist c ctx.predecessor
  accounts ← listed_accounts account_id account_ids
  ok (record c { admin_whitelist = insert_all c.admin_whitelist accounts })

unfoldable pub remove_from_admin_whitelist :
    Context → Contract → Option AccountId → Option (List AccountId) → Result Contract
remove_from_admin_whitelist ctx c account_id account_ids = do
  assert_live c
  assert_admin_whitelist c ctx.predecessor
  accounts ← listed_accounts account_id account_ids
  let left = remove_all c.admin_whitelist accounts
  assert (not (set_is_empty left)) "Cannot remove all accounts from admin whitelist"
  ok (record c { admin_whitelist = left })

unfoldable pub change_config : Context → Contract → Config → Result Contract
change_config ctx c config = do
  assert_live c
  assert_admin_whitelist c ctx.predecessor
  ok (record c { config = VersionedConfig.current config })

unfoldable pub create_dispute : Context → Contract → DisputeCreate → Result (ℕ × Contract)
create_dispute ctx c create = do
  assert_live c
  assert (c.bounties_contract == ctx.predecessor) "This method can only invoke a bounty contract"
  assert (not (is_empty create.description)) "The description cannot be empty"
  internal_add_dispute c (to_dispute ctx create)

abbrev pub assert_new : DisputeStatus → Result (Unit {0})
assert_new status =
    assert (dispute_status_eq status DisputeStatus.new)
      "This action can be performed only for a dispute with the status 'New'"

abbrev pub assert_pending : DisputeStatus → Result (Unit {0})
assert_pending status =
    assert (dispute_status_eq status DisputeStatus.decision_pending)
      "This action can be performed only for a dispute with the status 'DecisionPending'"

unfoldable pub provide_arguments : Context → Contract → ℕ → String → Result (ℕ × Contract)
provide_arguments ctx c id description = do
  assert_live c
  dispute ← get_dispute c id
  assert_new dispute.status
  expired ← is_argument_period_expired ctx c dispute
  assert (not expired)
      "The period for providing arguments has expired, now you need to perform an 'escalation' action or cancel the dispute"
  side ← get_side_of_dispute ctx dispute
  ok (
      internal_add_argument c id (record {
        side = side;
        argument_timestamp = ctx.block_timestamp;
        description = description;
      }))

abbrev is_owner : Side → Bool
is_owner Side.claimant = false
is_owner Side.project_owner = true

unfoldable pub cancel_dispute : Context → Contract → ℕ → Result Contract
cancel_dispute ctx c id = do
  assert_live c
  dispute ← get_dispute c id
  assert_new dispute.status
  side ← get_side_of_dispute ctx dispute
  ok (
      internal_send_result_of_dispute c id dispute.bounty_id dispute.receiver_id
        dispute.claim_number (is_owner side) true)

unfoldable pub escalation : (ℕ → String) → (ℕ → String) → Context → Contract → ℕ → Result Contract
escalation account_to_string number_to_string ctx c id = do
  assert_live c
  dispute ← get_dispute c id
  assert_new dispute.status
  expired ← is_argument_period_expired ctx c dispute
  assert expired
      "Escalation of the dispute is possible only after the end of the argumentation period"
  ok (internal_add_proposal account_to_string number_to_string c id dispute)

unfoldable pub result_of_dispute : Context → Contract → ℕ → Bool → Result Contract
result_of_dispute ctx c id success = do
  assert_live c
  dispute ← get_dispute c id
  assert (c.dispute_dao == ctx.predecessor)
      "This method can only invoke a dispute resolution DAO contract"
  assert_pending dispute.status
  expired ← is_decision_period_expired ctx c dispute
  assert (not expired) "The decision period is over, now you need to perform the 'finalize' action"
  ok (
      internal_send_result_of_dispute c id dispute.bounty_id dispute.receiver_id
        dispute.claim_number success false)

unfoldable pub finalize_dispute : Contract → ℕ → Result Contract
finalize_dispute c id = do
  assert_live c
  dispute ← get_dispute c id
  assert_pending dispute.status
  proposal_id ← unwrap dispute.proposal_id
  ok (internal_get_proposal c id proposal_id)

unfoldable pub update_bounties_contract : Context → Contract → AccountId → Result Contract
update_bounties_contract ctx c bounties_contract = do
  assert_live c
  assert_admin_whitelist c ctx.predecessor
  ok (record c { bounties_contract = bounties_contract })

abbrev is_genesis : ContractStatus → Bool
is_genesis ContractStatus.genesis = true
is_genesis _ = false

-- `#[private]`: only the contract itself may call it.
unfoldable pub set_status : Context → Contract → ContractStatus → Result Contract
set_status ctx c status = do
  assert (ctx.predecessor == ctx.current_account) "Method set_status is private"
  assert (not (is_genesis status)) "The status can't be set to Genesis"
  ok (record c { status = status })
