-- ===== src/Disputes/Contract.antt =====
-- The state of `DisputesContract`, disputes/src/lib.rs, and its internal methods,
-- disputes/src/internal.rs and disputes/src/utils.rs.
use heroes_contracts.Prelude.{
  ℕ, push_str, ◌-◌, ◌/◌, ◌%◌, ◌^◌, String, Bool, true, false, ltb, contains, Option, unwrap_or,
  length, List, [], ◌∷◌, ◌++◌, Result, ok, assert, expect, unwrap, add, u64_bound, u32_bound, ◌>>=◌,
  LookupMap, insert, remove,
}
use heroes_contracts.Near.{AccountId, Context}
use heroes_contracts.Disputes.Types.{
  ContractStatus, Side, Reason, VersionedReason, Dispute, VersionedDispute, VersionedConfig,
  to_reason, dispute_from, to_config,
}

-- A promise: the call of another contract, and the callback of this one that follows it.
pub data Receipt : Type 0 where
  -- the bounties contract, the arguments of `dispute_result`, then those of `after_claim_approval`
  dispute_result : AccountId → ℕ → AccountId → Option ℕ → Bool → ℕ → Bool → Receipt
  -- the DAO, the description and the bond of the proposal, then `on_added_proposal_callback`'s id
  add_proposal : AccountId → String → ℕ → ℕ → Receipt
  -- the DAO, the proposal, then `after_get_proposal`'s id
  get_proposal : AccountId → ℕ → ℕ → Receipt

-- `receipts` are the promises scheduled so far, the oldest last.
pub record Contract : Type 0 where
  pub bounties_contract : AccountId
  pub dispute_dao : AccountId
  pub last_dispute_id : ℕ
  pub disputes : LookupMap VersionedDispute
  pub arguments : LookupMap (List VersionedReason)
  pub bounty_disputes : LookupMap (List ℕ)
  pub admin_whitelist : List AccountId
  pub config : VersionedConfig
  pub status : ContractStatus
  pub receipts : List Receipt

abbrev is_live : ContractStatus → Bool
is_live ContractStatus.live = true
is_live _ = false

abbrev pub assert_live : Contract → Result (Unit {0})
assert_live c = assert (is_live c.status) "The contract status is not Live"

abbrev pub assert_admin_whitelist : Contract → AccountId → Result (Unit {0})
assert_admin_whitelist c account =
    assert (contains c.admin_whitelist account) "Not in admin whitelist"

abbrev pub get_dispute : Contract → ℕ → Result Dispute
get_dispute c id = do
  dispute ← expect (c.disputes id) "Dispute not found"
  ok (dispute_from dispute)

-- `self.disputes.insert(&id, &dispute.into())`.
abbrev pub save_dispute : Contract → ℕ → Dispute → Contract
save_dispute c id dispute = record c {
  disputes = insert c.disputes id (VersionedDispute.current dispute);
}

abbrev pub saved_indices : LookupMap (List ℕ) → ℕ → List ℕ → LookupMap (List ℕ)
saved_indices m bounty_id [] = remove m bounty_id
saved_indices m bounty_id (i ∷ is) = insert m bounty_id (i ∷ is)

abbrev pub internal_save_bounty_disputes : Contract → ℕ → List ℕ → Contract
internal_save_bounty_disputes c bounty_id indices = record c {
  bounty_disputes = saved_indices c.bounty_disputes bounty_id indices;
}

-- The new index, and the state in which the dispute is stored under it.
unfoldable pub internal_add_dispute : Contract → Dispute → Result (ℕ × Contract)
internal_add_dispute c dispute = do
  let id = c.last_dispute_id
  let stored = save_dispute c id dispute
  let indices = unwrap_or (stored.bounty_disputes dispute.bounty_id) []
  let listed = internal_save_bounty_disputes stored dispute.bounty_id (indices ++ (id ∷ []))
  last ← add u64_bound listed.last_dispute_id 1
  ok (id, record listed { last_dispute_id = last })

abbrev pub schedule : Contract → Receipt → Contract
schedule c r = record c { receipts = r ∷ c.receipts }

-- The dispute's id, bounty, claimant and claim number, then whether the claimant has won, and
-- whether the dispute was cancelled.
unfoldable pub internal_send_result_of_dispute :
    Contract → ℕ → ℕ → AccountId → Option ℕ → Bool → Bool → Contract
internal_send_result_of_dispute c id bounty_id receiver_id claim_number success canceled =
    schedule c
      (dispute_result c.bounties_contract bounty_id receiver_id claim_number success id canceled)

unfoldable pub is_argument_period_expired : Context → Contract → Dispute → Result Bool
is_argument_period_expired ctx c dispute = do
  end ← add u64_bound dispute.start_time (to_config c.config).argument_period
  ok (ltb end ctx.block_timestamp)

unfoldable pub is_decision_period_expired : Context → Contract → Dispute → Result Bool
is_decision_period_expired ctx c dispute = do
  proposed ← unwrap dispute.proposal_timestamp
  end ← add u64_bound proposed (to_config c.config).decision_period
  ok (ltb end ctx.block_timestamp)

unfoldable pub internal_get_proposal : Contract → ℕ → ℕ → Contract
internal_get_proposal c id proposal_id = schedule c (get_proposal c.dispute_dao proposal_id id)

-- The index of the new argument, and the state.
unfoldable pub internal_add_argument : Contract → ℕ → Reason → ℕ × Contract
internal_add_argument c id new_reason =
    let reasons = unwrap_or (c.arguments id) [] ++ (VersionedReason.current new_reason ∷ []) in
    (length reasons - 1, record c { arguments = insert c.arguments id reasons })

-- `as TimestampSec` keeps the low 32 bits.
abbrev pub nano_to_sec : ℕ → ℕ
nano_to_sec timestamp = timestamp / 10 ^ 9 % u32_bound

-- How the runtime prints accounts and numbers.
module _ (account_to_string number_to_string : ℕ → String) where
  abbrev side_str : Side → String
  side_str Side.claimant = "Claimant"
  side_str Side.project_owner = "Project owner"

  abbrev account_of_side : Dispute → Side → AccountId
  account_of_side dispute Side.claimant = dispute.receiver_id
  account_of_side dispute Side.project_owner = dispute.project_owner_delegate

  unfoldable pub chunk_of_description : Dispute → Reason → String
  chunk_of_description dispute reason =
      let when = push_str "\n\n" (number_to_string (nano_to_sec reason.argument_timestamp)) in
      let who = account_to_string (account_of_side dispute reason.side) in
      let header =
        push_str (push_str (push_str " " (side_str reason.side)) (push_str " (" who)) "):" in
      push_str (push_str (push_str when header) "\n") reason.description

  abbrev add_chunks : Dispute → String → List VersionedReason → String
  add_chunks dispute text [] = text
  add_chunks dispute text (reason ∷ reasons) =
      add_chunks dispute (push_str text (chunk_of_description dispute (to_reason reason))) reasons

  unfoldable pub internal_get_proposal_description : Contract → ℕ → Dispute → String
  internal_get_proposal_description c id dispute =
      let cause : Reason = record {
        side = Side.claimant;
        argument_timestamp = dispute.start_time;
        description = dispute.description;
      } in
      add_chunks dispute (chunk_of_description dispute cause) (unwrap_or (c.arguments id) [])

  unfoldable pub internal_add_proposal : Contract → ℕ → Dispute → Contract
  internal_add_proposal c id dispute = schedule c (
      add_proposal c.dispute_dao (internal_get_proposal_description c id dispute)
        (to_config c.config).add_proposal_bond id)
