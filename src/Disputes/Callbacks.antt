-- ===== src/Disputes/Callbacks.antt =====
-- What the contract does when a promise has ended, disputes/src/callbacks.rs. The runtime calls
-- these methods for the contract itself, with the outcome of the promise: `none` where it failed or
-- its answer could not be read.
use heroes_contracts.Prelude.{
  ℕ, string_eq, String, Bool, true, false, ◌||◌, ◌==◌, Option, some, none, Result, ok, panic,
  assert, unwrap, ◌>>=◌, ◌>>◌, if◌then◌else◌,
}
use heroes_contracts.Near.{Context}
use heroes_contracts.Disputes.Types.{DisputeStatus, Dispute, Proposal, dispute_status_eq}
use heroes_contracts.Disputes.Contract.{
  Contract, get_dispute, save_dispute, internal_send_result_of_dispute, is_decision_period_expired,
}
use heroes_contracts.Disputes.Methods.{assert_new, assert_pending}

abbrev pub proposed : Context → Dispute → ℕ → Dispute
proposed ctx dispute proposal_id = record dispute {
  proposal_id = some proposal_id;
  proposal_timestamp = some ctx.block_timestamp;
  status = DisputeStatus.decision_pending;
}

unfoldable pub on_added_proposal_callback :
    Context → Contract → Option ℕ → ℕ → Result (Bool × Contract)
on_added_proposal_callback ctx c none id = ok (false, c)
on_added_proposal_callback ctx c (some proposal_id) id = do
  dispute ← get_dispute c id
  assert_new dispute.status
  ok (true, save_dispute c id (proposed ctx dispute proposal_id))

-- The final status: whether the claimant has won, and whether the dispute was cancelled.
abbrev pub outcome : Bool → Bool → DisputeStatus
outcome true true = DisputeStatus.canceled_by_project_owner
outcome true false = DisputeStatus.in_favor_of_claimant
outcome false true = DisputeStatus.canceled_by_claimant
outcome false false = DisputeStatus.in_favor_of_project_owner

abbrev pub is_undecided : DisputeStatus → Bool
is_undecided status =
    dispute_status_eq status DisputeStatus.new
    || dispute_status_eq status DisputeStatus.decision_pending

-- `promise` says whether `dispute_result` of the bounties contract succeeded.
unfoldable pub after_claim_approval : Contract → Bool → ℕ → Bool → Bool → Result (Bool × Contract)
after_claim_approval c promise id success canceled =
    if promise
    then (do
      dispute ← get_dispute c id
      assert (is_undecided dispute.status) "The dispute has already completed status"
      ok (true, save_dispute c id (record dispute { status = outcome success canceled })))
    else ok (false, c)

abbrev pub decision : Context → Contract → Dispute → String → Result Bool
decision ctx c dispute status =
    if string_eq status "Approved"
    then ok true
    else (if string_eq status "Rejected" then ok false else (do
      expired ← is_decision_period_expired ctx c dispute
      assert expired "The proposal status is not being processed"
      ok true))

unfoldable pub after_get_proposal : Context → Contract → Option Proposal → ℕ → Result Contract
after_get_proposal ctx c none id = panic "Error checking proposal status"
after_get_proposal ctx c (some proposal) id = do
  dispute ← get_dispute c id
  proposal_id ← unwrap dispute.proposal_id
  assert (proposal.id == proposal_id) "assertion failed: `(left == right)`"
  assert (proposal.proposer == ctx.current_account) "assertion failed: `(left == right)`"
  assert_pending dispute.status
  success ← decision ctx c dispute proposal.status
  ok (
      internal_send_result_of_dispute c id dispute.bounty_id dispute.receiver_id
        dispute.claim_number success false)
