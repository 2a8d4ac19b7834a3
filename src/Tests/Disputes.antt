-- ===== src/Tests/Disputes.antt =====
-- The theorems on disputes at concrete contracts, disputes/src/lib.rs.
use heroes_contracts.Prelude.{
  ◌≡◌, refl, ℕ, String, none, some, true, false, List, [], ◌∷◌, ok, arith, empty, Succeeds, Panics,
  ◌<◌, ◌≤◌, ◌+◌, get_elem?, ◌⊎◌,
}
use heroes_contracts.Near.{AccountId, Context}
use heroes_contracts.Disputes.Types.{
  ContractStatus, DisputeStatus, DisputeCreate, Dispute, Proposal, VersionedConfig, default_config,
  to_dispute, get_side_of_dispute,
}
use heroes_contracts.Disputes.Contract.{
  Contract, Receipt, get_dispute, dispute_result, schedule, save_dispute,
  internal_save_bounty_disputes, internal_add_dispute, internal_send_result_of_dispute,
  internal_get_proposal,
}
use heroes_contracts.Disputes.Methods.{
  new, create_dispute, provide_arguments, cancel_dispute, escalation, result_of_dispute,
  finalize_dispute, set_status,
}
use heroes_contracts.Disputes.Callbacks.{
  proposed, on_added_proposal_callback, after_claim_approval, after_get_proposal,
}
use heroes_contracts.Disputes.Steps.{
  Step, IsReachable, started, stepped, at_rest, then_step, created, switched, canceled,
  proposal_added, approved,
}
use heroes_contracts.Disputes.Invariant.{IsValid, IsReachable-IsValid, indices_of}
use heroes_contracts.Disputes.Lifecycle.{
  Moves, no_disputes, register, IsReachable-Moves, Steps-decided,
}
use heroes_contracts.Disputes.Promises.{AreTrue, IsReachable-AreTrue}
use heroes_contracts.Disputes.View.{
  AreStored, get_bounty_disputes, get_disputes, get_bounty_disputes-total, get_disputes-page,
}
use heroes_contracts.Disputes.Deadlines.{
  arguments_or_escalation, finalize_dispute-total, decision_or_finalization, cancel_dispute-repeats,
}

abbrev printed : ℕ → String
printed n = ""

-- The bounties contract is 1, the DAO 2, the administrator 3, the claimant 4, the owner 5, and the
-- disputes contract 6.
abbrev call : AccountId → ℕ → Context
call account time = record {
  predecessor = account;
  current_account = 6;
  block_timestamp = time;
  attached_deposit = 0;
}

abbrev genesis : Contract
genesis = record {
  bounties_contract = 1;
  dispute_dao = 2;
  last_dispute_id = 0;
  disputes = empty;
  arguments = empty;
  bounty_disputes = empty;
  admin_whitelist = 3 ∷ [];
  config = VersionedConfig.current default_config;
  status = ContractStatus.genesis;
  receipts = [];
}

abbrev live : Contract
live = record genesis { status = ContractStatus.live }

abbrev complaint : DisputeCreate
complaint = record {
  bounty_id = 8;
  description = "Rejected without a reason";
  receiver_id = 4;
  project_owner_delegate = 5;
  claim_number = none;
}

abbrev dispute : Dispute
dispute = to_dispute (call 1 100) complaint

abbrev opened : Contract
opened = record (internal_save_bounty_disputes (save_dispute live 0 dispute) 8 (0 ∷ [])) {
  last_dispute_id = 1;
}

abbrev pending : Contract
pending = save_dispute opened 0 (proposed (call 6 200) dispute 7)

abbrev won : Contract
won =
    save_dispute pending 0
      (record (proposed (call 6 200) dispute 7) { status = DisputeStatus.in_favor_of_claimant })

abbrev opened_again : Contract
opened_again =
    record (internal_save_bounty_disputes (save_dispute won 1 (to_dispute (call 1 300) complaint)) 8
      (0 ∷ 1 ∷ [])) { last_dispute_id = 2 }

abbrev result : Receipt
result = dispute_result 1 8 4 none false 0 true

abbrev dismissed : Contract
dismissed = schedule opened result

new_runs : new 1 2 (3 ∷ []) none ≡ ok genesis
unfolding new
new_runs = refl

set_status_runs : set_status (call 6 0) genesis ContractStatus.live ≡ ok live
unfolding set_status
set_status_runs = refl

create_dispute_runs : create_dispute (call 1 100) live complaint ≡ ok (0, opened)
unfolding create_dispute internal_add_dispute
create_dispute_runs = refl

proposal_runs : on_added_proposal_callback (call 6 200) opened (some 7) 0 ≡ ok (true, pending)
unfolding on_added_proposal_callback
proposal_runs = refl

approval_runs : after_claim_approval pending true 0 true false ≡ ok (true, won)
unfolding after_claim_approval
approval_runs = refl

create_again_runs : create_dispute (call 1 300) won complaint ≡ ok (1, opened_again)
unfolding create_dispute internal_add_dispute
create_again_runs = refl

cancel_runs : cancel_dispute (call 4 150) opened 0 ≡ ok dismissed
unfolding cancel_dispute get_side_of_dispute internal_send_result_of_dispute
cancel_runs = refl

opened_reached : IsReachable printed printed opened
opened_reached =
    stepped
      (stepped (started 1 2 (3 ∷ []) none new_runs)
        (switched (call 6 0) ContractStatus.live set_status_runs))
      (created (call 1 100) complaint 0 create_dispute_runs)

pending_reached : IsReachable printed printed pending
pending_reached = stepped opened_reached (proposal_added (call 6 200) (some 7) 0 true proposal_runs)

won_reached : IsReachable printed printed won
won_reached = stepped pending_reached (approved true 0 true false true approval_runs)

again : Step printed printed won opened_again
again = created (call 1 300) complaint 1 create_again_runs

IsReachable-IsValid_example : IsValid pending
IsReachable-IsValid_example = IsReachable-IsValid printed printed pending_reached

IsReachable-Moves_example : Moves no_disputes (register won)
IsReachable-Moves_example = IsReachable-Moves printed printed won_reached

Steps-decided_example : (register opened_again).statuses 0 ≡ some DisputeStatus.in_favor_of_claimant
Steps-decided_example =
    Steps-decided printed printed won_reached (then_step at_rest again) 0
      DisputeStatus.in_favor_of_claimant refl refl

IsReachable-AreTrue_example : AreTrue dismissed (result ∷ [])
IsReachable-AreTrue_example =
    IsReachable-AreTrue printed printed
      (stepped opened_reached (canceled (call 4 150) 0 cancel_runs))

get_bounty_disputes-total_example :
    (xs : List (ℕ × Dispute)) × (get_bounty_disputes pending 8 ≡ ok xs)
    × AreStored pending (indices_of pending 8) xs
get_bounty_disputes-total_example =
    get_bounty_disputes-total pending (IsReachable-IsValid printed printed pending_reached) 8

get_disputes-page_example :
    (xs : List (ℕ × Dispute)) × (get_disputes opened_again (some 0) (some 1) ≡ ok xs)
    × ((k : ℕ)
        → (k < 1
            → 0 + k < 2
            → (x : Dispute) × (get_dispute opened_again (0 + k) ≡ ok x)
              × (get_elem? xs k ≡ some (0 + k, x)))
          × (1 ≤ k → get_elem? xs k ≡ none)
          × (2 ≤ 0 + k → get_elem? xs k ≡ none))
get_disputes-page_example =
    get_disputes-page opened_again (IsReachable-IsValid printed printed (stepped won_reached again))
      (some 0) (some 1) (omega arith)

arguments_or_escalation_example :
    (Succeeds (provide_arguments (call 5 150) opened 0 "It was late")
      × Panics (escalation printed printed (call 5 150) opened 0))
    ⊎ (Panics (provide_arguments (call 5 150) opened 0 "It was late")
        × Succeeds (escalation printed printed (call 5 150) opened 0))
arguments_or_escalation_example =
    arguments_or_escalation printed printed (call 5 150) opened 0 dispute "It was late" refl refl
      refl refl (omega arith)

finalize_dispute-total_example :
    (proposal_id : ℕ) × ((proposed (call 6 200) dispute 7).proposal_id ≡ some proposal_id)
    × (finalize_dispute pending 0 ≡ ok (internal_get_proposal pending 0 proposal_id))
finalize_dispute-total_example =
    finalize_dispute-total (call 3 250) pending 0 (proposed (call 6 200) dispute 7) pending_reached
      refl refl refl

abbrev undecided : Proposal
undecided = record { id = 7; proposer = 6; description = ""; status = "InProgress" }

decision_or_finalization_example :
    (finalize_dispute pending 0 ≡ ok (internal_get_proposal pending 0 7))
    × ((Succeeds (result_of_dispute (call 2 250) pending 0 true)
          × Panics (
              after_get_proposal
                (call 6 250)
                (internal_get_proposal pending 0 7)
                (some undecided)
                0))
        ⊎ (Panics (result_of_dispute (call 2 250) pending 0 true)
            × (after_get_proposal
                  (call 6 250)
                  (internal_get_proposal pending 0 7)
                  (some undecided)
                  0
                ≡ ok (
                    internal_send_result_of_dispute
                      (internal_get_proposal pending 0 7)
                      0
                      8
                      4
                      none
                      true
                      false))))
decision_or_finalization_example =
    decision_or_finalization (call 2 250) pending 0 (proposed (call 6 200) dispute 7) true
      (call 6 250) undecided 200 refl refl refl refl refl refl refl refl refl refl (omega arith)

cancel_dispute-repeats_example :
    (r : Receipt) × (dismissed ≡ schedule opened r)
    × (cancel_dispute (call 4 150) dismissed 0 ≡ ok (schedule dismissed r))
cancel_dispute-repeats_example = cancel_dispute-repeats (call 4 150) opened dismissed 0 cancel_runs
