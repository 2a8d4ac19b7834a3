-- ===== src/Bounties/Approval.antt =====
-- Starting the work on a claim, bounties/src/internal.rs.
use heroes_contracts.Prelude.{
  ℕ, Bool, true, false, not, ◌&&◌, ◌||◌, ◌==◌, if◌then◌else◌, contains, Option, none, some, is_some,
  List, [], ◌∷◌, length, ◌%◌, Result, ok, panic, assert, unwrap, unreachable, sub, u16_bound, ◌>>=◌,
  ◌>>◌,
}
use heroes_contracts.Near.{AccountId, Context}
use heroes_contracts.Bounties.Types.{
  BountyStatus, ClaimStatus, ClaimantApproval, StartConditions, DefermentOfKyc,
  ReputationActionKind, bounty_status_eq, claim_status_eq,
}
use heroes_contracts.Bounties.Multitasking
use heroes_contracts.Bounties.Multitasking.{
  Multitasking, contest_or_hackathon, one_for_all, different_tasks,
}
use heroes_contracts.Bounties.Bounty.{
  Bounty, is_contest_or_hackathon, is_different_tasks, is_simple,
}
use heroes_contracts.Bounties.Claim.{BountyClaim}
use heroes_contracts.Bounties.Contract.{
  Contract, internal_update_bounty, internal_update_statistic, save_claim,
}
use heroes_contracts.Bounties.Runtime.{
  set_competition_timestamp, internal_participants_increment, internal_occupied_slots_increment,
  internal_set_slot_account, internal_complete_slot,
}
use heroes_contracts.Bounties.Lookup.{get_claims_with_statuses, has_claim_status}

-- `is_approval_required`, by the bounty's `claimant_approval`.
unfoldable pub approval_required : ClaimantApproval → AccountId → Result Bool
approval_required ClaimantApproval.multiple_claims receiver_id = ok true
approval_required (ClaimantApproval.approval_by_whitelist whitelist) receiver_id =
    ok (not (contains whitelist receiver_id))
approval_required (ClaimantApproval.whitelist_with_approvals _) receiver_id = ok true
approval_required ClaimantApproval.approval_with_whitelist receiver_id =
    panic "ApprovalWithWhitelist is not supported"
approval_required ClaimantApproval.without_approval receiver_id = ok false

abbrev pub is_approval_required : Bounty → AccountId → Result Bool
is_approval_required bounty receiver_id = approval_required bounty.claimant_approval receiver_id

-- The status of a claim whose work has started.
abbrev pub approved_status : Bounty → ClaimStatus
approved_status bounty =
    if is_simple bounty.bounty_flow
    then ClaimStatus.completed
    else (if is_contest_or_hackathon bounty then ClaimStatus.competes else ClaimStatus.in_progress)

-- One round of `internal_update_status_of_many_claims`, on the contract and the bounty.
abbrev pub start_claim :
    ℕ → BountyClaim → ClaimStatus → Option ℕ → Contract × Bounty → Result (Contract × Bounty)
start_claim claim_id claim new_status start_time (c, bounty) = do
  let started = record claim {
    status = new_status;
    start_time = if is_some start_time then start_time else claim.start_time;
  }
  let saved = save_claim c claim_id started
  if is_simple bounty.bounty_flow
        && is_different_tasks bounty
        && claim_status_eq new_status ClaimStatus.completed
      then (do slot ← unwrap claim.slot; b ← internal_complete_slot bounty slot; ok (saved, b))
      else ok (saved, bounty)

unfoldable pub internal_update_status_of_many_claims :
    List (ℕ × BountyClaim)
    → List ClaimStatus
    → ClaimStatus
    → Option ℕ
    → Contract × Bounty
    → Result (Contract × Bounty)
internal_update_status_of_many_claims [] old_statuses new_status start_time s = ok s
internal_update_status_of_many_claims ((i, claim) ∷ rest) old_statuses new_status start_time s = do
  s' ←
      if has_claim_status old_statuses claim.status
      then start_claim i claim new_status start_time s
      else ok s
  internal_update_status_of_many_claims rest old_statuses new_status start_time s'

-- The contract, the bounty and the claim's new status.
abbrev pub Started : Type 0
Started = Contract × Bounty × ClaimStatus

-- Start all the claims that wait for this one.
abbrev pub start_waiting :
    Context → Contract → ℕ → Bounty → BountyClaim → Result (Contract × Bounty)
start_waiting ctx c id bounty claim = do
  claims ←
      get_claims_with_statuses c id (ClaimStatus.ready_to_start ∷ [])
        (some (claim.owner, claim.claim_number))
  internal_update_status_of_many_claims claims (ClaimStatus.ready_to_start ∷ [])
      (approved_status bounty) (some ctx.block_timestamp)
      (c, record bounty { status = BountyStatus.many_claimed })

-- The contest starts with this claim.
abbrev pub contest_starts : Option StartConditions → Bool → ℕ → Result Bool
contest_starts none started participants = ok (not started)
contest_starts (some (StartConditions.min_amount_to_start n)) started participants =
    if started then ok false else (do last ← sub n 1; ok (participants == last))
contest_starts (some StartConditions.manually_start) started participants = ok false

abbrev pub approve_contest :
    Context → Contract → Bounty → Multitasking → Option StartConditions → Result Started
approve_contest ctx c bounty m start_conditions = do
  started ← Multitasking.has_competition_started m
  participants ← Multitasking.get_participants m
  starts ← contest_starts start_conditions started participants
  let b = if starts then record bounty { status = BountyStatus.many_claimed } else bounty
  more ← internal_participants_increment b
  begun ←
      if not started && bounty_status_eq more.status BountyStatus.many_claimed
      then set_competition_timestamp ctx more (some ctx.block_timestamp)
      else ok more
  ok (c, begun, approved_status bounty)

-- The lengths are compared as u16.
abbrev pub approve_first_slots : Context → Contract → ℕ → Bounty → BountyClaim → ℕ → Result Started
approve_first_slots ctx c id bounty claim min_slots = do
  claims ←
      get_claims_with_statuses c id (ClaimStatus.ready_to_start ∷ [])
        (some (claim.owner, claim.claim_number))
  last ← sub min_slots 1
  if length claims % u16_bound == last
      then (do s ← start_waiting ctx c id bounty claim; ok (s.0, s.1, approved_status bounty))
      else ok (c, bounty, ClaimStatus.ready_to_start)

-- With no minimum, or once the work has started, the claim starts at once.
abbrev pub slot_start : Context → Contract → ℕ → Bounty → BountyClaim → Option ℕ → Result Started
slot_start ctx c id bounty claim none =
    ok (c, record bounty { status = BountyStatus.many_claimed }, approved_status bounty)
slot_start ctx c id bounty claim (some n) =
    if bounty_status_eq bounty.status BountyStatus.many_claimed
      || bounty_status_eq bounty.status BountyStatus.awaiting_claims
    then ok (c, record bounty { status = BountyStatus.many_claimed }, approved_status bounty)
    else approve_first_slots ctx c id bounty claim n

abbrev pub approve_slot : Context → Contract → ℕ → Bounty → BountyClaim → Option ℕ → Result Started
approve_slot ctx c id bounty claim min_slots = do
  s ← slot_start ctx c id bounty claim min_slots
  more ← internal_occupied_slots_increment s.1
  ok (s.0, more, s.2)

abbrev pub approve_subtask : Context → Contract → ℕ → Bounty → BountyClaim → Result Started
approve_subtask ctx c id bounty claim = do
  slot ← unwrap claim.slot
  b ← internal_set_slot_account bounty slot claim.owner claim.claim_number
  m ← unwrap b.multitasking
  taken ← Multitasking.are_all_slots_taken m
  s ←
      if bounty_status_eq bounty.status BountyStatus.many_claimed
      then ok (c, b, approved_status bounty)
      else (if taken
          then (do w ← start_waiting ctx c id b claim; ok (w.0, w.1, approved_status bounty))
          else ok (c, b, ClaimStatus.ready_to_start))
  if is_simple bounty.bounty_flow && claim_status_eq s.2 (approved_status bounty)
      then (do complete ← internal_complete_slot s.1 slot; ok (s.0, complete, s.2))
      else ok s

abbrev pub approve_shared :
    Context → Contract → ℕ → Bounty → BountyClaim → Multitasking → Result Started
approve_shared ctx c id bounty claim (contest_or_hackathon a s start p e) =
    approve_contest ctx c bounty (contest_or_hackathon a s start p e) start
approve_shared ctx c id bounty claim (one_for_all _ _ min_slots _) =
    approve_slot ctx c id bounty claim min_slots
approve_shared ctx c id bounty claim (different_tasks _ _) = approve_subtask ctx c id bounty claim
approve_shared ctx c id bounty claim _ = unreachable

abbrev pub approve :
    Context → Contract → ℕ → Bounty → BountyClaim → Option Multitasking → Result Started
approve ctx c id bounty claim none =
    ok (c, record bounty { status = BountyStatus.claimed }, approved_status bounty)
approve ctx c id bounty claim (some m) = do
  allowed ← Multitasking.is_allowed_to_create_or_approve_claims ctx m claim.slot
  assert allowed "It is no longer possible to approve the claim"
  approve_shared ctx c id bounty claim m

-- The work runs, so the claim gets its start time.
abbrev pub has_begun : Bounty → ClaimStatus → Bool
has_begun bounty status =
    claim_status_eq status (approved_status bounty)
    && (bounty_status_eq bounty.status BountyStatus.many_claimed
        || bounty_status_eq bounty.status BountyStatus.claimed)

-- The contract with the bounty saved, and the claim, which the caller saves.
unfoldable pub internal_claimant_approval :
    Context
    → Contract
    → ℕ
    → Bounty
    → BountyClaim
    → Option DefermentOfKyc
    → Result (Contract × BountyClaim)
internal_claimant_approval ctx c id bounty claim is_kyc_delayed = do
  s ← approve ctx c id bounty claim bounty.multitasking
  let saved = internal_update_bounty s.0 id s.1
  let started = record claim {
    status = s.2;
    start_time = if has_begun s.1 s.2 then some ctx.block_timestamp else claim.start_time;
    is_kyc_delayed = is_kyc_delayed;
  }
  ok (
    internal_update_statistic saved (some claim.owner) (some s.1.owner)
        ReputationActionKind.claimant_approved,
    started,
  )
