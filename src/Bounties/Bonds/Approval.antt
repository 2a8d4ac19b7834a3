-- ===== src/Bounties/Bonds/Approval.antt =====
-- Approving a claimant changes no bond, `internal_claimant_approval` of bounties/src/internal.rs.
use heroes_contracts.Prelude.{
  ℕ, ◌≡◌, refl, Bool, true, Option, none, some, [], ◌∷◌, arith, ok, ◌>>=◌, length, ◌%◌, u16_bound,
  Ensures, done, stopped, Ensures-bind, Ensures-assert, Ensures-if, Ensures-ok, if◌then◌else◌, ◌==◌,
  not, ◌&&◌, ◌||◌, unwrap, sub,
}
use heroes_contracts.Near.{Context}
use heroes_contracts.Bounties.Types.{
  BountyStatus, ClaimStatus, StartConditions, claim_status_eq, bounty_status_eq,
}
use heroes_contracts.Bounties.Multitasking
use heroes_contracts.Bounties.Multitasking.{
  Multitasking, contest_or_hackathon, one_for_all, different_tasks,
}
use heroes_contracts.Bounties.Bounty.{Bounty, is_simple}
use heroes_contracts.Bounties.Claim.{BountyClaim}
use heroes_contracts.Bounties.Contract.{Contract}
use heroes_contracts.Bounties.Runtime.{
  internal_complete_slot, internal_participants_increment, internal_occupied_slots_increment,
  set_competition_timestamp, internal_set_slot_account,
}
use heroes_contracts.Bounties.Lookup.{get_claims_with_statuses}
use heroes_contracts.Bounties.Approval.{
  Started, approved_status, start_waiting, contest_starts, approve_contest, approve_first_slots,
  slot_start, approve_slot, approve_subtask, approve_shared, approve,
}
use heroes_contracts.Bounties.Bonds.{is_open}
use heroes_contracts.Bounties.Bonds.Waiting.{
  KeepsBonds, KeepsBonds-refl, get_claims_with_statuses-AllHeld,
  internal_update_status_of_many_claims-KeepsBonds,
}

approved_status-open : (bounty : Bounty) → is_open (approved_status bounty) ≡ true
approved_status-open bounty = ground arith

start_waiting-KeepsBonds :
    (ctx : Context) (c : Contract) (id : ℕ) (bounty : Bounty) (claim : BountyClaim)
    → Ensures (λ (s : Contract × Bounty). KeepsBonds c s.0) (start_waiting ctx c id bounty claim)
start_waiting-KeepsBonds ctx c id bounty claim =
    Ensures-bind _
      (get_claims_with_statuses c id (ClaimStatus.ready_to_start ∷ [])
        (some (claim.owner, claim.claim_number)))
      _
      (λ claims h.
        internal_update_status_of_many_claims-KeepsBonds claims (ClaimStatus.ready_to_start ∷ [])
          (approved_status bounty) (some ctx.block_timestamp) c
          (record bounty { status = BountyStatus.many_claimed }) (approved_status-open bounty)
          (Ensures-ok _ _
            (get_claims_with_statuses-AllHeld c id (some (claim.owner, claim.claim_number))) h))

-- The bonds are kept, and the claim's new status is open.
pub record Opens (c : Contract) (s : Started) : Type 0 where
  pub keeps : KeepsBonds c s.0
  pub opened : is_open s.2 ≡ true

approved-Opens : (c : Contract) (bounty b : Bounty) → Opens c (c, b, approved_status bounty)
approved-Opens c bounty b = record {
  keeps = KeepsBonds-refl c;
  opened = approved_status-open bounty;
}

approve_contest-Opens :
    (ctx : Context) (c : Contract) (bounty : Bounty) (m : Multitasking)
    (start : Option StartConditions)
    → Ensures (Opens c) (approve_contest ctx c bounty m start)
approve_contest-Opens ctx c bounty m start =
    Ensures-bind _ (Multitasking.has_competition_started m) _ (λ started _.
      Ensures-bind _ (Multitasking.get_participants m) _ (λ participants _.
        Ensures-bind _ (contest_starts start started participants) _ (λ starts _.
          Ensures-bind _
            (internal_participants_increment
              (if starts then record bounty { status = BountyStatus.many_claimed } else bounty))
            _
            (λ more _.
              Ensures-bind _
                (if not started && bounty_status_eq more.status BountyStatus.many_claimed
                  then set_competition_timestamp ctx more (some ctx.block_timestamp)
                  else ok more)
                _ (λ begun _. done (approved-Opens c bounty begun))))))

approve_first_slots-Opens :
    (ctx : Context) (c : Contract) (id : ℕ) (bounty : Bounty) (claim : BountyClaim) (n : ℕ)
    → Ensures (Opens c) (approve_first_slots ctx c id bounty claim n)
approve_first_slots-Opens ctx c id bounty claim n =
    Ensures-bind _
      (get_claims_with_statuses c id (ClaimStatus.ready_to_start ∷ [])
        (some (claim.owner, claim.claim_number)))
      _
      (λ claims _. Ensures-bind _ (sub n 1) _ (λ last _.
        Ensures-if _ (length claims % u16_bound == last) _ _
          (λ _. Ensures-bind _ (start_waiting ctx c id bounty claim) _ (λ s h. done (record {
            keeps = Ensures-ok _ _ (start_waiting-KeepsBonds ctx c id bounty claim) h;
            opened = approved_status-open bounty;
          })))
          (λ _. done (record { keeps = KeepsBonds-refl c; opened = refl }))))

slot_start-Opens :
    (ctx : Context) (c : Contract) (id : ℕ) (bounty : Bounty) (claim : BountyClaim)
    (min_slots : Option ℕ)
    → Ensures (Opens c) (slot_start ctx c id bounty claim min_slots)
slot_start-Opens ctx c id bounty claim none = done (approved-Opens c bounty _)
slot_start-Opens ctx c id bounty claim (some n) =
    Ensures-if _
      (bounty_status_eq bounty.status BountyStatus.many_claimed
        || bounty_status_eq bounty.status BountyStatus.awaiting_claims)
      _ _
      (λ _. done (approved-Opens c bounty (record bounty { status = BountyStatus.many_claimed })))
      (λ _. approve_first_slots-Opens ctx c id bounty claim n)

approve_slot-Opens :
    (ctx : Context) (c : Contract) (id : ℕ) (bounty : Bounty) (claim : BountyClaim)
    (min_slots : Option ℕ)
    → Ensures (Opens c) (approve_slot ctx c id bounty claim min_slots)
approve_slot-Opens ctx c id bounty claim min_slots =
    Ensures-bind _ (slot_start ctx c id bounty claim min_slots) _ (λ s h.
      Ensures-bind _ (internal_occupied_slots_increment s.1) _ (λ more _.
        let started = Ensures-ok _ _ (slot_start-Opens ctx c id bounty claim min_slots) h in
        done (record { keeps = started.keeps; opened = started.opened })))

subtask_start-Opens :
    (ctx : Context) (c : Contract) (id : ℕ) (bounty b : Bounty) (claim : BountyClaim) (taken : Bool)
    → Ensures (Opens c) (
        if bounty_status_eq bounty.status BountyStatus.many_claimed
        then ok (c, b, approved_status bounty)
        else (if taken
            then (start_waiting ctx c id b claim >>= λ w. ok (w.0, w.1, approved_status bounty))
            else ok (c, b, ClaimStatus.ready_to_start)))
subtask_start-Opens ctx c id bounty b claim taken =
    Ensures-if _ (bounty_status_eq bounty.status BountyStatus.many_claimed) _ _
      (λ _. done (approved-Opens c bounty b))
      (λ _.
        Ensures-if _ taken _ _
          (λ _. Ensures-bind _ (start_waiting ctx c id b claim) _ (λ w h. done (record {
            keeps = Ensures-ok _ _ (start_waiting-KeepsBonds ctx c id b claim) h;
            opened = approved_status-open bounty;
          })))
          (λ _. done (record { keeps = KeepsBonds-refl c; opened = refl })))

approve_subtask-Opens :
    (ctx : Context) (c : Contract) (id : ℕ) (bounty : Bounty) (claim : BountyClaim)
    → Ensures (Opens c) (approve_subtask ctx c id bounty claim)
approve_subtask-Opens ctx c id bounty claim = Ensures-bind _ (unwrap claim.slot) _ (λ slot _.
    Ensures-bind _ (internal_set_slot_account bounty slot claim.owner claim.claim_number) _ (λ b _.
      Ensures-bind _ (unwrap b.multitasking) _ (λ m _.
        Ensures-bind _ (Multitasking.are_all_slots_taken m) _ (λ taken _.
          Ensures-bind _
            (if bounty_status_eq bounty.status BountyStatus.many_claimed
              then ok (c, b, approved_status bounty)
              else (if taken
                  then (start_waiting ctx c id b claim >>= λ w.
                      ok (w.0, w.1, approved_status bounty))
                  else ok (c, b, ClaimStatus.ready_to_start)))
            _
            (λ s h.
              let started = Ensures-ok _ _ (subtask_start-Opens ctx c id bounty b claim taken) h in
              Ensures-if _
                (is_simple bounty.bounty_flow && claim_status_eq s.2 (approved_status bounty)) _ _
                (λ _.
                  Ensures-bind _ (internal_complete_slot s.1 slot) _ (λ complete _.
                    done (record { keeps = started.keeps; opened = started.opened })))
                (λ _. done started))))))

approve_shared-Opens :
    (ctx : Context) (c : Contract) (id : ℕ) (bounty : Bounty) (claim : BountyClaim)
    (m : Multitasking)
    → Ensures (Opens c) (approve_shared ctx c id bounty claim m)
approve_shared-Opens ctx c id bounty claim (contest_or_hackathon a s start p e) =
    approve_contest-Opens ctx c bounty (contest_or_hackathon a s start p e) start
approve_shared-Opens ctx c id bounty claim (one_for_all _ _ min_slots _) =
    approve_slot-Opens ctx c id bounty claim min_slots
approve_shared-Opens ctx c id bounty claim (different_tasks _ _) =
    approve_subtask-Opens ctx c id bounty claim
approve_shared-Opens ctx c id bounty claim (Multitasking.contest_or_hackathon_v1 _ _ _ _) = stopped
approve_shared-Opens ctx c id bounty claim (Multitasking.contest_or_hackathon_v2 _ _ _ _) = stopped
approve_shared-Opens ctx c id bounty claim (Multitasking.different_tasks_v1 _ _) = stopped

pub approve-Opens :
    (ctx : Context) (c : Contract) (id : ℕ) (bounty : Bounty) (claim : BountyClaim)
    (m : Option Multitasking)
    → Ensures (Opens c) (approve ctx c id bounty claim m)
approve-Opens ctx c id bounty claim none = done (approved-Opens c bounty _)
approve-Opens ctx c id bounty claim (some m) =
    Ensures-bind _ (Multitasking.is_allowed_to_create_or_approve_claims ctx m claim.slot) _
      (λ allowed _.
        Ensures-assert _ allowed "It is no longer possible to approve the claim" _
          (λ _. approve_shared-Opens ctx c id bounty claim m))
