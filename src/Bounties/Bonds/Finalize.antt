-- ===== src/Bounties/Bonds/Finalize.antt =====
-- Finalizing a bounty keeps the bonds backed: `bounty_finalize` of bounties/src/lib.rs.
use heroes_contracts.Prelude.{
  ℕ, ◌≡◌, ap, ◌∙◌, true, false, ◌&&◌, Option, none, some, is_some, is_none, arith, bool_eq, unwrap,
  Ensures, Result, ok, panic, done, stopped, Ensures-bind, Ensures-if, Ensures-assert, Ensures-ok,
  List, [], ◌∷◌, unwrap_or, if◌then◌else◌,
}
use heroes_contracts.Near.{AccountId, Context}
use heroes_contracts.Bounties.Types.{
  BountyStatus, ClaimStatus, Claimant, claim_status_eq, bounty_status_eq,
}
use heroes_contracts.Bounties.Bounty.{Bounty, is_different_tasks, is_validators_dao_used}
use heroes_contracts.Bounties.Claim.{BountyClaim}
use heroes_contracts.Bounties.Contract.{
  Contract, Receipt, schedule, get_bounty, get_bounty_claim, assert_live, internal_update_bounty,
}
use heroes_contracts.Bounties.Lookup.{
  internal_get_claim, internal_find_active_claim, find_active, is_claim_active,
}
use heroes_contracts.Bounties.Lookup.Found.{internal_get_claim-claims}
use heroes_contracts.Bounties.Runtime.{internal_get_bounty_payout_proposal_id}
use heroes_contracts.Bounties.Closure.{internal_set_claim_expiry_status}
use heroes_contracts.Bounties.Decision.{the_dao}
use heroes_contracts.Bounties.Finalize.{
  and_then, works_late, awaits_payout, payout_proposal_of, payee, is_rejection_final,
  has_payout_proposal, is_claimed, finalize_subtasks, finalize_claim, is_undecided_claim,
  is_unanswered, is_left_open, left, finalize_other, or_else, finalize_bounty, as_finalized,
  internal_check_bounty_payout_proposal, internal_finalize_active_claim,
  internal_finalize_some_claim, bounty_finalize,
}
use heroes_contracts.Bounties.Bonds.{IsBacked, is_open, internal_update_bounty-IsBacked}
use heroes_contracts.Bounties.Bonds.Closing.{
  internal_claim_closure-IsBacked, internal_reset_bounty_to_initial_state-IsBacked,
}

-- What was finalized, if anything was, is backed.
IsBackedIfSome : Option Contract → Type 0
IsBackedIfSome none = Unit
IsBackedIfSome (some d) = IsBacked 0 d

as_finalized-backed :
    (r : Result Contract) → Ensures (IsBacked 0) r → Ensures IsBackedIfSome (as_finalized r)
unfolding IsBackedIfSome
as_finalized-backed (ok d) (done v) = done v
as_finalized-backed (panic e) h = stopped

pub schedule-IsBacked : (c : Contract) (r : Receipt) → IsBacked 0 c → IsBacked 0 (schedule c r)
schedule-IsBacked c r v = record { locked = v.locked; fresh = v.fresh }

pub find_active-claims :
    (c : Contract) (ids : List ℕ)
    → Ensures
        (λ found. (c.claims found.0 ≡ some found.1) × (is_open found.1.status ≡ true))
        (find_active c ids)
find_active-claims c [] = stopped
find_active-claims c (i ∷ is) = Ensures-bind _ (get_bounty_claim c i) _ (λ claim h.
    Ensures-if _ (is_claim_active claim) _ _ (λ active. done (ground arith, ground arith))
      (λ other. find_active-claims c is))

works_late-open :
    (ctx : Context) (bounty : Bounty) (claim : BountyClaim)
    → works_late ctx bounty claim ≡ ok true
    → is_open claim.status ≡ true
works_late-open ctx bounty claim h = ground arith

is_rejection_final-open :
    (ctx : Context) (c : Contract) (bounty : Bounty) (claim : BountyClaim)
    → is_rejection_final ctx c bounty claim ≡ ok true
    → is_open claim.status ≡ true
is_rejection_final-open ctx c bounty claim h = ground arith

is_unanswered-open :
    (bounty : Bounty) (claim : BountyClaim)
    → is_unanswered bounty claim ≡ true
    → is_open claim.status ≡ true
is_unanswered-open bounty claim h = ground arith

is_left_open-open :
    (bounty : Bounty) (claim : BountyClaim)
    → is_left_open bounty claim ≡ true
    → is_open claim.status ≡ true
is_left_open-open bounty claim h = ground arith

module _ (ctx : Context) (c : Contract) (id : ℕ) (bounty : Bounty) (v : IsBacked 0 c) where
  payout_check-IsBacked :
      (claimant : Option Claimant) (proposal_id : ℕ)
      → Ensures
          (IsBacked 0)
          (internal_check_bounty_payout_proposal c id bounty claimant proposal_id)
  payout_check-IsBacked claimant proposal_id =
      Ensures-bind _ (the_dao bounty.reviewers) _ (λ dao _. done (schedule-IsBacked c _ v))

  finalize_subtasks-backed : Ensures IsBackedIfSome (finalize_subtasks c id bounty)
  unfolding IsBackedIfSome
  finalize_subtasks-backed =
      Ensures-bind _
        (and_then
          (bounty_status_eq bounty.status BountyStatus.many_claimed && is_different_tasks bounty)
          (has_payout_proposal c id bounty))
        _
        (λ proposed _.
          Ensures-if _ (proposed && is_validators_dao_used bounty) _ _
            (λ _. Ensures-bind _ (internal_get_bounty_payout_proposal_id bounty) _ (λ proposal _.
              Ensures-bind _ (unwrap proposal) _
                (λ proposal_id _. as_finalized-backed _ (payout_check-IsBacked none proposal_id))))
            (λ _. done tt))

  module _ (claim_id : ℕ) (claim : BountyClaim) (e : c.claims claim_id ≡ some claim) where
    finalize_claim-backed : Ensures IsBackedIfSome (finalize_claim ctx c id bounty claim_id claim)
    unfolding IsBackedIfSome internal_set_claim_expiry_status
    finalize_claim-backed = Ensures-bind _ (works_late ctx bounty claim) _ (λ late h.
        Ensures-if _ late _ _
          (λ is_late. as_finalized-backed _ (
            internal_reset_bounty_to_initial_state-IsBacked ctx c id claim.owner bounty claim_id
              claim (some ClaimStatus.expired) false v e
              (works_late-open ctx bounty claim (h ∙ ap ok is_late))))
          (λ _. Ensures-bind _ (awaits_payout c id bounty claim) _ (λ payable _.
            Ensures-if _ payable _ _
              (λ _. Ensures-bind _ (payout_proposal_of bounty claim) _ (λ proposal_id _.
                as_finalized-backed _ (payout_check-IsBacked (payee bounty claim) proposal_id)))
              (λ _. Ensures-bind _ (is_rejection_final ctx c bounty claim) _ (λ final k.
                Ensures-if _ final _ _
                  (λ is_final. as_finalized-backed _ (
                    internal_reset_bounty_to_initial_state-IsBacked ctx c id claim.owner bounty
                      claim_id claim none true v e
                      (is_rejection_final-open ctx c bounty claim (k ∙ ap ok is_final))))
                  (λ _.
                    Ensures-if _
                      (claim_status_eq claim.status ClaimStatus.disputed && is_claimed bounty) _ _
                      (λ _. Ensures-bind _ (unwrap claim.dispute_id) _ (λ dispute_id _.
                        as_finalized-backed _ (
                          Ensures-bind _ (unwrap c.dispute_contract) _
                            (λ dispute _. done (schedule-IsBacked c _ v)))))
                      (λ _. done tt)))))))

    finalize_other-IsBacked :
        (receiver_id : AccountId) (claim_number : Option ℕ)
        → Ensures (IsBacked 0) (finalize_other c id receiver_id claim_number bounty claim_id claim)
    finalize_other-IsBacked receiver_id claim_number =
        Ensures-if _ (is_undecided_claim bounty claim) _ _
          (λ _. Ensures-bind _ (unwrap claim.approve_claimant_proposal_id) _ (λ proposal_id _.
            Ensures-bind _ (the_dao bounty.reviewers) _ (λ dao _. done (schedule-IsBacked c _ v))))
          (λ _.
            Ensures-if _ (is_unanswered bounty claim) _ _
              (λ unanswered.
                internal_claim_closure-IsBacked c receiver_id bounty.owner bounty.status claim_id
                  claim (some ClaimStatus.canceled) true v e
                  (is_unanswered-open bounty claim unanswered))
              (λ _.
                Ensures-if _ (is_left_open bounty claim) _ _
                  (λ left_open. Ensures-bind _ (left bounty claim bounty.multitasking) _ (λ b _.
                    internal_claim_closure-IsBacked (internal_update_bounty c id b) receiver_id
                      b.owner b.status claim_id claim _ true
                      (internal_update_bounty-IsBacked id b v) e
                      (is_left_open-open bounty claim left_open)))
                  (λ _. stopped)))

  or_else-IsBacked :
      (finalized : Option Contract) (r : Result Contract)
      → IsBackedIfSome finalized
      → Ensures (IsBacked 0) r
      → Ensures (IsBacked 0) (or_else finalized r)
  unfolding IsBackedIfSome
  or_else-IsBacked none r h k = k
  or_else-IsBacked (some d) r h k = done h

  finalize_bounty-backed : Ensures IsBackedIfSome (finalize_bounty ctx c id bounty)
  unfolding IsBackedIfSome internal_find_active_claim internal_finalize_active_claim
  finalize_bounty-backed =
      Ensures-if _ (is_none bounty.multitasking) _ _
        (λ _. Ensures-bind _ (internal_find_active_claim c id) _ (λ active h.
          finalize_claim-backed active.0 active.1
            (Ensures-ok _ _ (find_active-claims c (unwrap_or (c.bounty_claims id) [])) h).0))
        (λ _.
          Ensures-if _ (is_different_tasks bounty) _ _ (λ _. finalize_subtasks-backed)
            (λ _. done tt))

  internal_finalize_some_claim-IsBacked :
      (receiver_id : AccountId) (claim_number : Option ℕ)
      → Ensures (IsBacked 0) (internal_finalize_some_claim ctx c id receiver_id claim_number bounty)
  unfolding internal_finalize_some_claim internal_finalize_active_claim IsBackedIfSome
  internal_finalize_some_claim-IsBacked receiver_id claim_number =
      Ensures-bind _ (internal_get_claim c id receiver_id claim_number) _ (λ found h.
        let e = (internal_get_claim-claims c id receiver_id claim_number h).0 in
        Ensures-bind _
          (if is_some bounty.multitasking
            then internal_finalize_active_claim ctx c id bounty (some found)
            else ok none)
          _
          (λ finalized k.
            or_else-IsBacked finalized _
              (Ensures-ok IsBackedIfSome _
                (Ensures-if _ (is_some bounty.multitasking) _ _
                  (λ _. finalize_claim-backed found.0 found.1 e) (λ _. done tt))
                k)
              (finalize_other-IsBacked found.0 found.1 e receiver_id claim_number)))

-- A call of `bounty_finalize` that does not panic keeps the locked amount equal to the sum of the
-- bonds of the open claims, whichever claim or proposal it finalizes.
pub bounty_finalize-IsBacked :
    (ctx : Context) (c : Contract) (id : ℕ) (claimant : Option Claimant)
    → IsBacked 0 c
    → Ensures (IsBacked 0) (bounty_finalize ctx c id claimant)
unfolding bounty_finalize
bounty_finalize-IsBacked ctx c id none v = Ensures-bind _ (assert_live c) _ (λ _ _.
    Ensures-bind _ (get_bounty c id) _ (λ bounty _.
      Ensures-assert _ (is_claimed bounty)
        "Bounty status does not allow approval of the execution result" _
        (λ _. Ensures-bind _ (finalize_bounty ctx c id bounty) _ (λ finalized h.
          or_else-IsBacked ctx c id bounty v finalized _
            (Ensures-ok IsBackedIfSome _ (finalize_bounty-backed ctx c id bounty v) h) stopped))))
bounty_finalize-IsBacked ctx c id (some (receiver_id, claim_number)) v =
    Ensures-bind _ (assert_live c) _ (λ _ _. Ensures-bind _ (get_bounty c id) _ (λ bounty _.
      Ensures-assert _ (bool_eq (is_some claim_number) bounty.allow_creating_many_claims)
        "Invalid claim_number value" _
        (λ _. internal_finalize_some_claim-IsBacked ctx c id bounty v receiver_id claim_number)))
