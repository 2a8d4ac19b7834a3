-- ===== src/Bounties/Bonds/Done.antt =====
-- Reporting a claim done keeps its bond: `bounty_done` of bounties/src/lib.rs with
-- `internal_add_proposal_and_update_claim` and `internal_claim_done` of bounties/src/internal.rs.
use heroes_contracts.Prelude.{
  ℕ, String, ◌≡◌, true, false, Option, none, some, is_some, [], ◌∷◌, arith, unwrap, expect-eq-ok,
  Ensures, done, Ensures-bind, Ensures-assert, Ensures-if, Ensures-ok, not, ◌&&◌, ◌||◌, bool_eq,
}
use heroes_contracts.Near.{AccountId, Context}
use heroes_contracts.Bounties.Types.{BountyStatus, ClaimStatus, bounty_status_eq, claim_status_eq}
use heroes_contracts.Bounties.Bounty.{
  Bounty, is_simple, is_validators_dao_used, is_different_tasks, is_contest_or_hackathon,
}
use heroes_contracts.Bounties.Claim.{BountyClaim, is_claim_expired}
use heroes_contracts.Bounties.Contract.{
  Contract, PlaceOfCheckKyc, claim_done, get_bounty, assert_live, internal_update_bounty,
}
use heroes_contracts.Bounties.Runtime.{internal_complete_slot, internal_participants_decrement}
use heroes_contracts.Bounties.Lookup.{
  has_claim_status, has_bounty_status, internal_get_claim, internal_get_and_check_bounty_and_claim,
}
use heroes_contracts.Bounties.Lookup.Found.{
  IsStoredClaim, internal_get_claim-claims, internal_get_and_check_bounty_and_claim-IsStoredClaim,
}
use heroes_contracts.Bounties.Closure.{internal_set_claim_expiry_status}
use heroes_contracts.Bounties.Claiming.{is_kyc_check_required, check_if_claimant_in_kyc_whitelist}
use heroes_contracts.Bounties.Decision.{
  the_dao, record_proposal, done_subtask, internal_claim_done, is_last_subtask, done_description,
  propose_done, internal_add_proposal_and_update_claim,
}
use heroes_contracts.Bounties.Methods.{report_done, bounty_done}
use heroes_contracts.Bounties.Bonds.{
  IsBacked, is_open, save_claim-IsBacked, internal_update_bounty-IsBacked,
}
use heroes_contracts.Bounties.Bonds.Closing.{
  internal_claim_closure-IsBacked, internal_reset_bounty_to_initial_state-IsBacked,
}

working-open :
    (s : ClaimStatus)
    → has_claim_status (ClaimStatus.in_progress ∷ ClaimStatus.competes ∷ []) s ≡ true
    → is_open s ≡ true
working-open s h = ground arith

done_subtask-IsBacked :
    (c : Contract) (id : ℕ) (bounty : Bounty) (claim_id : ℕ) (claim : BountyClaim)
    (proposal_id : Option ℕ)
    → IsBacked 0 c
    → c.claims claim_id ≡ some claim
    → is_open claim.status ≡ true
    → Ensures (IsBacked 0) (done_subtask c id bounty claim_id claim proposal_id)
done_subtask-IsBacked c id bounty claim_id claim proposal_id v e opened =
    Ensures-bind _ (unwrap claim.slot) _ (λ slot _.
      Ensures-bind _ (internal_complete_slot bounty slot) _ (λ b _.
        Ensures-bind _ (record_proposal b proposal_id) _ (λ proposed _. done (
          save_claim-IsBacked claim_id claim (record claim { status = ClaimStatus.completed }) 0
            (internal_update_bounty-IsBacked id proposed v) e (ground (arith, opened))))))

pub internal_claim_done-IsBacked :
    (c : Contract) (id : ℕ) (receiver_id : AccountId) (claim_number proposal_id : Option ℕ)
    → IsBacked 0 c
    → Ensures (IsBacked 0) (internal_claim_done c id receiver_id claim_number proposal_id)
unfolding internal_claim_done IsStoredClaim
internal_claim_done-IsBacked c id receiver_id claim_number proposal_id v =
    Ensures-bind _
      (internal_get_and_check_bounty_and_claim c id receiver_id claim_number
        (BountyStatus.claimed ∷ BountyStatus.many_claimed ∷ [])
        (ClaimStatus.in_progress ∷ ClaimStatus.competes ∷ []) false
        "Bounty status does not allow to completion"
        "The claim status does not allow to complete the bounty")
      _
      (λ checked h. Ensures-bind _ (unwrap checked.1) _ (λ found h'.
        let (e, s) =
          Ensures-ok _ _
            (internal_get_and_check_bounty_and_claim-IsStoredClaim c id receiver_id claim_number
              (BountyStatus.claimed ∷ BountyStatus.many_claimed ∷ [])
              (ClaimStatus.in_progress ∷ ClaimStatus.competes ∷ [])
              "Bounty status does not allow to completion"
              "The claim status does not allow to complete the bounty")
            h found (expect-eq-ok _ _ h') in
        let opened = working-open found.1.status s in
        Ensures-if _ (is_different_tasks checked.0) _ _
          (λ _. done_subtask-IsBacked c id checked.0 found.0 found.1 proposal_id v e opened)
          (λ _. done (
            save_claim-IsBacked found.0 found.1
              (record found.1 {
                status = ClaimStatus.completed;
                bounty_payout_proposal_id = proposal_id;
              })
              0 v e (ground (arith, opened))))))

propose_done-IsBacked :
    (c : Contract) (id : ℕ) (receiver_id : AccountId) (claim_number : Option ℕ) (bounty : Bounty)
    (place : PlaceOfCheckKyc)
    → IsBacked 0 c
    → Ensures (IsBacked 0) (propose_done c id receiver_id claim_number bounty place)
propose_done-IsBacked c id receiver_id claim_number bounty place v =
    Ensures-bind _ (the_dao bounty.reviewers) _ (λ dao _.
      Ensures-bind _ (done_description place) _ (λ description _.
        Ensures-bind _ (the_dao bounty.reviewers) _
          (λ dao' _. done (record { locked = v.locked; fresh = v.fresh }))))

pub internal_add_proposal_and_update_claim-IsBacked :
    (c : Contract) (id : ℕ) (receiver_id : AccountId) (claim_number : Option ℕ)
    (place : PlaceOfCheckKyc)
    → IsBacked 0 c
    → Ensures
        (IsBacked 0)
        (internal_add_proposal_and_update_claim c id receiver_id claim_number place)
unfolding internal_add_proposal_and_update_claim
internal_add_proposal_and_update_claim-IsBacked c id receiver_id claim_number place v =
    Ensures-bind _ (get_bounty c id) _ (λ bounty _.
      Ensures-if _
        (is_validators_dao_used bounty
          && not (is_different_tasks bounty)
          && not (is_contest_or_hackathon bounty))
        _ _ (λ _. propose_done-IsBacked c id receiver_id claim_number bounty place v)
        (λ _. Ensures-bind _ (is_last_subtask c id bounty (receiver_id, claim_number)) _ (λ last _.
          Ensures-if _ last _ _
            (λ _. propose_done-IsBacked c id receiver_id claim_number bounty place v)
            (λ _. internal_claim_done-IsBacked c id receiver_id claim_number none v))))

report_done-IsBacked :
    (c : Contract) (id : ℕ) (sender_id : AccountId) (claim_number : Option ℕ) (bounty : Bounty)
    (claim : BountyClaim) (description : String)
    → IsBacked 0 c
    → Ensures (IsBacked 0) (report_done c id sender_id claim_number bounty claim description)
unfolding check_if_claimant_in_kyc_whitelist
report_done-IsBacked c id sender_id claim_number bounty claim description v =
    Ensures-bind _
      (is_kyc_check_required c bounty (some claim) (some sender_id) (claim_done description)) _
      (λ kyc _.
        Ensures-if _ kyc _ _
          (λ _.
            Ensures-bind _ (unwrap c.kyc_whitelist_contract) _
              (λ list _. done (record { locked = v.locked; fresh = v.fresh })))
          (λ _.
            internal_add_proposal_and_update_claim-IsBacked c id sender_id claim_number
              (claim_done description) v))

-- A call of `bounty_done` that does not panic keeps the locked amount equal to the sum of the
-- bonds of the open claims.
pub bounty_done-IsBacked :
    (ctx : Context) (c : Contract) (id : ℕ) (description : String) (claim_number : Option ℕ)
    → IsBacked 0 c
    → Ensures (IsBacked 0) (bounty_done ctx c id description claim_number)
unfolding bounty_done internal_set_claim_expiry_status
bounty_done-IsBacked ctx c id description claim_number v = Ensures-bind _ (assert_live c) _ (λ _ _.
    Ensures-bind _ (get_bounty c id) _ (λ bounty _.
      Ensures-assert _ (not (is_simple bounty.bounty_flow))
        "This operation is not supported for simple bounty flow" _
        (λ _.
          Ensures-assert _
            (has_bounty_status (BountyStatus.claimed ∷ BountyStatus.many_claimed ∷ []) bounty.status
              || (bounty_status_eq bounty.status BountyStatus.completed
                  && is_contest_or_hackathon bounty))
            "Bounty status does not allow to completion" _
            (λ _.
              Ensures-assert _ (bool_eq (is_some claim_number) bounty.allow_creating_many_claims)
                "Invalid claim_number value" _
                (λ _.
                  Ensures-bind _ (internal_get_claim c id ctx.predecessor claim_number) _
                    (λ found h.
                      Ensures-assert _
                        (has_claim_status (ClaimStatus.in_progress ∷ ClaimStatus.competes ∷ [])
                          found.1.status)
                        "The claim status does not allow to complete the bounty" _
                        (λ s.
                          let e =
                            (internal_get_claim-claims c id ctx.predecessor claim_number h).0 in
                          let opened = working-open found.1.status s in
                          Ensures-bind _ (is_claim_expired ctx found.1 bounty) _ (λ expired _.
                            Ensures-if _ expired _ _
                              (λ _.
                                internal_reset_bounty_to_initial_state-IsBacked ctx c id
                                  ctx.predecessor bounty found.0 found.1 (some ClaimStatus.expired)
                                  false v e opened)
                              (λ _.
                                Ensures-if _
                                  (bounty_status_eq bounty.status BountyStatus.completed
                                    && claim_status_eq found.1.status ClaimStatus.competes)
                                  _ _
                                  (λ _.
                                    Ensures-bind _ (internal_participants_decrement bounty) _
                                      (λ b _.
                                        internal_claim_closure-IsBacked
                                          (internal_update_bounty c id b) ctx.predecessor b.owner
                                          b.status found.0 found.1 none true
                                          (internal_update_bounty-IsBacked id b v) e opened))
                                  (λ _.
                                    report_done-IsBacked c id ctx.predecessor claim_number bounty
                                      found.1 description v))))))))))
