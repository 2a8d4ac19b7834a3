-- ===== src/Bounties/Bonds/Answers.antt =====
-- The answers of other contracts keep the bonds backed: bounties/src/callbacks.rs.
use heroes_contracts.Prelude.{
  ℕ, String, string_eq, ◌≡◌, refl, Bool, true, false, ◌||◌, Option, none, some, arith, Ensures,
  done, stopped, Ensures-bind, Ensures-if, Ensures-assert, Ensures-ok, [], ◌∷◌, unwrap,
  expect-eq-ok,
}
use heroes_contracts.Near.{AccountId, Context}
use heroes_contracts.Bounties.Types.{
  BountyStatus, ClaimStatus, Claimant, bounty_status_eq, DefermentOfKyc,
}
use heroes_contracts.Bounties.Bounty.{Bounty, is_different_tasks}
use heroes_contracts.Bounties.Claim.{BountyClaim}
use heroes_contracts.Bounties.Contract.{
  Contract, PlaceOfCheckKyc, creating_claim, decision_on_claim, claim_done, get_bounty,
}
use heroes_contracts.Bounties.Lookup.{has_claim_status, internal_get_and_check_bounty_and_claim}
use heroes_contracts.Bounties.Lookup.Found.{
  IsStoredClaim, internal_get_and_check_bounty_and_claim-IsStoredClaim,
}
use heroes_contracts.Bounties.Closure.{internal_claim_return_after_dispute}
use heroes_contracts.Bounties.Claiming.{check_if_allowed_to_approve_claim_by_status}
use heroes_contracts.Bounties.Decision.{
  internal_claim_done, internal_approval_and_save_claim, internal_rejection_and_save_claim,
}
use heroes_contracts.Bounties.Answers.{
  Proposal, Dispute, on_added_proposal, assert_proposal, answered_claim, pay_as_decided,
  after_check_bounty_payout_proposal_callback, after_check_approve_claimant_proposal_callback,
  after_create_dispute_callback, after_get_dispute_callback, after_get_ft_metadata_callback,
  after_check_if_whitelisted_callback,
}
use heroes_contracts.Bounties.Bonds.{IsBacked, save_claim-IsBacked, internal_return_bonds-IsBacked}
use heroes_contracts.Bounties.Bonds.Closing.{
  internal_reject_claim-IsBacked, internal_reset_bounty_to_initial_state-IsBacked,
  save_closed-IsBacked,
}
use heroes_contracts.Bounties.Bonds.Payout.{internal_bounty_payout-IsBacked}
use heroes_contracts.Bounties.Bonds.Hiring.{
  IsNew, check_if_allowed_to_approve_claim_by_status-IsNew,
  internal_approval_and_save_claim-IsBacked,
}
use heroes_contracts.Bounties.Bonds.Done.{
  internal_claim_done-IsBacked, internal_add_proposal_and_update_claim-IsBacked,
}

-- The check was made before a claim is made.
abbrev pub is_creating : PlaceOfCheckKyc → Bool
is_creating (creating_claim _ _) = true
is_creating _ = false

module _ (c : Contract) (id : ℕ) (receiver_id : AccountId) (claim_number : Option ℕ) where
  -- The claim is stored, and has the status.
  answered_claim-claims :
      (status : ClaimStatus) (bounty_message claim_message : String)
      → Ensures
          (λ (r : Bounty × ℕ × BountyClaim).
            (c.claims r.1 ≡ some r.2) × (has_claim_status (status ∷ []) r.2.status ≡ true))
          (answered_claim c id receiver_id claim_number status bounty_message claim_message)
  unfolding IsStoredClaim
  answered_claim-claims status bounty_message claim_message =
      Ensures-bind _
        (internal_get_and_check_bounty_and_claim c id receiver_id claim_number
          (BountyStatus.claimed ∷ BountyStatus.many_claimed ∷ []) (status ∷ []) false bounty_message
          claim_message)
        _
        (λ checked h. Ensures-bind _ (unwrap checked.1) _ (λ found h'. done (
          Ensures-ok _ _
            (internal_get_and_check_bounty_and_claim-IsStoredClaim c id receiver_id claim_number
              (BountyStatus.claimed ∷ BountyStatus.many_claimed ∷ []) (status ∷ []) bounty_message
              claim_message)
            h found (expect-eq-ok _ _ h'))))

module _ (ctx : Context) (c : Contract) (id : ℕ) (receiver_id : AccountId)
    (claim_number : Option ℕ) where
  internal_approval_and_save_claim-claimant :
      (is_kyc_delayed : Option DefermentOfKyc)
      → IsBacked 0 c
      → Ensures (IsBacked 0) (
          internal_approval_and_save_claim ctx c id
            (some (receiver_id, claim_number))
            none
            is_kyc_delayed)
  unfolding internal_approval_and_save_claim
  internal_approval_and_save_claim-claimant is_kyc_delayed v =
      Ensures-bind _ (check_if_allowed_to_approve_claim_by_status ctx c id receiver_id claim_number)
        _
        (λ found h. internal_approval_and_save_claim-IsBacked ctx c id found is_kyc_delayed v (
          Ensures-ok (IsNew c) _
            (check_if_allowed_to_approve_claim_by_status-IsNew ctx c id receiver_id claim_number)
            h))

  internal_rejection_and_save_claim-claimant :
      IsBacked 0 c
      → Ensures
          (IsBacked 0)
          (internal_rejection_and_save_claim ctx c (some (id, receiver_id, claim_number)) none)
  unfolding internal_rejection_and_save_claim IsNew
  internal_rejection_and_save_claim-claimant v =
      Ensures-bind _ (check_if_allowed_to_approve_claim_by_status ctx c id receiver_id claim_number)
        _
        (λ found h.
          let (e, opened) =
            Ensures-ok (IsNew c) _
              (check_if_allowed_to_approve_claim_by_status-IsNew ctx c id receiver_id claim_number)
              h in
          internal_return_bonds-IsBacked _ found.2.owner found.2.bond
            (save_closed-IsBacked found.1 found.2 ClaimStatus.not_hired v e opened refl))

module _ (ctx : Context) (c : Contract) (id : ℕ) (v : IsBacked 0 c) where
  pay_as_decided-IsBacked :
      (claimant : Option Claimant) (status : String)
      → Ensures (IsBacked 0) (pay_as_decided ctx c id claimant status)
  pay_as_decided-IsBacked none status = Ensures-bind _ (get_bounty c id) _ (λ bounty _.
      Ensures-assert _ (bounty_status_eq bounty.status BountyStatus.many_claimed)
        "Bounty status does not allow completion" _
        (λ _.
          Ensures-if _ (string_eq status "Approved") _ _
            (λ _. internal_bounty_payout-IsBacked ctx c id none none v) (λ _. stopped)))
  pay_as_decided-IsBacked (some (receiver_id, claim_number)) status =
      Ensures-bind _
        (answered_claim c id receiver_id claim_number ClaimStatus.completed
          "Bounty status does not allow completion"
          "The claim status does not allow you to complete the bounty")
        _
        (λ found h.
          let (e, s) =
            Ensures-ok _ _
              (answered_claim-claims c id receiver_id claim_number ClaimStatus.completed
                "Bounty status does not allow completion"
                "The claim status does not allow you to complete the bounty")
              h in
          Ensures-if _ (string_eq status "Approved") _ _
            (λ _.
              internal_bounty_payout-IsBacked ctx c id (some (receiver_id, claim_number)) none v)
            (λ _.
              Ensures-if _ (string_eq status "Rejected") _ _
                (λ _.
                  internal_reject_claim-IsBacked ctx c id receiver_id found.0 found.1 found.2 v e
                    (ground (arith, s)))
                (λ _. stopped)))

  -- The DAO's answer on a payout keeps the locked amount equal to the sum of the bonds of the open
  -- claims.
  pub after_check_bounty_payout_proposal_callback-IsBacked :
      (answer : Option Proposal) (claimant : Option Claimant) (proposal_id : ℕ)
      → Ensures
          (IsBacked 0)
          (after_check_bounty_payout_proposal_callback ctx c answer id claimant proposal_id)
  unfolding after_check_bounty_payout_proposal_callback
  after_check_bounty_payout_proposal_callback-IsBacked none claimant proposal_id = stopped
  after_check_bounty_payout_proposal_callback-IsBacked (some proposal) claimant proposal_id =
      Ensures-bind _ (assert_proposal ctx proposal proposal_id) _
        (λ _ _. pay_as_decided-IsBacked claimant proposal.status)

  -- The DAO's answer on a claimant keeps the locked amount equal to the sum of the bonds of the open
  -- claims.
  pub after_check_approve_claimant_proposal_callback-IsBacked :
      (answer : Option Proposal) (receiver_id : AccountId) (claim_number : Option ℕ)
      (proposal_id : ℕ)
      → Ensures (IsBacked 0) (
          after_check_approve_claimant_proposal_callback ctx c answer id receiver_id claim_number
            proposal_id)
  unfolding after_check_approve_claimant_proposal_callback
  after_check_approve_claimant_proposal_callback-IsBacked none receiver_id claim_number
        proposal_id =
      stopped
  after_check_approve_claimant_proposal_callback-IsBacked (some proposal) receiver_id claim_number
        proposal_id =
      Ensures-bind _ (assert_proposal ctx proposal proposal_id) _ (λ _ _.
        Ensures-if _ (string_eq proposal.status "Approved") _ _
          (λ _. internal_approval_and_save_claim-claimant ctx c id receiver_id claim_number none v)
          (λ _.
            Ensures-if _ (string_eq proposal.status "Rejected") _ _
              (λ _. internal_rejection_and_save_claim-claimant ctx c id receiver_id claim_number v)
              (λ _. stopped)))

  -- The answer on a dispute keeps the locked amount equal to the sum of the bonds of the open claims.
  pub after_get_dispute_callback-IsBacked :
      (answer : Option Dispute) (receiver_id : AccountId) (claim_number : Option ℕ)
      → Ensures (IsBacked 0) (after_get_dispute_callback ctx c answer id receiver_id claim_number)
  unfolding after_get_dispute_callback internal_claim_return_after_dispute
  after_get_dispute_callback-IsBacked none receiver_id claim_number = stopped
  after_get_dispute_callback-IsBacked (some dispute) receiver_id claim_number =
      Ensures-bind _
        (answered_claim c id receiver_id claim_number ClaimStatus.disputed
          "Bounty status does not allow to reject a claim as a result of a dispute"
          "Claim status does not allow rejection as a result of a dispute")
        _
        (λ found h.
          let (e, s) =
            Ensures-ok _ _
              (answered_claim-claims c id receiver_id claim_number ClaimStatus.disputed
                "Bounty status does not allow to reject a claim as a result of a dispute"
                "Claim status does not allow rejection as a result of a dispute")
              h in
          Ensures-if _
            (string_eq dispute.status "InFavorOfClaimant"
              || string_eq dispute.status "CanceledByProjectOwner")
            _ _
            (λ _.
              Ensures-if _ (is_different_tasks found.0) _ _
                (λ _. done (
                  save_claim-IsBacked found.1 found.2
                    (record found.2 { status = ClaimStatus.completed_with_dispute }) 0 v e
                    (ground (arith, s))))
                (λ _.
                  internal_bounty_payout-IsBacked ctx c id (some (receiver_id, claim_number)) none
                    v))
            (λ _.
              Ensures-if _
                (string_eq dispute.status "InFavorOfProjectOwner"
                  || string_eq dispute.status "CanceledByClaimant")
                _ _
                (λ _.
                  internal_reset_bounty_to_initial_state-IsBacked ctx c id receiver_id found.0
                    found.1 found.2 none true v e (ground (arith, s)))
                (λ _. stopped)))

  -- The answer of the KYC whitelist, unless a claim is to be made, keeps the locked amount equal to
  -- the sum of the bonds of the open claims.
  pub after_check_if_whitelisted_callback-IsBacked :
      (answer : Option Bool) (receiver_id : AccountId) (claim_number : Option ℕ)
      (place : PlaceOfCheckKyc) (slot : Option ℕ)
      → is_creating place ≡ false
      → Ensures
          (IsBacked 0)
          (after_check_if_whitelisted_callback ctx c answer id receiver_id claim_number place slot)
  unfolding after_check_if_whitelisted_callback
  after_check_if_whitelisted_callback-IsBacked none receiver_id claim_number place slot h = stopped
  after_check_if_whitelisted_callback-IsBacked (some b) receiver_id claim_number
        (creating_claim deadline description) slot h =
      cc
  after_check_if_whitelisted_callback-IsBacked (some b) receiver_id claim_number
        (decision_on_claim is_kyc_delayed) slot h =
      Ensures-assert _ b "The claimant is not whitelisted" _ (λ _.
        internal_approval_and_save_claim-claimant ctx c id receiver_id claim_number is_kyc_delayed
          v)
  after_check_if_whitelisted_callback-IsBacked (some b) receiver_id claim_number
        (claim_done description) slot h =
      Ensures-assert _ b "The claimant is not whitelisted" _ (λ _.
        internal_add_proposal_and_update_claim-IsBacked c id receiver_id claim_number
          (claim_done description) v)

module _ (c : Contract) (id : ℕ) (receiver_id : AccountId) (claim_number : Option ℕ)
    (v : IsBacked 0 c) where
  pub on_added_proposal-IsBacked :
      (answer : Option ℕ)
      → Ensures (λ r. IsBacked 0 r.1) (on_added_proposal c answer id receiver_id claim_number)
  unfolding on_added_proposal
  on_added_proposal-IsBacked none = done v
  on_added_proposal-IsBacked (some proposal_id) =
      Ensures-bind _ (internal_claim_done c id receiver_id claim_number (some proposal_id)) _
        (λ d h. done (
          Ensures-ok _ _
            (internal_claim_done-IsBacked c id receiver_id claim_number (some proposal_id) v) h))

  pub after_create_dispute_callback-IsBacked :
      (answer : Option ℕ)
      → Ensures
          (λ r. IsBacked 0 r.1)
          (after_create_dispute_callback c answer id receiver_id claim_number)
  unfolding after_create_dispute_callback
  after_create_dispute_callback-IsBacked none = done v
  after_create_dispute_callback-IsBacked (some dispute_id) =
      Ensures-bind _
        (answered_claim c id receiver_id claim_number ClaimStatus.rejected
          "Bounty status does not allow opening a dispute"
          "The claim status does not allow opening a dispute")
        _
        (λ found h.
          let (e, s) =
            Ensures-ok _ _
              (answered_claim-claims c id receiver_id claim_number ClaimStatus.rejected
                "Bounty status does not allow opening a dispute"
                "The claim status does not allow opening a dispute")
              h in
          done (
            save_claim-IsBacked found.1 found.2
              (record found.2 { status = ClaimStatus.disputed; dispute_id = some dispute_id }) 0 v e
              (ground (arith, s))))

pub after_get_ft_metadata_callback-IsBacked :
    (c : Contract) (readable : Bool) (token_id : AccountId) (min_amount_for_kyc : Option ℕ)
    → IsBacked 0 c
    → IsBacked 0 (after_get_ft_metadata_callback c readable token_id min_amount_for_kyc).1
unfolding after_get_ft_metadata_callback
after_get_ft_metadata_callback-IsBacked c false token_id min_amount_for_kyc v = v
after_get_ft_metadata_callback-IsBacked c true token_id min_amount_for_kyc v = record {
  locked = v.locked;
  fresh = v.fresh;
}
