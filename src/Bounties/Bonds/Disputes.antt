-- ===== src/Bounties/Bonds/Disputes.antt =====
-- The result of a dispute keeps the bonds backed: `dispute_result` of bounties/src/lib.rs.
use heroes_contracts.Prelude.{
  ℕ, ◌≡◌, Bool, true, Option, none, some, is_some, [], ◌∷◌, arith, expect, Ensures, done,
  Ensures-bind, Ensures-assert, Ensures-if, ◌==◌, bool_eq,
}
use heroes_contracts.Near.{AccountId, Context}
use heroes_contracts.Bounties.Types.{BountyStatus, ClaimStatus, claim_status_eq}
use heroes_contracts.Bounties.Bounty.{is_different_tasks}
use heroes_contracts.Bounties.Contract.{Contract, get_bounty, assert_live}
use heroes_contracts.Bounties.Lookup.{has_bounty_status, internal_get_claim}
use heroes_contracts.Bounties.Lookup.Found.{internal_get_claim-claims}
use heroes_contracts.Bounties.Closure.{internal_claim_return_after_dispute}
use heroes_contracts.Bounties.Withdrawals.{dispute_result}
use heroes_contracts.Bounties.Bonds.{IsBacked, is_open, save_claim-IsBacked}
use heroes_contracts.Bounties.Bonds.Closing.{internal_reset_bounty_to_initial_state-IsBacked}
use heroes_contracts.Bounties.Bonds.Payout.{internal_bounty_payout-IsBacked}

pub disputed-open :
    (s : ClaimStatus) → claim_status_eq s ClaimStatus.disputed ≡ true → is_open s ≡ true
disputed-open s h = ground arith

-- A call of `dispute_result` that does not panic keeps the locked amount equal to the sum of the
-- bonds of the open claims, whether the dispute was won or lost.
pub dispute_result-IsBacked :
    (ctx : Context) (c : Contract) (id : ℕ) (receiver_id : AccountId) (claim_number : Option ℕ)
    (success : Bool)
    → IsBacked 0 c
    → Ensures (IsBacked 0) (dispute_result ctx c id receiver_id claim_number success)
unfolding dispute_result internal_claim_return_after_dispute
dispute_result-IsBacked ctx c id receiver_id claim_number success v =
    Ensures-bind _ (assert_live c) _ (λ _ _.
      Ensures-bind _
        (expect c.dispute_contract "The use of dispute is not supported by this contract") _
        (λ dispute _.
          Ensures-assert _ (dispute == ctx.predecessor)
            "This method can only be called by a dispute contract" _
            (λ _. Ensures-bind _ (get_bounty c id) _ (λ bounty _.
              Ensures-assert _
                (has_bounty_status (BountyStatus.claimed ∷ BountyStatus.many_claimed ∷ [])
                  bounty.status)
                "Bounty status does not allow sending the result of the dispute" _
                (λ _.
                  Ensures-assert _
                    (bool_eq (is_some claim_number) bounty.allow_creating_many_claims)
                    "Invalid claim_number value" _
                    (λ _.
                      Ensures-bind _ (internal_get_claim c id receiver_id claim_number) _
                        (λ found h.
                          Ensures-assert _ (claim_status_eq found.1.status ClaimStatus.disputed)
                            "The claim status does not allow opening a dispute" _
                            (λ s.
                              let e =
                                (internal_get_claim-claims c id receiver_id claim_number h).0 in
                              let opened = disputed-open found.1.status s in
                              Ensures-if _ success _ _
                                (λ _.
                                  Ensures-if _ (is_different_tasks bounty) _ _
                                    (λ _. done (
                                      save_claim-IsBacked found.0 found.1
                                        (record found.1 {
                                          status = ClaimStatus.completed_with_dispute;
                                        })
                                        0 v e (ground (arith, opened))))
                                    (λ _.
                                      internal_bounty_payout-IsBacked ctx c id
                                        (some (receiver_id, claim_number)) none v))
                                (λ _.
                                  internal_reset_bounty_to_initial_state-IsBacked ctx c id
                                    receiver_id bounty found.0 found.1 none true v e opened)))))))))
