-- ===== src/Bounties/Bonds/Methods.antt =====
-- The public methods of bounties/src/lib.rs that end a claim keep the bonds backed.
use heroes_contracts.Prelude.{
  ℕ, ◌≡◌, true, Option, some, is_some, arith, bool_eq, Ensures, Ensures-bind, Ensures-if,
  Ensures-assert,
}
use heroes_contracts.Near.{Context}
use heroes_contracts.Bounties.Types.{ClaimStatus}
use heroes_contracts.Bounties.Bounty.{Bounty}
use heroes_contracts.Bounties.Claim.{BountyClaim}
use heroes_contracts.Bounties.Contract.{Contract, get_bounty, internal_update_bounty, assert_live}
use heroes_contracts.Bounties.Lookup.{internal_get_claim}
use heroes_contracts.Bounties.Lookup.Found.{internal_get_claim-claims}
use heroes_contracts.Bounties.Bonds.{IsBacked, is_open, internal_update_bounty-IsBacked}
use heroes_contracts.Bounties.Bonds.Closing.{
  internal_claim_closure-IsBacked, internal_reset_bounty_to_initial_state-IsBacked,
}
use heroes_contracts.Bounties.Methods.{may_give_up, leave, is_forgiven, bounty_give_up}

may_give_up-open :
    (bounty : Bounty) (claim : BountyClaim)
    → may_give_up bounty claim ≡ true
    → is_open claim.status ≡ true
may_give_up-open bounty claim h = ground arith

-- When the locked amount is the sum of the bonds of the open claims, it still is after any call of
-- `bounty_give_up` that does not panic, in every mode and whether or not the bond is returned.
pub bounty_give_up-IsBacked :
    (ctx : Context) (c : Contract) (id : ℕ) (claim_number : Option ℕ)
    → IsBacked 0 c
    → Ensures (IsBacked 0) (bounty_give_up ctx c id claim_number)
unfolding bounty_give_up
bounty_give_up-IsBacked ctx c id claim_number v = Ensures-bind _ (assert_live c) _ (λ _ _.
    Ensures-bind _ (get_bounty c id) _ (λ bounty _.
      Ensures-assert _ (bool_eq (is_some claim_number) bounty.allow_creating_many_claims)
        "Invalid claim_number value" _
        (λ _. Ensures-bind _ (internal_get_claim c id ctx.predecessor claim_number) _ (λ found h.
          Ensures-assert _ (may_give_up bounty found.1)
            "The claim status does not allow to give up the bounty" _
            (λ allowed.
              let e = (internal_get_claim-claims c id ctx.predecessor claim_number h).0 in
              let opened = may_give_up-open bounty found.1 allowed in
              Ensures-if _ _ _ _
                (λ working. Ensures-bind _ (is_forgiven ctx c bounty found.1) _ (λ return_bond _.
                  internal_reset_bounty_to_initial_state-IsBacked ctx c id ctx.predecessor bounty
                    found.0 found.1 (some ClaimStatus.canceled) return_bond v e opened))
                (λ waiting. Ensures-bind _ (leave bounty found.1) _ (λ b _.
                  internal_claim_closure-IsBacked (internal_update_bounty c id b) ctx.predecessor
                    b.owner b.status found.0 found.1 (some ClaimStatus.canceled) true
                    (internal_update_bounty-IsBacked id b v) e opened)))))))
