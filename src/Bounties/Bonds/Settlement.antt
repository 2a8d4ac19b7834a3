-- ===== src/Bounties/Bonds/Settlement.antt =====
-- Who gets the bond of a claim that is closed, bounties/src/internal.rs.
use heroes_contracts.Prelude.{
  ℕ, ◌≡◌, ◌+◌, ◌==◌, refl, Bool, true, false, if◌then◌else◌, Option, some, none, List, [], ◌∷◌, not,
  ◌||◌, ap, ◌∙◌, add, u128_bound, done, Ensures-weaken, arith, sub, Ensures, Ensures-bind,
  Ensures-if,
}
use heroes_contracts.Near.{AccountId}
use heroes_contracts.Bounties.Types.{
  BountyStatus, ClaimStatus, ReputationActionKind, claim_status_eq,
}
use heroes_contracts.Bounties.Bounty.{Bounty}
use mathlib.Core.Path.{subst}
use heroes_contracts.Bounties.Claim.{BountyClaim}
use heroes_contracts.Bounties.Contract.{
  Contract, Receipt, transfer, bond_of, emit_to, save_claim, internal_update_statistic,
  internal_update_bounty, internal_return_bonds, internal_unlock_non_refunded_bond,
}
use heroes_contracts.Bounties.Closure.{
  not_begun, told_owner, closing_action, closing_status, settle_bond, internal_claim_closure,
}

-- The sum of the bonds that the promises return to an account.
unfoldable pub returned_to : AccountId → List Receipt → ℕ
returned_to account [] = 0
returned_to account (transfer receiver amount ∷ rest) =
    let others = returned_to account rest in if receiver == account then amount + others else others
returned_to account (_ ∷ rest) = returned_to account rest

-- The bond is no longer locked, and goes to the account or to the contract.
pub record Settles (c : Contract) (account : AccountId) (bond : ℕ) (returned : Bool) (d : Contract)
    : Type 0 where
  pub locked : d.locked_amount + bond ≡ c.locked_amount
  pub kept : d.unlocked_amount ≡ c.unlocked_amount + (if returned then 0 else bond)
  pub sent :
      returned_to account d.receipts
      ≡ (if returned then bond else 0) + returned_to account c.receipts

-- The claim has this status and is otherwise as before.
abbrev pub Ends : ℕ → BountyClaim → ClaimStatus → Contract → Type 0
Ends i claim status d = d.claims i ≡ some (record claim { status = status })

settle_bond-Settles :
    (c : Contract) (account : AccountId) (bond : Option ℕ) (returned : Bool)
    → Ensures
        (λ d. Settles c account (bond_of bond) returned d × (d.claims ≡ c.claims))
        (settle_bond c account bond returned)
unfolding internal_return_bonds internal_unlock_non_refunded_bond returned_to
settle_bond-Settles c account bond true =
    Ensures-if _ (bond_of bond == 0) _ _
      (λ no_bond.
        done (record { locked = ground arith; kept = omega arith; sent = ground arith }, refl))
      (λ _. Ensures-bind _ (sub c.locked_amount (bond_of bond)) _ (λ left h.
        done (record { locked = ground arith; kept = omega arith; sent = ground arith }, refl)))
settle_bond-Settles c account bond false =
    Ensures-if _ (bond_of bond == 0) _ _
      (λ no_bond.
        done (record { locked = ground arith; kept = ground arith; sent = omega arith }, refl))
      (λ _. Ensures-bind _ (sub c.locked_amount (bond_of bond)) _ (λ left h.
        Ensures-bind _ (add u128_bound c.unlocked_amount (bond_of bond)) _ (λ more h'.
          done (record { locked = ground arith; kept = ground arith; sent = omega arith }, refl))))

-- The bonds and the claims are the same.
record SameBonds (account : AccountId) (c d : Contract) : Type 0 where
  locked : d.locked_amount ≡ c.locked_amount
  kept : d.unlocked_amount ≡ c.unlocked_amount
  sent : returned_to account d.receipts ≡ returned_to account c.receipts
  claims : d.claims ≡ c.claims

emit_to-SameBonds :
    (reputation : Option AccountId) (c : Contract) (account : AccountId)
    (receiver owner : Option AccountId) (action : ReputationActionKind)
    → SameBonds account c (emit_to reputation c receiver owner action)
unfolding returned_to
emit_to-SameBonds none c account receiver owner action = record {
  locked = refl;
  kept = refl;
  sent = refl;
  claims = refl;
}
emit_to-SameBonds (some reputation) c account receiver owner action = record {
  locked = refl;
  kept = refl;
  sent = refl;
  claims = refl;
}

told-SameBonds :
    (told : Bool) (c : Contract) (account : AccountId) (receiver owner : Option AccountId)
    (action : ReputationActionKind)
    → SameBonds account c (if told then internal_update_statistic c receiver owner action else c)
told-SameBonds true c account receiver owner action =
    emit_to-SameBonds c.reputation_contract c account receiver owner action
told-SameBonds false c account receiver owner action = record {
  locked = refl;
  kept = refl;
  sent = refl;
  claims = refl;
}

-- A claim on a bounty that has been saved is closed.
pub internal_claim_closure-Settles :
    (c : Contract) (id : ℕ) (b : Bounty) (account owner : AccountId) (old_status : BountyStatus)
    (i : ℕ) (claim : BountyClaim) (status : Option ClaimStatus) {returned due : Bool}
    → returned ≡ due
    → Ensures
        (λ d. Settles c account (bond_of claim.bond) due d × Ends i claim (closing_status status) d)
        (internal_claim_closure
          (internal_update_bounty c id b)
          account
          owner
          old_status
          i
          claim
          status
          returned)
unfolding internal_claim_closure
internal_claim_closure-Settles c id b account owner old_status i claim status {returned} {due} e =
    let saved =
      save_claim (internal_update_bounty c id b) i
        (record claim { status = closing_status status }) in
    Ensures-bind _
      (closing_action (closing_status status) (claim_status_eq claim.status ClaimStatus.disputed)) _
      (λ action _.
        let same =
          told-SameBonds
            (not (not_begun claim old_status)
              || not (claim_status_eq (closing_status status) ClaimStatus.canceled))
            saved account (some account) (told_owner (closing_status status) owner) action in
        subst
          (λ r.
            Ensures
              (λ d.
                Settles c account (bond_of claim.bond) r d × Ends i claim (closing_status status) d)
              (settle_bond
                (if not (not_begun claim old_status)
                    || not (claim_status_eq (closing_status status) ClaimStatus.canceled)
                  then internal_update_statistic saved (some account)
                      (told_owner (closing_status status) owner) action
                  else saved)
                account claim.bond returned))
          e
          (Ensures-weaken _ _ _
            (λ d h. (
              record {
                locked = h.0.locked ∙ same.locked;
                kept = omega (arith, h.0.kept, same.kept);
                sent = omega (arith, h.0.sent, same.sent);
              },
              ap (λ m. m i) (h.1 ∙ same.claims) ∙ ground arith,
            ))
            (settle_bond-Settles _ account claim.bond returned)))
