-- ===== src/Bounties/Bonds/Hiring.antt =====
-- A decision on a claimant keeps or returns the bond: `accept_claimant` and `decline_claimant` of
-- bounties/src/lib.rs.
use heroes_contracts.Prelude.{
  ℕ, ◌≡◌, refl, sym, ◌∙◌, ap, true, false, Option, none, some, is_some, [], ◌∷◌, arith, unwrap,
  expect-eq-ok, Ensures, done, Ensures-bind, Ensures-assert, Ensures-if, Ensures-ok, not, bool_eq,
}
use heroes_contracts.Near.{AccountId, Context, assert_one_yocto}
use heroes_contracts.Bounties.Types.{ClaimStatus, DefermentOfKyc, ReputationActionKind}
use heroes_contracts.Bounties.Bounty.{
  Bounty, check_access_rights, is_simple, is_claim_deadline_correct,
}
use heroes_contracts.Bounties.Claim.{BountyClaim}
use heroes_contracts.Bounties.Contract.{
  Contract, bond_of, save_claim, get_bounty, assert_live, internal_update_bounty, emit_to,
  decision_on_claim,
}
use heroes_contracts.Bounties.Lookup.{has_claim_status, internal_get_and_check_bounty_and_claim}
use heroes_contracts.Bounties.Lookup.Found.{
  IsStoredClaim, internal_get_and_check_bounty_and_claim-IsStoredClaim,
}
use heroes_contracts.Bounties.Approval.{approve, internal_claimant_approval}
use heroes_contracts.Bounties.Claiming.{
  check_if_allowed_to_approve_claim_by_status, is_kyc_check_required,
  check_if_claimant_in_kyc_whitelist, decidable_in, still_open,
}
use heroes_contracts.Bounties.Decision.{
  internal_approval_and_save_claim, internal_rejection_and_save_claim,
}
use heroes_contracts.Bounties.Methods.{accept_claimant, decline_claimant}
use heroes_contracts.Bounties.Bonds.{IsBacked, is_open, held_bond, internal_return_bonds-IsBacked}
use heroes_contracts.Bounties.Bonds.Approval.{approve-Opens}
use heroes_contracts.Bounties.Bonds.Closing.{save_closed-IsBacked}
use heroes_contracts.Bounties.Bonds.Waiting.{KeepsBonds, KeepsBonds-IsBacked}

-- The approved claim, which the caller saves, holds its bond, and so do the others.
pub record Approves (c : Contract) (bond : Option ℕ) (r : Contract × BountyClaim) : Type 0 where
  pub keeps : KeepsBonds c r.0
  pub same : held_bond (some r.1) ≡ bond_of bond

emit_to-KeepsBonds :
    (reputation : Option AccountId) (c d : Contract) (receiver owner : Option AccountId)
    (action : ReputationActionKind)
    → KeepsBonds c d
    → KeepsBonds c (emit_to reputation d receiver owner action)
emit_to-KeepsBonds none c d receiver owner action k = k
emit_to-KeepsBonds (some r) c d receiver owner action k = record {
  locked = k.locked;
  ids = k.ids;
  held = k.held;
  fresh = k.fresh;
}

pub internal_claimant_approval-Approves :
    (ctx : Context) (c : Contract) (id : ℕ) (bounty : Bounty) (claim : BountyClaim)
    (is_kyc_delayed : Option DefermentOfKyc)
    → Ensures
        (Approves c claim.bond)
        (internal_claimant_approval ctx c id bounty claim is_kyc_delayed)
unfolding internal_claimant_approval
internal_claimant_approval-Approves ctx c id bounty claim is_kyc_delayed =
    Ensures-bind _ (approve ctx c id bounty claim bounty.multitasking) _ (λ s h.
      let started = Ensures-ok _ _ (approve-Opens ctx c id bounty claim bounty.multitasking) h in
      let k = started.keeps in
      done (record {
        keeps =
            emit_to-KeepsBonds s.0.reputation_contract c (internal_update_bounty s.0 id s.1)
              (some claim.owner) (some s.1.owner) ReputationActionKind.claimant_approved
              (record { locked = k.locked; ids = k.ids; held = k.held; fresh = k.fresh });
        same = ground (arith, started.opened);
      }))

saved-KeepsBonds :
    (c d : Contract) (i : ℕ) (claim new : BountyClaim)
    → KeepsBonds c d
    → c.claims i ≡ some claim
    → held_bond (some new) ≡ held_bond (some claim)
    → KeepsBonds c (save_claim d i new)
saved-KeepsBonds c d i claim new k e same = record {
  locked = k.locked;
  ids = k.ids;
  held = λ j. ground (arith, k.held j, ap held_bond e);
  fresh = λ j absent. ground (arith, k.fresh j absent);
}

-- A claim on which a decision is allowed: it is stored and new.
unfoldable pub IsNew : Contract → Bounty × ℕ × BountyClaim → Type 0
IsNew c (bounty, claim_id, claim) = (c.claims claim_id ≡ some claim) × (is_open claim.status ≡ true)

new-open : (s : ClaimStatus) → has_claim_status (ClaimStatus.new ∷ []) s ≡ true → is_open s ≡ true
new-open s h = ground arith

pub check_if_allowed_to_approve_claim_by_status-IsNew :
    (ctx : Context) (c : Contract) (id : ℕ) (receiver_id : AccountId) (claim_number : Option ℕ)
    → Ensures
        (IsNew c)
        (check_if_allowed_to_approve_claim_by_status ctx c id receiver_id claim_number)
unfolding check_if_allowed_to_approve_claim_by_status IsNew IsStoredClaim
check_if_allowed_to_approve_claim_by_status-IsNew ctx c id receiver_id claim_number =
    Ensures-bind _ (get_bounty c id) _ (λ bounty _.
      Ensures-assert _ (bool_eq (is_some claim_number) bounty.allow_creating_many_claims)
        "Invalid claim_number value" _
        (λ _. Ensures-bind _ (decidable_in bounty.multitasking) _ (λ statuses _.
          Ensures-bind _
            (internal_get_and_check_bounty_and_claim c id receiver_id claim_number statuses
              (ClaimStatus.new ∷ []) false
              "Bounty status does not allow to make a decision on a claim"
              "Claim status does not allow a decision to be made")
            _
            (λ checked h. Ensures-bind _ (unwrap checked.1) _ (λ found h'.
              Ensures-bind _ (still_open ctx bounty.multitasking found.1.slot) _ (λ _ _.
                let (e, s) =
                  Ensures-ok _ _
                    (internal_get_and_check_bounty_and_claim-IsStoredClaim c id receiver_id
                      claim_number statuses (ClaimStatus.new ∷ [])
                      "Bounty status does not allow to make a decision on a claim"
                      "Claim status does not allow a decision to be made")
                    h found (expect-eq-ok _ _ h') in
                done (e, new-open found.1.status s)))))))

pub internal_approval_and_save_claim-IsBacked :
    (ctx : Context) (c : Contract) (id : ℕ) (found : Bounty × ℕ × BountyClaim)
    (is_kyc_delayed : Option DefermentOfKyc)
    → IsBacked 0 c
    → IsNew c found
    → Ensures
        (IsBacked 0)
        (internal_approval_and_save_claim ctx c id none (some found) is_kyc_delayed)
unfolding internal_approval_and_save_claim IsNew
internal_approval_and_save_claim-IsBacked ctx c id (bounty, claim_id, claim) is_kyc_delayed v
      (e, opened) =
    Ensures-bind _ (internal_claimant_approval ctx c id bounty claim is_kyc_delayed) _ (λ r h.
      let approved =
        Ensures-ok _ _ (internal_claimant_approval-Approves ctx c id bounty claim is_kyc_delayed)
          h in
      done (
        KeepsBonds-IsBacked
          (saved-KeepsBonds c r.0 claim_id claim r.1 approved.keeps e
            (approved.same ∙ sym (ground (arith, opened))))
          v))

-- A call of `decline_claimant` that does not panic returns the bond of the claim and keeps the
-- locked amount equal to the sum of the bonds of the open claims.
pub decline_claimant-IsBacked :
    (ctx : Context) (c : Contract) (id : ℕ) (receiver_id : AccountId) (claim_number : Option ℕ)
    → IsBacked 0 c
    → Ensures (IsBacked 0) (decline_claimant ctx c id receiver_id claim_number)
unfolding decline_claimant internal_rejection_and_save_claim IsNew
decline_claimant-IsBacked ctx c id receiver_id claim_number v =
    Ensures-bind _ (assert_live c) _ (λ _ _.
      Ensures-bind _ (check_if_allowed_to_approve_claim_by_status ctx c id receiver_id claim_number)
        _
        (λ found h. Ensures-bind _ (check_access_rights ctx found.0) _ (λ _ _.
          Ensures-assert _ (not (is_simple found.0.bounty_flow))
            "This operation is not supported for simple bounty flow" _
            (λ _.
              let (e, opened) =
                Ensures-ok (IsNew c) _
                  (check_if_allowed_to_approve_claim_by_status-IsNew ctx c id receiver_id
                    claim_number)
                  h in
              internal_return_bonds-IsBacked _ found.2.owner found.2.bond
                (save_closed-IsBacked found.1 found.2 ClaimStatus.not_hired v e opened refl)))))

-- A call of `accept_claimant` that does not panic keeps the locked amount equal to the sum of the
-- bonds of the open claims, in every mode and with every claim that starts with the accepted one.
pub accept_claimant-IsBacked :
    (ctx : Context) (c : Contract) (id : ℕ) (receiver_id : AccountId) (claim_number : Option ℕ)
    (kyc_postponed : Option DefermentOfKyc)
    → IsBacked 0 c
    → Ensures (IsBacked 0) (accept_claimant ctx c id receiver_id claim_number kyc_postponed)
unfolding accept_claimant check_if_claimant_in_kyc_whitelist
accept_claimant-IsBacked ctx c id receiver_id claim_number kyc_postponed v =
    Ensures-bind _ (assert_live c) _ (λ _ _. Ensures-bind _ (assert_one_yocto ctx) _ (λ _ _.
      Ensures-bind _ (check_if_allowed_to_approve_claim_by_status ctx c id receiver_id claim_number)
        _
        (λ found h. Ensures-bind _ (check_access_rights ctx found.0) _ (λ _ _.
          Ensures-assert _ (not (is_simple found.0.bounty_flow))
            "This operation is not supported for simple bounty flow" _
            (λ _.
              Ensures-bind _ (is_claim_deadline_correct ctx found.0 found.2.deadline) _
                (λ correct _.
                  Ensures-assert _ correct "The claim deadline is no longer correct" _ (λ _.
                    Ensures-bind _
                      (is_kyc_check_required c found.0 none none (decision_on_claim kyc_postponed))
                      _
                      (λ kyc _.
                        Ensures-if _ kyc _ _
                          (λ _.
                            Ensures-bind _ (unwrap c.kyc_whitelist_contract) _
                              (λ list _. done (record { locked = v.locked; fresh = v.fresh })))
                          (λ _.
                            internal_approval_and_save_claim-IsBacked ctx c id found kyc_postponed v
                              (Ensures-ok (IsNew c) _
                                (check_if_allowed_to_approve_claim_by_status-IsNew ctx c id
                                  receiver_id claim_number)
                                h))))))))))
