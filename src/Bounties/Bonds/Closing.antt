-- ===== src/Bounties/Bonds/Closing.antt =====
-- The ends of a claim, bounties/src/internal.rs and lib.rs, pay or keep exactly its bond.
use heroes_contracts.Prelude.{
  ℕ, ◌≡◌, refl, Bool, true, false, if◌then◌else◌, Option, none, some, ◌||◌, arith, ok, Ensures,
  done, Ensures-bind, Ensures-if, Ensures-assert,
}
use heroes_contracts.Near.{AccountId, Context}
use heroes_contracts.Bounties.Types.{
  BountyStatus, ClaimStatus, ReputationActionKind, claim_status_eq,
}
use heroes_contracts.Bounties.Bounty.{Bounty}
use heroes_contracts.Bounties.Claim.{BountyClaim}
use heroes_contracts.Bounties.Contract.{
  Contract, bond_of, save_claim, internal_update_bounty, internal_update_statistic,
}
use heroes_contracts.Bounties.Runtime.{internal_reset_slot}
use heroes_contracts.Bounties.Lookup.{internal_get_claim}
use heroes_contracts.Bounties.Lookup.Found.{internal_get_claim-claims}
use heroes_contracts.Bounties.Closure.{
  closing_action, closing_status, settle_bond, told_owner, bounty_released, internal_claim_closure,
  internal_reset_bounty_to_initial_state, internal_reject_claim, internal_slot_finalize,
}
use heroes_contracts.Bounties.Bonds.{
  IsBacked, is_open, save_claim-IsBacked, internal_update_bounty-IsBacked,
  internal_update_statistic-IsBacked, internal_return_bonds-IsBacked,
  internal_unlock_non_refunded_bond-IsBacked,
}

pub closing_action-closed :
    (s : ClaimStatus) (with_dispute : Bool) {action : ReputationActionKind}
    → closing_action s with_dispute ≡ ok action
    → is_open s ≡ false
closing_action-closed s with_dispute e = ground arith

completed-open :
    (s : ClaimStatus)
    → (claim_status_eq s ClaimStatus.completed
        || claim_status_eq s ClaimStatus.completed_with_dispute)
      ≡ true
    → is_open s ≡ true
completed-open s h = ground arith

pub statistic_if-IsBacked :
    {extra : ℕ} (b : Bool) (c : Contract) (receiver owner : Option AccountId)
    (action : ReputationActionKind)
    → IsBacked extra c
    → IsBacked extra (if b then internal_update_statistic c receiver owner action else c)
statistic_if-IsBacked true c receiver owner action v =
    internal_update_statistic-IsBacked c receiver owner action v
statistic_if-IsBacked false c receiver owner action v = v

settle_bond-IsBacked :
    (c : Contract) (receiver_id : AccountId) (bond : Option ℕ) (return_bond : Bool)
    → IsBacked (bond_of bond) c
    → Ensures (IsBacked 0) (settle_bond c receiver_id bond return_bond)
settle_bond-IsBacked c receiver_id bond true v = internal_return_bonds-IsBacked c receiver_id bond v
settle_bond-IsBacked c receiver_id bond false v =
    internal_unlock_non_refunded_bond-IsBacked c bond v

-- A claim that is closed leaves its bond over.
pub save_closed-IsBacked :
    {c : Contract} (i : ℕ) (claim : BountyClaim) (s : ClaimStatus)
    → IsBacked 0 c
    → c.claims i ≡ some claim
    → is_open claim.status ≡ true
    → is_open s ≡ false
    → IsBacked (bond_of claim.bond) (save_claim c i (record claim { status = s }))
save_closed-IsBacked i claim s v e opened closed =
    save_claim-IsBacked i claim (record claim { status = s }) (bond_of claim.bond) v e
      (ground (arith, opened, closed))

-- Closing an open claim with any final status keeps the locked amount equal to the sum of the
-- bonds of the open claims, whether the bond goes back to the claimant or is kept.
pub internal_claim_closure-IsBacked :
    (c : Contract) (receiver_id owner : AccountId) (old_status : BountyStatus) (claim_id : ℕ)
    (claim : BountyClaim) (claim_status : Option ClaimStatus) (return_bond : Bool)
    → IsBacked 0 c
    → c.claims claim_id ≡ some claim
    → is_open claim.status ≡ true
    → Ensures (IsBacked 0) (
        internal_claim_closure c receiver_id owner old_status claim_id claim claim_status
          return_bond)
unfolding internal_claim_closure
internal_claim_closure-IsBacked c receiver_id owner old_status claim_id claim claim_status
      return_bond v e opened =
    Ensures-bind _
      (closing_action (closing_status claim_status)
        (claim_status_eq claim.status ClaimStatus.disputed))
      _
      (λ action h. settle_bond-IsBacked _ receiver_id claim.bond return_bond (
        statistic_if-IsBacked _ _ (some receiver_id) (told_owner _ owner) action (
          save_closed-IsBacked claim_id claim (closing_status claim_status) v e opened
            (closing_action-closed _ _ h))))

pub internal_reset_bounty_to_initial_state-IsBacked :
    (ctx : Context) (c : Contract) (id : ℕ) (receiver_id : AccountId) (bounty : Bounty)
    (claim_id : ℕ) (claim : BountyClaim) (claim_status : Option ClaimStatus) (return_bond : Bool)
    → IsBacked 0 c
    → c.claims claim_id ≡ some claim
    → is_open claim.status ≡ true
    → Ensures (IsBacked 0) (
        internal_reset_bounty_to_initial_state ctx c id receiver_id bounty claim_id claim
          claim_status return_bond)
unfolding internal_reset_bounty_to_initial_state
internal_reset_bounty_to_initial_state-IsBacked ctx c id receiver_id bounty claim_id claim
      claim_status return_bond v e opened =
    Ensures-bind _ (bounty_released ctx bounty claim.slot) _ (λ b h.
      internal_claim_closure-IsBacked (internal_update_bounty c id b) receiver_id b.owner
        bounty.status claim_id claim claim_status return_bond
        (internal_update_bounty-IsBacked id b v) e opened)

-- Rejecting a claim keeps the locked amount equal to the sum of the bonds of the open claims.
pub internal_reject_claim-IsBacked :
    (ctx : Context) (c : Contract) (id : ℕ) (receiver_id : AccountId) (bounty : Bounty)
    (claim_id : ℕ) (claim : BountyClaim)
    → IsBacked 0 c
    → c.claims claim_id ≡ some claim
    → is_open claim.status ≡ true
    → Ensures (IsBacked 0) (internal_reject_claim ctx c id receiver_id bounty claim_id claim)
unfolding internal_reject_claim
internal_reject_claim-IsBacked ctx c id receiver_id bounty claim_id claim v e opened =
    Ensures-if _ _ _ _
      (λ disputable. done (
        save_claim-IsBacked claim_id claim
          (record claim {
            status = ClaimStatus.rejected;
            rejected_timestamp = some ctx.block_timestamp;
          })
          0 v e (ground (arith, opened))))
      (λ final.
        internal_reset_bounty_to_initial_state-IsBacked ctx c id receiver_id bounty claim_id claim
          none true v e opened)

-- The reward of a subtask has been paid: its claim is approved and its bond returned.
pub internal_slot_finalize-IsBacked :
    (c : Contract) (id : ℕ) (bounty : Bounty) (receiver_id : AccountId) (claim_number : Option ℕ)
    (slot : ℕ)
    → IsBacked 0 c
    → Ensures (IsBacked 0) (internal_slot_finalize c id bounty receiver_id claim_number slot)
unfolding internal_slot_finalize
internal_slot_finalize-IsBacked c id bounty receiver_id claim_number slot v =
    Ensures-bind _ (internal_get_claim c id receiver_id claim_number) _ (λ found h.
      Ensures-assert _ _ _ _ (λ completed.
        Ensures-bind _ (internal_reset_slot bounty slot) _ (λ b h'.
          internal_return_bonds-IsBacked _ receiver_id found.1.bond (
            internal_update_statistic-IsBacked _ (some receiver_id) (some b.owner) _ (
              internal_update_bounty-IsBacked id b (
                save_closed-IsBacked found.0 found.1 ClaimStatus.approved v
                  (internal_get_claim-claims c id receiver_id claim_number h).0
                  (completed-open found.1.status completed) refl))))))
