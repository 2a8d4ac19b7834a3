-- ===== src/Bounties/Bonds/Creation.antt =====
-- Making a claim locks its bond: `internal_create_claim` of bounties/src/internal.rs.
use heroes_contracts.Prelude.{
  LookupMap, ℕ, suc, String, ◌≡◌, refl, ap, false, Option, none, some, arith, ok, Ensures, done,
  Ensures-bind, Ensures-if, Ensures-ok, if◌then◌else◌, add, u64_bound, u128_bound, insert,
  LookupMap, ◌+◌, ◌<◌,
}
use heroes_contracts.Near.{AccountId, Context}
use heroes_contracts.Bounties.Types.{ReputationActionKind}
use heroes_contracts.Bounties.Bounty.{Bounty}
use heroes_contracts.Bounties.Claim.{BountyClaim}
use heroes_contracts.Bounties.Contract.{Contract}
use heroes_contracts.Bounties.Approval.{is_approval_required, internal_claimant_approval}
use heroes_contracts.Bounties.Claiming.{
  internal_add_claim, internal_create_claim, new_claim, store_claim, checked_or,
}
use heroes_contracts.Bounties.Bonds.{
  claim_id-lt, open_bonds-insert, IsBacked, is_open, held_bond, open_bonds, open_bonds-insert_above,
  insert_self, claim_id-lt, open_bonds-insert, internal_update_statistic-IsBacked,
}
use heroes_contracts.Bounties.Bonds.Waiting.{KeepsBonds, KeepsBonds-refl, KeepsBonds-IsBacked}
use heroes_contracts.Bounties.Bonds.Hiring.{Approves, internal_claimant_approval-Approves}

-- The contract is backed once the amount has been raised by the bond.
LacksBond : ℕ → Contract → Type 0
LacksBond bond c =
    (amount : ℕ)
    → amount ≡ c.locked_amount + bond
    → IsBacked 0 (record c { locked_amount = amount })

internal_add_claim-LacksBond :
    (c : Contract) (claim : BountyClaim) (bond : ℕ)
    → IsBacked 0 c
    → held_bond (some claim) ≡ bond
    → Ensures (LacksBond bond) (internal_add_claim c claim)
unfolding internal_add_claim open_bonds LacksBond
internal_add_claim-LacksBond c claim bond v same =
    Ensures-bind _ (add u64_bound c.last_claim_id 1) _ (λ next h.
      let step : next ≡ suc c.last_claim_id = ground arith in
      let claims : LookupMap BountyClaim = insert c.claims c.last_claim_id claim in
      done (λ amount total. record {
        locked = omega (
          arith,
          total,
          v.locked,
          same,
          open_bonds-insert_above c.last_claim_id c.claims c.last_claim_id claim (omega arith),
          ap held_bond (insert_self c.claims c.last_claim_id claim),
          ap (λ (k : ℕ). open_bonds k claims) step,
        );
        fresh = λ i above. ground (arith, v.fresh i, step);
      }))

-- The claim that a new one replaces, if there is one, is stored and has ended.
unfoldable pub IsReplaceable : Contract → Option (ℕ × BountyClaim) → Type 0
IsReplaceable c none = Unit
IsReplaceable c (some (i, old)) = (c.claims i ≡ some old) × (is_open old.status ≡ false)

store_claim-LacksBond :
    (c d : Contract) (replaced : Option (ℕ × BountyClaim)) (claim : BountyClaim) (bond : ℕ)
    → IsBacked 0 c
    → KeepsBonds c d
    → IsReplaceable c replaced
    → held_bond (some claim) ≡ bond
    → Ensures (LacksBond bond) (store_claim d replaced claim)
unfolding IsReplaceable LacksBond
store_claim-LacksBond c d none claim bond v k r same =
    internal_add_claim-LacksBond d claim bond (KeepsBonds-IsBacked k v) same
store_claim-LacksBond c d (some (i, old)) claim bond v k (e, ended) same =
    let w = KeepsBonds-IsBacked k v in
    let below : i < d.last_claim_id = omega (arith, claim_id-lt i v e, k.ids) in
    let nothing : held_bond (some old) ≡ 0 = ground (arith, ended) in
    done (λ amount total. record {
      locked = omega (
        arith,
        total,
        w.locked,
        same,
        open_bonds-insert d.last_claim_id d.claims i claim below,
        k.held i,
        ap held_bond e,
        nothing,
      );
      fresh = λ j above. ground (arith, w.fresh j above, below);
    })

-- Making a claim locks its bond, whether the statuses have been checked before or are checked
-- here: if the locked amount is the sum of the bonds of the open claims, and the claim that the
-- new one replaces, if any, is stored and has ended, the locked amount is that sum again after a
-- call that does not panic, whether or not the claim is approved at once and starts the claims
-- that wait for it.
pub internal_create_claim-IsBacked :
    (ctx : Context) (c : Contract) (id : ℕ) (receiver_id : AccountId)
    (claim_number deadline : Option ℕ) (description : String) (proposal_id slot : Option ℕ)
    (bounty_and_claim : Option (Bounty × Option (ℕ × BountyClaim)))
    → IsBacked 0 c
    → ((checked : Bounty × Option (ℕ × BountyClaim) × Option ℕ)
        → checked_or ctx c id receiver_id claim_number slot bounty_and_claim ≡ ok checked
        → IsReplaceable c checked.1)
    → Ensures (IsBacked 0) (
        internal_create_claim ctx c id receiver_id claim_number deadline description proposal_id
          slot bounty_and_claim)
unfolding internal_create_claim LacksBond
internal_create_claim-IsBacked ctx c id receiver_id claim_number deadline description proposal_id
      slot bounty_and_claim v r =
    Ensures-bind _ (checked_or ctx c id receiver_id claim_number slot bounty_and_claim) _
      (λ checked k.
        let claim =
          new_claim ctx c id checked.0 receiver_id checked.2 deadline description proposal_id
            slot in
        Ensures-bind _ (is_approval_required checked.0 receiver_id) _ (λ required _.
          Ensures-bind _
            (if required
              then ok (c, claim)
              else internal_claimant_approval ctx c id checked.0 claim none)
            _
            (λ started h.
              let approved : Approves c claim.bond started =
                Ensures-ok (Approves c claim.bond) _
                  (Ensures-if (Approves c claim.bond) required _ _
                    (λ _. done (record { keeps = KeepsBonds-refl c; same = refl }))
                    (λ _. internal_claimant_approval-Approves ctx c id checked.0 claim none))
                  h in
              Ensures-bind _ (store_claim started.0 checked.1 started.1) _ (λ stored h'.
                let lacks =
                  Ensures-ok (LacksBond c.config.bounty_claim_bond) _
                    (store_claim-LacksBond c started.0 checked.1 started.1
                      c.config.bounty_claim_bond v approved.keeps (r checked k) approved.same)
                    h' in
                Ensures-bind _ (add u128_bound stored.locked_amount c.config.bounty_claim_bond) _
                  (λ amount h''. done (
                    internal_update_statistic-IsBacked (record stored { locked_amount = amount })
                      (some receiver_id) (some checked.0.owner) ReputationActionKind.claim_created
                      (lacks amount (ground arith))))))))
