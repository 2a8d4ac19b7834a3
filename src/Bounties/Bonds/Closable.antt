-- ===== src/Bounties/Bonds/Closable.antt =====
-- Closing an open claim does not panic, bounties/src/internal.rs and lib.rs.
use heroes_contracts.Prelude.{
  ℕ, ◌≡◌, ◌<◌, ◌+◌, Bool, true, false, Option, none, some, is_some, arith, ok, Result-cases, inl,
  inr, u128_bound, Ensures-ok, if◌then◌else◌, refl,
}
use heroes_contracts.Near.{AccountId, Context}
use heroes_contracts.Bounties.Types.{
  BountyStatus, ClaimStatus, ContractStatus, ReputationActionKind,
}
use heroes_contracts.Bounties.Bounty.{Bounty}
use heroes_contracts.Bounties.Claim.{BountyClaim}
use heroes_contracts.Bounties.Contract.{
  Contract, bond_of, emit_to, save_claim, internal_update_statistic, internal_return_bonds,
  internal_unlock_non_refunded_bond, internal_update_bounty,
}
use heroes_contracts.Bounties.Lookup.{internal_get_claim}
use heroes_contracts.Bounties.Lookup.Found.{internal_get_claim-claims}
use heroes_contracts.Bounties.Closure.{settle_bond, internal_claim_closure, told_owner}
use heroes_contracts.Bounties.Methods.{bounty_give_up}
use heroes_contracts.Bounties.Bonds.{IsBacked, is_open, internal_update_bounty-IsBacked}
use heroes_contracts.Bounties.Bonds.Closing.{
  save_closed-IsBacked, statistic_if-IsBacked, internal_claim_closure-IsBacked,
}

internal_return_bonds-total :
    (c : Contract) (receiver_id : AccountId) (bond : Option ℕ)
    → IsBacked (bond_of bond) c
    → (d : Contract) × (internal_return_bonds c receiver_id bond ≡ ok d)
unfolding internal_return_bonds
internal_return_bonds-total c receiver_id bond v =
    elim (Result-cases (internal_return_bonds c receiver_id bond)) [
      | inl total ↦ total
      | inr (e, stops) ↦ let absurd : ⊥ = ground (arith, v.locked) in elim absurd [ ]
    ]

internal_unlock_non_refunded_bond-total :
    (c : Contract) (bond : Option ℕ)
    → IsBacked (bond_of bond) c
    → c.unlocked_amount + bond_of bond < u128_bound
    → (d : Contract) × (internal_unlock_non_refunded_bond c bond ≡ ok d)
unfolding internal_unlock_non_refunded_bond
internal_unlock_non_refunded_bond-total c bond v fits =
    elim (Result-cases (internal_unlock_non_refunded_bond c bond)) [
      | inl total ↦ total
      | inr (e, stops) ↦ let absurd : ⊥ = ground (arith, v.locked) in elim absurd [ ]
    ]

settle_bond-total :
    (c : Contract) (receiver_id : AccountId) (bond : Option ℕ) (return_bond : Bool)
    → IsBacked (bond_of bond) c
    → c.unlocked_amount + bond_of bond < u128_bound
    → (d : Contract) × (settle_bond c receiver_id bond return_bond ≡ ok d)
settle_bond-total c receiver_id bond true v fits = internal_return_bonds-total c receiver_id bond v
settle_bond-total c receiver_id bond false v fits =
    internal_unlock_non_refunded_bond-total c bond v fits

emit_to-unlocked_amount :
    (reputation : Option AccountId) (c : Contract) (receiver owner : Option AccountId)
    (action : ReputationActionKind)
    → (emit_to reputation c receiver owner action).unlocked_amount ≡ c.unlocked_amount
emit_to-unlocked_amount none c receiver owner action = refl
emit_to-unlocked_amount (some r) c receiver owner action = refl

statistic_if-unlocked_amount :
    (b : Bool) (c : Contract) (receiver owner : Option AccountId) (action : ReputationActionKind)
    → (if b then internal_update_statistic c receiver owner action else c).unlocked_amount
      ≡ c.unlocked_amount
statistic_if-unlocked_amount true c receiver owner action =
    emit_to-unlocked_amount c.reputation_contract c receiver owner action
statistic_if-unlocked_amount false c receiver owner action = refl

-- Closing a stored open claim as cancelled never panics when the locked amount is the sum of the
-- bonds of the open claims and the unlocked amount with the bond fits 128 bits.
pub internal_claim_closure-canceled :
    (c : Contract) (receiver_id owner : AccountId) (old_status : BountyStatus) (claim_id : ℕ)
    (claim : BountyClaim) (return_bond : Bool)
    → IsBacked 0 c
    → c.claims claim_id ≡ some claim
    → is_open claim.status ≡ true
    → c.unlocked_amount + bond_of claim.bond < u128_bound
    → (d : Contract) × (internal_claim_closure c receiver_id owner old_status claim_id claim
          (some ClaimStatus.canceled)
          return_bond
        ≡ ok d)
unfolding internal_claim_closure
internal_claim_closure-canceled c receiver_id owner old_status claim_id claim return_bond v e opened
      fits =
    settle_bond-total _ receiver_id claim.bond return_bond
      (statistic_if-IsBacked _ _ (some receiver_id) (told_owner ClaimStatus.canceled owner) _
        (save_closed-IsBacked claim_id claim ClaimStatus.canceled v e opened refl))
      (omega (
        arith,
        fits,
        statistic_if-unlocked_amount _
            (save_claim c claim_id (record claim { status = ClaimStatus.canceled }))
            (some receiver_id) (told_owner ClaimStatus.canceled owner)
            ReputationActionKind.claim_cancelled,
      ))

-- If the locked amount is the sum of the bonds of the open claims, the contract is live and the
-- account's claim on the bounty is found and new, `bounty_give_up` of that account does not panic,
-- and the locked amount is again that sum. The claim number must be given exactly if the bounty
-- allows several claims, and the unlocked amount and the bond must fit 128 bits.
pub bounty_give_up-new :
    (ctx : Context) (c : Contract) (id : ℕ) (claim_number : Option ℕ) (bounty : Bounty)
    (claim_id : ℕ) (claim : BountyClaim)
    → IsBacked 0 c
    → c.status ≡ ContractStatus.live
    → c.bounties id ≡ some bounty
    → is_some claim_number ≡ bounty.allow_creating_many_claims
    → internal_get_claim c id ctx.predecessor claim_number ≡ ok (claim_id, claim)
    → claim.status ≡ ClaimStatus.new
    → c.unlocked_amount + bond_of claim.bond < u128_bound
    → (d : Contract) × (bounty_give_up ctx c id claim_number ≡ ok d) × IsBacked 0 d
unfolding bounty_give_up
bounty_give_up-new ctx c id claim_number bounty claim_id claim v live found number has_claim new
      fits =
    let stored = (internal_get_claim-claims c id ctx.predecessor claim_number has_claim).0 in
    let opened : is_open claim.status ≡ true = ground arith in
    let backed = internal_update_bounty-IsBacked id bounty v in
    let (d, closed) =
      internal_claim_closure-canceled (internal_update_bounty c id bounty) ctx.predecessor
        bounty.owner bounty.status claim_id claim true backed stored opened fits in
    let ended : bounty_give_up ctx c id claim_number ≡ ok d = ground (arith, closed) in
    (
      d,
      ended,
      Ensures-ok _ _
          (internal_claim_closure-IsBacked (internal_update_bounty c id bounty) ctx.predecessor
            bounty.owner bounty.status claim_id claim (some ClaimStatus.canceled) true backed stored
            opened)
          closed,
    )
