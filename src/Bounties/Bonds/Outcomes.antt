-- ===== src/Bounties/Bonds/Outcomes.antt =====
-- Who gets the bond of a claim that its claimant gives up or finishes too late, bounties/src/lib.rs.
use heroes_contracts.Prelude.{
  ℕ, ◌≡◌, ◌-◌, leb, refl, Bool, true, false, if◌then◌else◌, Option, some, none, [], ◌∷◌, is_some,
  String, ◌&&◌, not, ◌||◌, arith, ok, bool_eq, Ensures, Ensures-bind, Ensures-if, Ensures-assert,
}
use heroes_contracts.Near.{Context}
use heroes_contracts.Bounties.Types.{BountyStatus, ClaimStatus, claim_status_eq, bounty_status_eq}
use heroes_contracts.Bounties.Runtime.{internal_participants_decrement}
use heroes_contracts.Bounties.Bounty.{Bounty, is_simple, is_contest_or_hackathon}
use heroes_contracts.Bounties.Claim.{BountyClaim, get_start_time, is_claim_expired}
use heroes_contracts.Bounties.Contract.{Contract, bond_of, get_bounty, assert_live}
use heroes_contracts.Bounties.Lookup.{internal_get_claim, has_bounty_status, has_claim_status}
use heroes_contracts.Bounties.Closure.{
  bounty_released, internal_reset_bounty_to_initial_state, internal_set_claim_expiry_status,
}
use heroes_contracts.Bounties.Methods.{
  may_give_up, is_working, leave, is_forgiven, bounty_give_up, bounty_done, late_competitor,
  report_done,
}
use heroes_contracts.Bounties.Bonds.Settlement.{Settles, Ends, internal_claim_closure-Settles}

is_forgiven_lem :
    (ctx : Context) (c : Contract) (bounty : Bounty) (claim : BountyClaim) (start : ℕ)
    {returned : Bool}
    → get_start_time claim bounty ≡ ok start
    → is_forgiven ctx c bounty claim ≡ ok returned
    → returned ≡ leb (ctx.block_timestamp - start) c.config.bounty_forgiveness_period
unfolding is_forgiven
is_forgiven_lem ctx c bounty claim start started h = ground arith

-- A `bounty_give_up` of a claim that is found, and has a start time if the work on it is under
-- way, stores that claim as cancelled and otherwise unchanged and unlocks its bond, unless it
-- panics: the bond is sent to the claimant if the work is not under way or began no longer ago
-- than the forgiveness period, and otherwise becomes part of the unlocked amount.
pub bounty_give_up-Settles :
    (ctx : Context) (c : Contract) (id : ℕ) (claim_number : Option ℕ) (bounty : Bounty)
    (i start : ℕ) (claim : BountyClaim)
    → get_bounty c id ≡ ok bounty
    → internal_get_claim c id ctx.predecessor claim_number ≡ ok (i, claim)
    → (is_working bounty claim ≡ true → get_start_time claim bounty ≡ ok start)
    → Ensures
        (λ d.
          Settles c ctx.predecessor
            (bond_of claim.bond)
            (not (is_working bounty claim)
              || leb (ctx.block_timestamp - start) c.config.bounty_forgiveness_period)
            d
          × Ends i claim ClaimStatus.canceled d)
        (bounty_give_up ctx c id claim_number)
unfolding bounty_give_up internal_reset_bounty_to_initial_state
bounty_give_up-Settles ctx c id claim_number bounty i start claim found claimed started =
    rw (found, claimed)
      (Ensures-bind _ (assert_live c) _ (λ _ _.
        Ensures-assert _ (bool_eq (is_some claim_number) bounty.allow_creating_many_claims)
          "Invalid claim_number value" _
          (λ _.
            Ensures-assert _ (may_give_up bounty claim)
              "The claim status does not allow to give up the bounty" _
              (λ _.
                Ensures-if _ (is_working bounty claim) _ _
                  (λ working. Ensures-bind _ (is_forgiven ctx c bounty claim) _ (λ returned h.
                    let e = is_forgiven_lem ctx c bounty claim start (started working) h in
                    Ensures-bind _ (bounty_released ctx bounty claim.slot) _ (λ b _.
                      internal_claim_closure-Settles c id b ctx.predecessor b.owner bounty.status i
                        claim (some ClaimStatus.canceled) (ground (arith, e, working)))))
                  (λ waiting. Ensures-bind _ (leave bounty claim) _ (λ b _.
                    internal_claim_closure-Settles c id b ctx.predecessor b.owner b.status i claim
                      (some ClaimStatus.canceled) (ground (arith, waiting))))))))

late_claim-Settles :
    (ctx : Context) (c : Contract) (id : ℕ) (description : String) (claim_number : Option ℕ)
    (bounty : Bounty) (i : ℕ) (claim : BountyClaim) (expired is_late : Bool)
    → (expired || is_late) ≡ true
    → Ensures
        (λ d.
          Settles c ctx.predecessor (bond_of claim.bond) (not expired) d
          × Ends i claim (if expired then ClaimStatus.expired else ClaimStatus.not_completed) d)
        (if expired
          then internal_set_claim_expiry_status ctx c id ctx.predecessor bounty i claim
          else (if is_late
              then late_competitor c id ctx.predecessor bounty i claim
              else report_done c id ctx.predecessor claim_number bounty claim description))
unfolding internal_set_claim_expiry_status internal_reset_bounty_to_initial_state
late_claim-Settles ctx c id description claim_number bounty i claim true is_late late =
    Ensures-bind _ (bounty_released ctx bounty claim.slot) _ (λ b _.
      internal_claim_closure-Settles c id b ctx.predecessor b.owner bounty.status i claim
        (some ClaimStatus.expired) refl)
late_claim-Settles ctx c id description claim_number bounty i claim false true late =
    Ensures-bind _ (internal_participants_decrement bounty) _ (λ b _.
      internal_claim_closure-Settles c id b ctx.predecessor b.owner b.status i claim none refl)
late_claim-Settles ctx c id description claim_number bounty i claim false false late =
    let absurd : ⊥ = ground (arith, late) in elim absurd [ ]

-- A `bounty_done` that comes too late for the claim that is found, past the claim's deadline or
-- with a competing claim of a contest that has been decided, closes the claim and unlocks its
-- bond, unless it panics: past the deadline the claim is expired and the bond becomes part of the
-- unlocked amount, otherwise the claim is not completed and the bond is sent to the claimant.
pub bounty_done-Settles :
    (ctx : Context) (c : Contract) (id : ℕ) (description : String) (claim_number : Option ℕ)
    (bounty : Bounty) (i : ℕ) (claim : BountyClaim) (expired : Bool)
    → get_bounty c id ≡ ok bounty
    → internal_get_claim c id ctx.predecessor claim_number ≡ ok (i, claim)
    → is_claim_expired ctx claim bounty ≡ ok expired
    → (expired
        || (bounty_status_eq bounty.status BountyStatus.completed
            && claim_status_eq claim.status ClaimStatus.competes))
      ≡ true
    → Ensures
        (λ d.
          Settles c ctx.predecessor (bond_of claim.bond) (not expired) d
          × Ends i claim (if expired then ClaimStatus.expired else ClaimStatus.not_completed) d)
        (bounty_done ctx c id description claim_number)
unfolding bounty_done
bounty_done-Settles ctx c id description claim_number bounty i claim expired found claimed e late =
    rw (found, claimed, e)
      (Ensures-bind _ (assert_live c) _ (λ _ _.
        Ensures-assert _ (not (is_simple bounty.bounty_flow))
          "This operation is not supported for simple bounty flow" _
          (λ _.
            Ensures-assert _
              (has_bounty_status (BountyStatus.claimed ∷ BountyStatus.many_claimed ∷ [])
                  bounty.status
                || (bounty_status_eq bounty.status BountyStatus.completed
                    && is_contest_or_hackathon bounty))
              "Bounty status does not allow to completion" _
              (λ _.
                Ensures-assert _ (bool_eq (is_some claim_number) bounty.allow_creating_many_claims)
                  "Invalid claim_number value" _
                  (λ _.
                    Ensures-assert _
                      (has_claim_status (ClaimStatus.in_progress ∷ ClaimStatus.competes ∷ [])
                        claim.status)
                      "The claim status does not allow to complete the bounty" _
                      (λ _.
                        late_claim-Settles ctx c id description claim_number bounty i claim expired
                          _ late))))))
