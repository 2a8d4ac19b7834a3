-- ===== src/Bounties/Bonds/Payout.antt =====
-- Payouts keep the bonds backed, bounties/src/internal.rs and callbacks.rs.
use heroes_contracts.Prelude.{
  ℕ, ◌≡◌, refl, Bool, true, false, if◌then◌else◌, Option, none, some, ◌||◌, arith, Result, expect,
  index, set_index, unwrap, Ensures, done, stopped, Ensures-bind, Ensures-if, Ensures-assert,
  Ensures-ok, expect-eq-ok, [], ◌∷◌, List,
}
use heroes_contracts.Near.{AccountId, Context}
use heroes_contracts.Bounties.FeeStats
use heroes_contracts.Bounties.FeeStats.{FeeStats}
use heroes_contracts.Bounties.Bounty.{Bounty, is_different_tasks, is_payment_outside_contract}
use heroes_contracts.Bounties.Contract.{Contract, DaoFeeStats, get_bounty, bond_of}
use heroes_contracts.Bounties.Commissions.{
  update_platform, update_dao, internal_get_dao_fee_stats, internal_total_fees_unlocking_funds,
  assert_locked_amount_greater_than_or_equal_transaction_amount,
}
use heroes_contracts.Bounties.Types.{
  bounty_status_eq, BountyStatus, ClaimStatus, ReputationActionKind, Claimant,
}
use heroes_contracts.Bounties.Lookup.{internal_get_and_check_bounty_and_claim, has_claim_status}
use heroes_contracts.Bounties.Lookup.Found.{
  IsStoredClaim, internal_get_and_check_bounty_and_claim-IsStoredClaim,
}
use heroes_contracts.Bounties.Commissions.Amounts.{internal_get_bounty_amount_for_payment}
use heroes_contracts.Bounties.Payout.{internal_bounty_payout, after_ft_transfer_callback}
use heroes_contracts.Bounties.Completion.{
  complete_claim, complete_subtasks, return_claimant_bond, account_of, bounty_paid,
  internal_are_all_slots_complete, internal_bounty_completion,
}
use heroes_contracts.Bounties.Bonds.{
  IsBacked, is_open, internal_return_bonds-IsBacked, internal_update_statistic-IsBacked,
  internal_update_bounty-IsBacked,
}
use heroes_contracts.Bounties.Bonds.Closing.{save_closed-IsBacked}

pub update_platform-IsBacked :
    {extra : ℕ} (c : Contract) (token : Option AccountId) (f : FeeStats → Result FeeStats)
    → IsBacked extra c
    → Ensures (IsBacked extra) (update_platform c token f)
update_platform-IsBacked c none f v = done v
update_platform-IsBacked c (some token) f v =
    Ensures-bind _ (unwrap (c.total_fees token)) _ (λ stats _.
      Ensures-bind _ (f stats) _ (λ stats' _. done (record { locked = v.locked; fresh = v.fresh })))

pub update_dao-IsBacked :
    {extra : ℕ} (c : Contract) (entry : Option (AccountId × List DaoFeeStats × ℕ))
    (f : FeeStats → Result FeeStats)
    → IsBacked extra c
    → Ensures (IsBacked extra) (update_dao c entry f)
update_dao-IsBacked c none f v = done v
update_dao-IsBacked c (some (dao, stats, i)) f v = Ensures-bind _ (index stats i) _ (λ entry _.
    Ensures-bind _ (f entry.fee_stats) _ (λ fees _.
      Ensures-bind _ (set_index stats i (record entry { fee_stats = fees })) _
        (λ stats' _. done (record { locked = v.locked; fresh = v.fresh }))))

internal_total_fees_unlocking_funds-IsBacked :
    {extra : ℕ} (c : Contract) (bounty : Bounty) (platform_fee dao_fee : ℕ)
    → IsBacked extra c
    → Ensures (IsBacked extra) (internal_total_fees_unlocking_funds c bounty platform_fee dao_fee)
unfolding internal_total_fees_unlocking_funds
internal_total_fees_unlocking_funds-IsBacked c bounty platform_fee dao_fee v =
    Ensures-bind _
      (update_platform c bounty.token (λ s. FeeStats.commission_unlocking s platform_fee)) _
      (λ c1 h.
        update_dao-IsBacked c1 (internal_get_dao_fee_stats c1 bounty) _
          (Ensures-ok _ _ (update_platform-IsBacked c bounty.token _ v) h))

paid_or_disputed-open :
    (s : ClaimStatus)
    → has_claim_status (ClaimStatus.completed ∷ ClaimStatus.disputed ∷ []) s ≡ true
    → is_open s ≡ true
paid_or_disputed-open s h = ground arith

-- The bond that is returned to the claimant, if there is one.
abbrev owed : Option Claimant → Option ℕ → ℕ
owed none bond = 0
owed (some who) bond = bond_of bond

-- A contract that holds the bond with which it goes on.
HoldsBond : Option Claimant → Contract × ReputationActionKind × Option ℕ → Type 0
HoldsBond claimant approved = IsBacked (owed claimant approved.2) approved.0

complete_claim-HoldsBond :
    (c : Contract) (id : ℕ) (bounty : Bounty) (claimant : Option Claimant)
    → IsBacked 0 c
    → Ensures (HoldsBond claimant) (complete_claim c id bounty claimant)
unfolding IsStoredClaim HoldsBond
complete_claim-HoldsBond c id bounty none v = stopped
complete_claim-HoldsBond c id bounty (some who) v =
    Ensures-bind _
      (internal_get_and_check_bounty_and_claim c id who.0 who.1
        (BountyStatus.claimed ∷ BountyStatus.many_claimed ∷ [])
        (ClaimStatus.completed ∷ ClaimStatus.disputed ∷ []) false
        "Bounty status does not allow to payout" "The claim status does not allow to payout")
      _
      (λ checked h.
        let stored =
          Ensures-ok _ _
            (internal_get_and_check_bounty_and_claim-IsStoredClaim c id who.0 who.1
              (BountyStatus.claimed ∷ BountyStatus.many_claimed ∷ [])
              (ClaimStatus.completed ∷ ClaimStatus.disputed ∷ [])
              "Bounty status does not allow to payout" "The claim status does not allow to payout")
            h in
        Ensures-bind _ (unwrap checked.1) _ (λ found h'.
          let (e, s) = stored found (expect-eq-ok _ _ h') in
          done (
            save_closed-IsBacked found.0 found.1 ClaimStatus.approved v e
              (paid_or_disputed-open found.1.status s) refl)))

complete_subtasks-HoldsBond :
    (c : Contract) (id : ℕ) (bounty : Bounty) (claimant : Option Claimant)
    → IsBacked 0 c
    → Ensures (HoldsBond claimant) (complete_subtasks c id bounty claimant)
unfolding HoldsBond
complete_subtasks-HoldsBond c id bounty (some who) v = stopped
complete_subtasks-HoldsBond c id bounty none v =
    Ensures-assert _ (bounty_status_eq bounty.status BountyStatus.many_claimed)
      "Bounty status does not allow to payout" _
      (λ _. Ensures-bind _ (internal_are_all_slots_complete c id bounty none) _ (λ complete _.
        Ensures-assert _ complete "Not all tasks have already been completed" _ (λ _. done v)))

return_claimant_bond-IsBacked :
    (c : Contract) (claimant : Option Claimant) (bond : Option ℕ)
    → IsBacked (owed claimant bond) c
    → Ensures (IsBacked 0) (return_claimant_bond c claimant bond)
return_claimant_bond-IsBacked c none bond v = done v
return_claimant_bond-IsBacked c (some (receiver_id, _)) bond v =
    internal_return_bonds-IsBacked c receiver_id bond v

-- When the locked amount is the sum of the bonds of the open claims, it still is after
-- `internal_bounty_completion`, whichever the mode of the bounty and whether a claim or all
-- subtasks are paid.
pub internal_bounty_completion-IsBacked :
    (ctx : Context) (c : Contract) (id : ℕ) (bounty : Bounty) (claimant : Option Claimant)
    (amounts : ℕ × ℕ × ℕ) (place : Option ℕ)
    → IsBacked 0 c
    → Ensures (IsBacked 0) (internal_bounty_completion ctx c id bounty claimant amounts place)
unfolding internal_bounty_completion HoldsBond
internal_bounty_completion-IsBacked ctx c id bounty claimant (reward, platform_fee, dao_fee) place
      v =
    Ensures-bind _
      (if is_different_tasks bounty
        then complete_subtasks c id bounty claimant
        else complete_claim c id bounty claimant)
      _
      (λ approved h.
        Ensures-bind _ (internal_total_fees_unlocking_funds approved.0 bounty platform_fee dao_fee)
          _
          (λ c1 h1. Ensures-bind _ (bounty_paid ctx bounty claimant place) _ (λ b _.
            return_claimant_bond-IsBacked _ claimant approved.2 (
              internal_update_statistic-IsBacked _ (account_of claimant) (some b.owner) approved.1 (
                internal_update_bounty-IsBacked id b (
                  Ensures-ok _ _
                    (internal_total_fees_unlocking_funds-IsBacked approved.0 bounty platform_fee
                      dao_fee
                      (Ensures-ok (HoldsBond claimant) _
                        (Ensures-if (HoldsBond claimant) (is_different_tasks bounty) _ _
                          (λ _. complete_subtasks-HoldsBond c id bounty claimant v)
                          (λ _. complete_claim-HoldsBond c id bounty claimant v))
                        h))
                    h1))))))

-- A payout that is started, or is made outside the contract, keeps the bonds backed.
pub internal_bounty_payout-IsBacked :
    (ctx : Context) (c : Contract) (id : ℕ) (claimant : Option Claimant) (place : Option ℕ)
    → IsBacked 0 c
    → Ensures (IsBacked 0) (internal_bounty_payout ctx c id claimant place)
unfolding internal_bounty_payout
internal_bounty_payout-IsBacked ctx c id claimant place v =
    Ensures-bind _ (get_bounty c id) _ (λ bounty _.
      Ensures-bind _ (internal_get_bounty_amount_for_payment bounty place) _ (λ amounts _.
        Ensures-bind _
          (assert_locked_amount_greater_than_or_equal_transaction_amount c bounty amounts.1
            amounts.2)
          _
          (λ _ _.
            Ensures-if _ (is_payment_outside_contract bounty || is_different_tasks bounty) _ _
              (λ _. internal_bounty_completion-IsBacked ctx c id bounty claimant amounts place v)
              (λ _. Ensures-bind _ (expect claimant "Incorrect claimant parameter") _ (λ who _.
                Ensures-bind _ (unwrap bounty.token) _
                  (λ token _. done (record { locked = v.locked; fresh = v.fresh })))))))

-- The callback of a reward's transfer, whatever the outcome of the transfer, keeps the locked
-- amount equal to the sum of the bonds of the open claims.
pub after_ft_transfer_callback-IsBacked :
    (ctx : Context) (c : Contract) (is_promise_success : Bool) (id : ℕ) (claimant : Option Claimant)
    (amounts : ℕ × ℕ × ℕ) (place : Option ℕ)
    → IsBacked 0 c
    → Ensures
        (IsBacked 0)
        (after_ft_transfer_callback ctx c is_promise_success id claimant amounts place)
unfolding after_ft_transfer_callback
after_ft_transfer_callback-IsBacked ctx c false id claimant amounts place v = done v
after_ft_transfer_callback-IsBacked ctx c true id claimant amounts place v =
    Ensures-bind _ (get_bounty c id) _
      (λ bounty _. internal_bounty_completion-IsBacked ctx c id bounty claimant amounts place v)
