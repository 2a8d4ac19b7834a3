-- ===== src/Bounties/Bonds/Decisions.antt =====
-- The owner's decisions, the refunds and the withdrawals keep the bonds backed.
use heroes_contracts.Prelude.{
  ℕ, ◌≡◌, ◌==◌, Bool, true, false, Option, none, some, is_some, arith, bool_eq, unwrap, Ensures,
  done, Ensures-bind, Ensures-if, Ensures-assert, Ensures-ok, [], ◌∷◌,
}
use heroes_contracts.Near.{AccountId, Context, assert_one_yocto}
use heroes_contracts.Bounties.Types.{BountyStatus, ClaimStatus, claim_status_eq}
use heroes_contracts.Bounties.Bounty.{Bounty, check_access_rights}
use heroes_contracts.Bounties.FeeStats
use heroes_contracts.Bounties.Claim.{BountyClaim}
use heroes_contracts.Bounties.Contract.{Contract, get_bounty, assert_live}
use heroes_contracts.Bounties.Commissions.{
  update_platform, internal_get_dao_fee_stats,
  assert_locked_amount_greater_than_or_equal_transaction_amount,
}
use heroes_contracts.Bounties.Commissions.Amounts.{internal_get_bounty_amount_to_return}
use heroes_contracts.Bounties.Lookup.{internal_get_claim, has_bounty_status}
use heroes_contracts.Bounties.Lookup.Found.{internal_get_claim-claims}
use heroes_contracts.Bounties.Payout.{
  internal_total_fees_refunding_funds, internal_bounty_cancellation, internal_refund_bounty_amount,
  after_refund_bounty_amount_callback, after_bounty_withdraw_callback,
}
use heroes_contracts.Bounties.Payments.{
  decidable_claim, bounty_approve, bounty_reject, bounty_cancel, internal_get_real_prize_place,
  assert_postpaid_is_ready, assert_multitasking_requirements,
}
use heroes_contracts.Bounties.Bonds.{
  IsBacked, is_open, internal_update_bounty-IsBacked, internal_update_statistic-IsBacked,
}
use heroes_contracts.Bounties.Bonds.Closing.{
  internal_reject_claim-IsBacked, internal_slot_finalize-IsBacked,
}
use heroes_contracts.Bounties.Bonds.Payout.{
  update_platform-IsBacked, update_dao-IsBacked, internal_bounty_payout-IsBacked,
}

-- A claim on which the owner may decide: it is stored and completed.
IsDecidable : Contract → Bounty × ℕ × BountyClaim → Type 0
IsDecidable c (bounty, claim_id, claim) =
    (c.claims claim_id ≡ some claim) × (claim_status_eq claim.status ClaimStatus.completed ≡ true)

decidable_claim-IsDecidable :
    (ctx : Context) (c : Contract) (id : ℕ) (receiver_id : AccountId) (claim_number : Option ℕ)
    → Ensures (IsDecidable c) (decidable_claim ctx c id receiver_id claim_number)
unfolding IsDecidable
decidable_claim-IsDecidable ctx c id receiver_id claim_number =
    Ensures-bind _ (get_bounty c id) _ (λ bounty _.
      Ensures-assert _
        (has_bounty_status (BountyStatus.claimed ∷ BountyStatus.many_claimed ∷ []) bounty.status)
        "Bounty status does not allow approval of the execution result" _
        (λ _. Ensures-bind _ (check_access_rights ctx bounty) _ (λ _ _.
          Ensures-assert _ (bool_eq (is_some claim_number) bounty.allow_creating_many_claims)
            "Invalid claim_number value" _
            (λ _. Ensures-bind _ (internal_get_claim c id receiver_id claim_number) _ (λ found h.
              Ensures-assert _ (claim_status_eq found.1.status ClaimStatus.completed)
                "The claim status does not allow approval of the execution result" _
                (λ e. done ((internal_get_claim-claims c id receiver_id claim_number h).0, e)))))))

completed_status-open :
    (s : ClaimStatus) → claim_status_eq s ClaimStatus.completed ≡ true → is_open s ≡ true
completed_status-open s h = ground arith

-- A call of `bounty_reject` that does not panic keeps the locked amount equal to the sum of the
-- bonds of the open claims.
pub bounty_reject-IsBacked :
    (ctx : Context) (c : Contract) (id : ℕ) (receiver_id : AccountId) (claim_number : Option ℕ)
    → IsBacked 0 c
    → Ensures (IsBacked 0) (bounty_reject ctx c id receiver_id claim_number)
unfolding bounty_reject IsDecidable
bounty_reject-IsBacked ctx c id receiver_id claim_number v =
    Ensures-bind _ (assert_live c) _ (λ _ _.
      Ensures-bind _ (decidable_claim ctx c id receiver_id claim_number) _ (λ found h.
        Ensures-bind _ (assert_postpaid_is_ready found.0 found.2 false) _ (λ _ _.
          let (e, s) =
            Ensures-ok (IsDecidable c) _
              (decidable_claim-IsDecidable ctx c id receiver_id claim_number) h in
          internal_reject_claim-IsBacked ctx c id receiver_id found.0 found.1 found.2 v e
            (completed_status-open found.2.status s))))

-- A call of `bounty_approve` that does not panic keeps the locked amount equal to the sum of the
-- bonds of the open claims, whether the reward is sent by the contract or was paid outside it.
pub bounty_approve-IsBacked :
    (ctx : Context) (c : Contract) (id : ℕ) (receiver_id : AccountId)
    (claim_number prize_place : Option ℕ)
    → IsBacked 0 c
    → Ensures (IsBacked 0) (bounty_approve ctx c id receiver_id claim_number prize_place)
unfolding bounty_approve
bounty_approve-IsBacked ctx c id receiver_id claim_number prize_place v =
    Ensures-bind _ (assert_live c) _ (λ _ _. Ensures-bind _ (assert_one_yocto ctx) _ (λ _ _.
      Ensures-bind _ (decidable_claim ctx c id receiver_id claim_number) _ (λ found _.
        Ensures-bind _ (internal_get_real_prize_place prize_place found.0) _ (λ place _.
          Ensures-bind _ (assert_postpaid_is_ready found.0 found.2 true) _ (λ _ _.
            Ensures-bind _
              (assert_multitasking_requirements ctx c id found.0 receiver_id claim_number place) _
              (λ _ _.
                internal_bounty_payout-IsBacked ctx c id (some (receiver_id, claim_number)) place
                  v))))))

internal_total_fees_refunding_funds-IsBacked :
    (c : Contract) (bounty : Bounty)
    → IsBacked 0 c
    → Ensures (IsBacked 0) (internal_total_fees_refunding_funds c bounty)
unfolding internal_total_fees_refunding_funds
internal_total_fees_refunding_funds-IsBacked c bounty v =
    Ensures-bind _ (internal_get_bounty_amount_to_return c.config bounty) _ (λ r _.
      Ensures-bind _
        (update_platform c bounty.token
          (λ s. FeeStats.refund_commission s r.platform_fee r.penalty_platform_fee))
        _
        (λ c1 h.
          update_dao-IsBacked c1 (internal_get_dao_fee_stats c1 bounty) _
            (Ensures-ok _ _ (update_platform-IsBacked c bounty.token _ v) h)))

internal_bounty_cancellation-IsBacked :
    (c : Contract) (id : ℕ) (bounty : Bounty)
    → IsBacked 0 c
    → Ensures (IsBacked 0) (internal_bounty_cancellation c id bounty)
unfolding internal_bounty_cancellation
internal_bounty_cancellation-IsBacked c id bounty v =
    Ensures-bind _ (internal_total_fees_refunding_funds c bounty) _ (λ c1 h. done (
      internal_update_statistic-IsBacked _ none (some bounty.owner) _ (
        internal_update_bounty-IsBacked id _
          (Ensures-ok _ _ (internal_total_fees_refunding_funds-IsBacked c bounty v) h))))

-- A call of `bounty_cancel` that does not panic keeps the locked amount equal to the sum of the
-- bonds of the open claims, with and without an amount to return.
pub bounty_cancel-IsBacked :
    (ctx : Context) (c : Contract) (id : ℕ)
    → IsBacked 0 c
    → Ensures (IsBacked 0) (bounty_cancel ctx c id)
unfolding bounty_cancel internal_refund_bounty_amount
bounty_cancel-IsBacked ctx c id v = Ensures-bind _ (assert_live c) _ (λ _ _.
    Ensures-bind _ (get_bounty c id) _ (λ bounty _.
      Ensures-assert _
        (has_bounty_status (BountyStatus.new ∷ BountyStatus.awaiting_claims ∷ []) bounty.status)
        "Bounty status does not allow cancellation" _
        (λ _.
          Ensures-assert _ (bounty.owner == ctx.predecessor)
            "Only the owner of the bounty can call this method" _
            (λ _. Ensures-bind _ (internal_get_bounty_amount_to_return c.config bounty) _ (λ r _.
              Ensures-bind _
                (assert_locked_amount_greater_than_or_equal_transaction_amount c bounty
                  r.platform_fee r.dao_fee)
                _
                (λ _ _.
                  Ensures-if _ (r.amount_to_return == 0) _ _
                    (λ _. internal_bounty_cancellation-IsBacked c id bounty v)
                    (λ _.
                      Ensures-bind _ (unwrap bounty.token) _
                        (λ token _. done (record { locked = v.locked; fresh = v.fresh })))))))))

-- The callback of a refund, whatever the outcome of its transfer, keeps the locked amount equal to
-- the sum of the bonds of the open claims.
pub after_refund_bounty_amount_callback-IsBacked :
    (c : Contract) (is_promise_success : Bool) (id : ℕ)
    → IsBacked 0 c
    → Ensures (IsBacked 0) (after_refund_bounty_amount_callback c is_promise_success id)
unfolding after_refund_bounty_amount_callback
after_refund_bounty_amount_callback-IsBacked c false id v = done v
after_refund_bounty_amount_callback-IsBacked c true id v =
    Ensures-bind _ (get_bounty c id) _
      (λ bounty _. internal_bounty_cancellation-IsBacked c id bounty v)

-- The callback of a subtask's reward, whatever the outcome of its transfer, keeps the locked
-- amount equal to the sum of the bonds of the open claims: after a success the claim is approved
-- and its bond returned.
pub after_bounty_withdraw_callback-IsBacked :
    (c : Contract) (is_promise_success : Bool) (id : ℕ) (receiver_id : AccountId)
    (claim_number : Option ℕ) (slot : ℕ)
    → IsBacked 0 c
    → Ensures
        (IsBacked 0)
        (after_bounty_withdraw_callback c is_promise_success id receiver_id claim_number slot)
unfolding after_bounty_withdraw_callback
after_bounty_withdraw_callback-IsBacked c false id receiver_id claim_number slot v = done v
after_bounty_withdraw_callback-IsBacked c true id receiver_id claim_number slot v =
    Ensures-bind _ (get_bounty c id) _
      (λ bounty _. internal_slot_finalize-IsBacked c id bounty receiver_id claim_number slot v)
