-- ===== src/Bounties/Commissions/Amounts/Slots.antt =====
-- The payouts of a bounty with equal slots over all its payments:
-- `internal_get_bounty_amount_for_payment` and `internal_get_bounty_amount_to_return` of
-- bounties/src/internal.rs.
use heroes_contracts.Prelude.{
  ℕ, Option, some, false, zero, suc, ◌+◌, ◌-◌, ◌*◌, ◌/◌, ◌%◌, ◌<◌, ◌≡◌, Result, ok, ◌>>=◌,
  u128_bound, arith, div_bounds, ap, sym, ◌∙◌, ok-injective, Ensures, Ensures-bind, Ensures-ok,
  done, add, sub,
}
use mathlib.Core.Path.{subst}
use native.Mathlib.Omega.{div_any}
use heroes_contracts.Bounties.Types.{BountyStatus, Config, OneForAllEnv}
use heroes_contracts.Bounties.Multitasking
use heroes_contracts.Bounties.Multitasking.{one_for_all}
use heroes_contracts.Bounties.Bounty.{Bounty, is_payment_outside_contract}
use heroes_contracts.Bounties.Commissions.Amounts.{
  Refund, penalty, refund_of, share, slot_share, unpaid_amounts,
  internal_get_bounty_amount_to_return,
}

-- The sum of the first `p` payouts, when `occupied k` slots are occupied at the payout after `k`.
unfoldable pub paid_out : ℕ → ℕ → (ℕ → ℕ) → ℕ → Result ℕ
paid_out total n occupied zero = ok 0
paid_out total n occupied (suc p) = do
  this ← slot_share total n (occupied p) p
  others ← paid_out total n occupied p
  ok (this + others)

slot_share-early :
    (total n occupied p : ℕ) → suc p < n → slot_share total n occupied p ≡ ok (total / n)
unfolding slot_share
slot_share-early total n occupied p h = ground arith

paid_out-early :
    (total n : ℕ) (occupied : ℕ → ℕ) (p : ℕ)
    → p < n
    → paid_out total n occupied p ≡ ok (p * (total / n))
unfolding paid_out
paid_out-early total n occupied zero h = ap ok (omega arith)
paid_out-early total n occupied (suc p) h =
    rw (slot_share-early total n (occupied p) p h, paid_out-early total n occupied p (omega arith))
      (ap ok (omega arith))

slot_share-last :
    (total n : ℕ)
    → total < u128_bound
    → slot_share total (suc n) 1 n ≡ ok (total - total / suc n * n)
unfolding slot_share
slot_share-last total n h = let bounds = div_bounds total (suc n) (omega arith) in ground arith

-- The payouts of all slots of a bounty add up to exactly the whole amount, what rounding cuts off
-- included, if the last slot is paid when it is the only one that is occupied.
pub paid_out-all :
    (total n : ℕ) (occupied : ℕ → ℕ)
    → total < u128_bound
    → occupied n ≡ 1
    → paid_out total (suc n) occupied (suc n) ≡ ok total
unfolding paid_out
paid_out-all total n occupied h e =
    rw (e, slot_share-last total n h, paid_out-early total (suc n) occupied n (omega arith))
      (ap ok (omega (arith, div_bounds total (suc n) (omega arith))))

share-ok : (total n k : ℕ) {r : ℕ} → share total n k ≡ ok r → r ≡ total / n * k
share-ok total n k h = ground arith

-- What a cancellation returns, with what it takes of the commissions and what of that is kept.
abbrev Returns : ℕ → Refund → Type 0
Returns amount r =
    r.amount_to_return + r.penalty_platform_fee + r.penalty_dao_fee
    ≡ amount + r.platform_fee + r.dao_fee

refund_of-Returns :
    (config : Config) (amount platform_fee dao_fee : ℕ)
    → Ensures (Returns amount) (refund_of config (amount, platform_fee, dao_fee))
unfolding refund_of
refund_of-Returns config amount platform_fee dao_fee =
    Ensures-bind _
      (penalty platform_fee config.penalty_platform_fee_percentage config.platform_fee_percentage) _
      (λ kept _.
        Ensures-bind _
          (penalty dao_fee config.penalty_validators_dao_fee_percentage
            config.validators_dao_fee_percentage)
          _
          (λ kept_of_dao _. Ensures-bind _ (add u128_bound amount platform_fee) _ (λ a ha.
            Ensures-bind _ (sub a kept) _ (λ b hb.
              Ensures-bind _ (add u128_bound b dao_fee) _
                (λ d hd. Ensures-bind _ (sub d kept_of_dao) _ (λ e he. done (ground arith)))))))

unpaid_amounts-slots :
    (bounty : Bounty) (n per_slot : ℕ) (min_slots : Option ℕ) (env : OneForAllEnv)
    → Ensures
        (λ (r : ℕ × ℕ × ℕ). r.0 ≡ bounty.amount / n * (n - env.paid_slots))
        (unpaid_amounts bounty (some (one_for_all n per_slot min_slots (some env))))
unfolding unpaid_amounts Multitasking.get_one_for_all_env
unpaid_amounts-slots bounty n per_slot min_slots env =
    Ensures-bind _ (sub n env.paid_slots) _ (λ left hl.
      Ensures-bind _ (share bounty.amount n left) _ (λ a ha.
        Ensures-bind _ (share bounty.platform_fee n left) _ (λ _ _.
          Ensures-bind _ (share bounty.dao_fee n left) _ (λ _ _. done (
            share-ok bounty.amount n left ha
            ∙ ap (λ (k : ℕ). bounty.amount / n * k) (ground (arith, hl)))))))

refund_lem :
    (config : Config) (bounty : Bounty) (n per_slot : ℕ) (min_slots : Option ℕ) (env : OneForAllEnv)
    → is_payment_outside_contract bounty ≡ false
    → bounty.status ≡ BountyStatus.awaiting_claims
    → bounty.multitasking ≡ some (one_for_all n per_slot min_slots (some env))
    → Ensures
        (Returns (bounty.amount / n * (n - env.paid_slots)))
        (internal_get_bounty_amount_to_return config bounty)
unfolding internal_get_bounty_amount_to_return
refund_lem config bounty n per_slot min_slots env inside waits mode =
    rw (inside, waits, mode)
      (Ensures-bind _ (unpaid_amounts bounty (some (one_for_all n per_slot min_slots (some env)))) _
        (λ r h.
          subst (λ a. Ensures (Returns a) (refund_of config r))
            (Ensures-ok _ _ (unpaid_amounts-slots bounty n per_slot min_slots env) h)
            (refund_of-Returns config r.0 r.1 r.2)))

-- If the owner cancels a bounty with `n` slots that the contract pays, that waits for claims and
-- of which fewer than `n` are paid, the payouts so far and what is returned, with the penalties
-- and without the commissions, add up to the amount less the remainder of its division by `n`:
-- that remainder is neither paid out nor returned.
pub paid_and_refunded :
    (config : Config) (bounty : Bounty) (n per_slot : ℕ) (min_slots : Option ℕ) (env : OneForAllEnv)
    (occupied : ℕ → ℕ) {paid : ℕ} {refund : Refund}
    → is_payment_outside_contract bounty ≡ false
    → bounty.status ≡ BountyStatus.awaiting_claims
    → bounty.multitasking ≡ some (one_for_all n per_slot min_slots (some env))
    → env.paid_slots < n
    → paid_out bounty.amount n occupied env.paid_slots ≡ ok paid
    → internal_get_bounty_amount_to_return config bounty ≡ ok refund
    → paid
        + refund.amount_to_return
        + refund.penalty_platform_fee
        + refund.penalty_dao_fee
        + bounty.amount % n
      ≡ bounty.amount + refund.platform_fee + refund.dao_fee
paid_and_refunded config bounty n per_slot min_slots env occupied inside waits mode below paid
      refund =
    let one = bounty.amount / n in
    let parts : one * n ≡ one * (env.paid_slots + (n - env.paid_slots)) =
      ap (λ (t : ℕ). one * t) (omega arith) in
    omega (
      arith,
      ok-injective (sym (paid_out-early bounty.amount n occupied env.paid_slots below) ∙ paid),
      Ensures-ok _ _ (refund_lem config bounty n per_slot min_slots env inside waits mode) refund,
      div_any bounty.amount n,
      parts,
    )
