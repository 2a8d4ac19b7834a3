-- ===== src/Bounties/FeeStats/Runs.antt =====
-- Sequences of the bookings of `FeeStats`, bounties/src/types.rs, which bounties/src/internal.rs
-- makes one by one.
use heroes_contracts.Prelude.{
  ℕ, ◌+◌, ◌≤◌, ◌<◌, ◌≡◌, List, [], ◌∷◌, Result, ok, ◌>>=◌, u128_bound, arith, Ensures, done,
  Ensures-bind, Result-cases, inl, inr,
}
use heroes_contracts.Bounties.FeeStats
use heroes_contracts.Bounties.FeeStats.{
  FeeStats, new, receiving_commission, commission_unlocking, refund_commission,
  withdrawal_of_commission,
}
use heroes_contracts.Bounties.FeeStats.Accounting.{IsBalanced}

-- What is booked when a bounty is funded, paid or cancelled, and when the transfer of a withdrawn
-- amount has succeeded. The amount of a withdrawal is any: it was computed by an earlier call.
pub data FeeOperation : Type 0 where
  receive : ℕ → FeeOperation
  unlock : ℕ → FeeOperation
  refund : ℕ → ℕ → FeeOperation
  withdraw : ℕ → FeeOperation

abbrev apply : FeeStats → FeeOperation → Result FeeStats
apply s (receive amount) = receiving_commission s amount
apply s (unlock amount) = commission_unlocking s amount
apply s (refund amount penalty) = refund_commission s amount penalty
apply s (withdraw amount) = withdrawal_of_commission s amount

unfoldable pub run : FeeStats → List FeeOperation → Result FeeStats
run s [] = ok s
run s (o ∷ os) = do next ← apply s o; run next os

-- What was received is what is held, was withdrawn, was refunded or was kept as a penalty.
abbrev pub IsConserved : FeeStats → Type 0
IsConserved s =
    s.amount_received ≡ s.balance + s.amount_withdrawn + s.refunded_amount + s.penalty_amount

new-IsConserved : IsConserved new
unfolding new
new-IsConserved = omega arith

apply-IsConserved :
    (s t : FeeStats) (o : FeeOperation) → IsConserved s → apply s o ≡ ok t → IsConserved t
unfolding receiving_commission commission_unlocking refund_commission withdrawal_of_commission
apply-IsConserved s t (receive amount) v h = ground arith
apply-IsConserved s t (unlock amount) v h = ground arith
apply-IsConserved s t (refund amount penalty) v h = ground arith
apply-IsConserved s t (withdraw amount) v h = ground arith

run_lem : (s : FeeStats) (os : List FeeOperation) → IsConserved s → Ensures IsConserved (run s os)
unfolding run
run_lem s [] v = done v
run_lem s (o ∷ os) v =
    Ensures-bind _ (apply s o) _ (λ next h. run_lem next os (apply-IsConserved s next o v h))

-- After every sequence of bookings on fresh statistics that does not panic (fundings, payouts,
-- refunds with their penalties, and transfers of withdrawn amounts, of whatever amounts and in any
-- order), what was received is what is held, withdrawn, refunded or kept as a penalty.
pub run-IsConserved : (os : List FeeOperation) → Ensures IsConserved (run new os)
run-IsConserved os = run_lem new os new-IsConserved

-- With balanced books that fit 128 bits, a refund whose amount passed the check of the locked
-- amount, with a penalty of no more than it, cannot panic when it is booked.
pub refund_commission-total :
    (s : FeeStats) (amount penalty : ℕ)
    → IsBalanced s
    → s.amount_received < u128_bound
    → FeeStats.assert_locked_amount_greater_than_or_equal_transaction_amount s amount ≡ ok tt
    → penalty ≤ amount
    → (t : FeeStats) × (refund_commission s amount penalty ≡ ok t)
unfolding refund_commission FeeStats.assert_locked_amount_greater_than_or_equal_transaction_amount
refund_commission-total s amount penalty v fits checked h =
    elim (Result-cases (refund_commission s amount penalty)) [
      | inl total ↦ total
      | inr (e, stops) ↦ let absurd : ⊥ = ground arith in elim absurd [ ]
    ]
