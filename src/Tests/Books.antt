-- ===== src/Tests/Books.antt =====
-- The theorems on commissions and on access at concrete input, bounties/src/types.rs.
use heroes_contracts.Prelude.{◌≡◌, ◌↔◌, refl, List, [], ◌∷◌, none, true, ok, arith, Ensures}
use heroes_contracts.Bounties.Types.{BountyStatus}
use heroes_contracts.Bounties.FeeStats
use heroes_contracts.Bounties.FeeStats.{FeeStats, new, refund_commission}
use heroes_contracts.Bounties.FeeStats.Accounting.{IsBalanced}
use heroes_contracts.Bounties.FeeStats.Runs.{
  FeeOperation, receive, unlock, refund, withdraw, run, IsConserved, run-IsConserved,
  refund_commission-total,
}
use heroes_contracts.Bounties.Bounty.{check_access_rights}
use heroes_contracts.Bounties.Bounty.Access.{may_decide, check_access_rights-may_decide}
use heroes_contracts.Tests.Samples.{owner, context_of, bounty_of, fees}

abbrev operations : List FeeOperation
operations = receive 150 ∷ unlock 50 ∷ withdraw 50 ∷ refund 100 40 ∷ []

run-IsConserved_example : Ensures IsConserved (run new operations)
run-IsConserved_example = run-IsConserved operations

-- Two withdrawals of one available amount: more is locked than is held.
overdrawn :
    run new (receive 20 ∷ unlock 10 ∷ withdraw 10 ∷ withdraw 10 ∷ [])
    ≡ ok (record {
      balance = 0;
      locked_balance = 10;
      amount_received = 20;
      amount_withdrawn = 20;
      refunded_amount = 0;
      penalty_amount = 0;
    })
unfolding run new FeeStats.receiving_commission FeeStats.commission_unlocking
    FeeStats.withdrawal_of_commission
overdrawn = refl

fees-IsBalanced : IsBalanced fees
fees-IsBalanced = record { conserved = refl; locked = omega arith }

locked_enough :
    FeeStats.assert_locked_amount_greater_than_or_equal_transaction_amount fees 100 ≡ ok tt
unfolding FeeStats.assert_locked_amount_greater_than_or_equal_transaction_amount
locked_enough = refl

refund_commission-total_example : (t : FeeStats) × (refund_commission fees 100 50 ≡ ok t)
refund_commission-total_example =
    refund_commission-total fees 100 50 fees-IsBalanced (omega arith) locked_enough (omega arith)

check_access_rights-may_decide_example :
    (check_access_rights (context_of owner) (bounty_of BountyStatus.new none) ≡ ok tt)
    ↔ (may_decide none owner owner ≡ true)
check_access_rights-may_decide_example =
    check_access_rights-may_decide (context_of owner) (bounty_of BountyStatus.new none)
