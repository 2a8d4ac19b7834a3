-- ===== src/Bounties/FeeStats.antt =====
-- `FeeStats`, bounties/src/types.rs: what the contract holds, has received, paid out and refunded
-- of the commissions in one token. The amounts are u128.
pub mod Accounting
pub mod Runs
use heroes_contracts.Prelude.{
  ℕ, Bool, String, ◌==◌, leb, if◌then◌else◌, Result, ok, assert, add, sub, u128_bound, ◌>>=◌,
}

pub record FeeStats : Type 0 where
  pub balance : ℕ
  pub locked_balance : ℕ
  pub amount_received : ℕ
  pub amount_withdrawn : ℕ
  pub refunded_amount : ℕ
  pub penalty_amount : ℕ

unfoldable pub new : FeeStats
new = record {
  balance = 0;
  locked_balance = 0;
  amount_received = 0;
  amount_withdrawn = 0;
  refunded_amount = 0;
  penalty_amount = 0;
}

unfoldable pub receiving_commission : FeeStats → ℕ → Result FeeStats
receiving_commission s amount = do
  balance ← add u128_bound s.balance amount
  locked_balance ← add u128_bound s.locked_balance amount
  amount_received ← add u128_bound s.amount_received amount
  ok (record s {
    balance = balance;
    locked_balance = locked_balance;
    amount_received = amount_received;
  })

unfoldable pub get_available_balance : FeeStats → Result ℕ
get_available_balance s = sub s.balance s.locked_balance

unfoldable pub withdrawal_of_commission : FeeStats → ℕ → Result FeeStats
withdrawal_of_commission s amount = do
  balance ← sub s.balance amount
  amount_withdrawn ← add u128_bound s.amount_withdrawn amount
  ok (record s { balance = balance; amount_withdrawn = amount_withdrawn })

unfoldable pub assert_locked_amount_greater_than_or_equal_transaction_amount :
    FeeStats → ℕ → Result (Unit {0})
assert_locked_amount_greater_than_or_equal_transaction_amount s amount =
    assert (leb amount s.locked_balance)
      "The locked amount cannot be less than the transaction amount"

unfoldable pub commission_unlocking : FeeStats → ℕ → Result FeeStats
commission_unlocking s amount = do
  locked_balance ← sub s.locked_balance amount
  ok (record s { locked_balance = locked_balance })

refund_some : FeeStats → ℕ → ℕ → Result FeeStats
refund_some s amount penalty_amount = do
  balance ← sub s.balance amount
  locked_balance ← sub s.locked_balance amount
  sum ← add u128_bound s.refunded_amount amount
  refunded_amount ← sub sum penalty_amount
  penalty ← add u128_bound s.penalty_amount penalty_amount
  ok (record s {
    balance = balance;
    locked_balance = locked_balance;
    refunded_amount = refunded_amount;
    penalty_amount = penalty;
  })

unfoldable pub refund_commission : FeeStats → ℕ → ℕ → Result FeeStats
unfolding refund_some
refund_commission s amount penalty_amount =
    if amount == 0 then ok s else refund_some s amount penalty_amount
