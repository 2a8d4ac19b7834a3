-- ===== src/Bounties/FeeStats/Accounting.antt =====
-- When the books of `FeeStats`, bounties/src/types.rs, balance.
use heroes_contracts.Prelude.{◌+◌, ◌≤◌, ◌≡◌}
use heroes_contracts.Bounties.FeeStats.{FeeStats}

-- What was received is what is held, was withdrawn, was refunded or was kept as a penalty, and no
-- more is locked than is held.
pub record IsBalanced (s : FeeStats) : Type 0 where
  pub conserved :
      s.amount_received ≡ s.balance + s.amount_withdrawn + s.refunded_amount + s.penalty_amount
  pub locked : s.locked_balance ≤ s.balance
