-- ===== src/Bounties/Pending.antt =====
-- Between a call that schedules a transfer and the callback of that transfer, nothing in the state
-- says that the transfer is under way, bounties/src/lib.rs.
use heroes_contracts.Prelude.{◌≡◌}
use heroes_contracts.Bounties.Contract.{Contract, Receipt, schedule}
use heroes_contracts.Bounties.Multitasking
use heroes_contracts.Bounties.Bounty.{Bounty}

-- One promise is scheduled, and nothing else is changed.
abbrev Schedules : Contract → Contract → Type 0
Schedules c d = (r : Receipt) × (d ≡ schedule c r)
