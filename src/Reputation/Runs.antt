-- ===== src/Reputation/Runs.antt =====
-- Any sequence of calls of the methods of reputation/src/lib.rs.
use heroes_contracts.Prelude.{◌≡◌, refl, [], Ensures-ok, Option, List, ok, arith}
use heroes_contracts.Near.{AccountId, Context}
use heroes_contracts.Reputation.Metrics.{ActionKind}
use heroes_contracts.Reputation.Contract.{
  Contract, new, emit, add_to_admin_whitelist, remove_from_admin_whitelist,
  update_bounties_contract,
}
use heroes_contracts.Reputation.Balance.{IsBalanced, emit-IsBalanced}

-- A call that ends without a panic.
pub data Step : Contract → Contract → Type 0 where
  emitted :
      {c d : Contract} (ctx : Context) (receiver_id bounty_owner : Option AccountId)
      (action : ActionKind)
      → emit ctx c receiver_id bounty_owner action ≡ ok d
      → Step c d
  admins_added :
      {c d : Contract} (ctx : Context) (one : Option AccountId) (many : Option (List AccountId))
      → add_to_admin_whitelist ctx c one many ≡ ok d
      → Step c d
  admins_removed :
      {c d : Contract} (ctx : Context) (one : Option AccountId) (many : Option (List AccountId))
      → remove_from_admin_whitelist ctx c one many ≡ ok d
      → Step c d
  moved :
      {c d : Contract} (ctx : Context) (bounties_contract : AccountId)
      → update_bounties_contract ctx c bounties_contract ≡ ok d
      → Step c d

pub data IsReachable : Contract → Type 0 where
  started :
      {c : Contract} (bounties_contract : AccountId) (admins : List AccountId)
      → new bounties_contract admins ≡ ok c
      → IsReachable c
  stepped : {c d : Contract} → IsReachable c → Step c d → IsReachable d

same-IsBalanced :
    (c d : Contract)
    → d.claimants_entries ≡ c.claimants_entries
    → d.bounty_owners_entries ≡ c.bounty_owners_entries
    → IsBalanced c
    → IsBalanced d
same-IsBalanced c d e o v = record {
  claims = rw (e, o, v.claims) refl;
  approvals = rw (e, o, v.approvals) refl;
  disputes = rw (e, o, v.disputes) refl;
  rejections = rw (e, o, v.rejections) refl;
  results = rw (e, o, v.results) refl;
  successes = rw (e, o, v.successes) refl;
}

module _ (ctx : Context) (c d : Contract) where
  add_to_admin_whitelist-entries :
      (one : Option AccountId) (many : Option (List AccountId))
      → add_to_admin_whitelist ctx c one many ≡ ok d
      → (d.claimants_entries ≡ c.claimants_entries)
        × (d.bounty_owners_entries ≡ c.bounty_owners_entries)
  unfolding add_to_admin_whitelist
  add_to_admin_whitelist-entries one many h = ground arith

  remove_from_admin_whitelist-entries :
      (one : Option AccountId) (many : Option (List AccountId))
      → remove_from_admin_whitelist ctx c one many ≡ ok d
      → (d.claimants_entries ≡ c.claimants_entries)
        × (d.bounty_owners_entries ≡ c.bounty_owners_entries)
  unfolding remove_from_admin_whitelist
  remove_from_admin_whitelist-entries one many h = ground arith

  update_bounties_contract-entries :
      (account : AccountId)
      → update_bounties_contract ctx c account ≡ ok d
      → (d.claimants_entries ≡ c.claimants_entries)
        × (d.bounty_owners_entries ≡ c.bounty_owners_entries)
  unfolding update_bounties_contract
  update_bounties_contract-entries account h = ground arith

Step-IsBalanced : {c d : Contract} → Step c d → IsBalanced c → IsBalanced d
Step-IsBalanced {c} (emitted ctx receiver_id bounty_owner action h) v =
    Ensures-ok _ _ (emit-IsBalanced ctx c receiver_id bounty_owner action v) h
Step-IsBalanced {c} {d} (admins_added ctx one many h) v =
    let (e, o) = add_to_admin_whitelist-entries ctx c d one many h in same-IsBalanced c d e o v
Step-IsBalanced {c} {d} (admins_removed ctx one many h) v =
    let (e, o) = remove_from_admin_whitelist-entries ctx c d one many h in same-IsBalanced c d e o v
Step-IsBalanced {c} {d} (moved ctx account h) v =
    let (e, o) = update_bounties_contract-entries ctx c d account h in same-IsBalanced c d e o v

new-IsBalanced :
    (c : Contract) (bounties_contract : AccountId) (admins : List AccountId)
    → new bounties_contract admins ≡ ok c
    → IsBalanced c
unfolding new
new-IsBalanced c bounties_contract admins h =
    same-IsBalanced (record c { claimants_entries = []; bounty_owners_entries = [] }) c
      (ground arith) (ground arith)
      (record {
        claims = refl;
        approvals = refl;
        disputes = refl;
        rejections = refl;
        results = refl;
        successes = refl;
      })

-- After any sequence of calls of the contract's methods from `new` on, the statistics of claimants
-- and those of owners agree, summed over all accounts: as many claims were made as received,
-- claimants approved as accepted, disputes opened on either side; the rejected claims are those
-- lost and those won in a dispute, every dispute was won by exactly one side, and the successful
-- claims are those approved and those won in a dispute.
pub IsReachable-IsBalanced : {c : Contract} → IsReachable c → IsBalanced c
IsReachable-IsBalanced (started bounties_contract admins h) =
    new-IsBalanced _ bounties_contract admins h
IsReachable-IsBalanced (stepped r step) = Step-IsBalanced step (IsReachable-IsBalanced r)
