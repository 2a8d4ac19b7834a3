-- ===== src/Tests/Reputation.antt =====
-- The theorem on the statistics at a concrete contract, reputation/src/lib.rs.
use heroes_contracts.Prelude.{◌≡◌, refl, some, true, [], ◌∷◌, ok}
use heroes_contracts.Near.{Context}
use heroes_contracts.Reputation.Metrics.{
  ActionKind, default_claimant_metrics, default_bounty_owner_metrics, count_for_claimant,
  count_for_owner,
}
use heroes_contracts.Reputation.Contract.{Contract, new, emit}
use heroes_contracts.Reputation.Balance.{IsBalanced}
use heroes_contracts.Reputation.Runs.{started, stepped, emitted, IsReachable-IsBalanced}

-- The bounties contract is 1, the claimant 4 and the owner 5.
abbrev call : Context
call = record { predecessor = 1; current_account = 2; block_timestamp = 0; attached_deposit = 0 }

abbrev empty_books : Contract
empty_books = record {
  bounties_contract = 1;
  claimants_entries = [];
  bounty_owners_entries = [];
  admin_whitelist = 3 ∷ [];
}

abbrev disputed : Contract
disputed = record empty_books {
  claimants_entries =
      (
        4,
        record default_claimant_metrics {
          number_of_successful_claims = 1;
          number_of_open_disputes = 1;
          number_of_disputes_won = 1;
        },
      )
      ∷ [];
  bounty_owners_entries =
      (
        5,
        record default_bounty_owner_metrics {
          number_of_rejected_claims = 1;
          number_of_open_disputes = 1;
        },
      )
      ∷ [];
}

new_runs : new 1 (3 ∷ []) ≡ ok empty_books
unfolding new
new_runs = refl

emit_runs : emit call empty_books (some 4) (some 5) (ActionKind.successful_claim true) ≡ ok disputed
unfolding emit count_for_claimant count_for_owner
emit_runs = refl

IsReachable-IsBalanced_example : IsBalanced disputed
IsReachable-IsBalanced_example = IsReachable-IsBalanced (
    stepped (started 1 (3 ∷ []) new_runs)
      (emitted call (some 4) (some 5) (ActionKind.successful_claim true) emit_runs))
