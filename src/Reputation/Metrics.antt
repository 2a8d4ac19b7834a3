-- ===== src/Reputation/Metrics.antt =====
-- The counters of reputation/src/lib.rs, and what an action adds to them.
use heroes_contracts.Prelude.{
  ℕ, Bool, true, false, Result, ok, add, u64_bound, ◌>>=◌, if◌then◌else◌,
}

-- u64 counters.
pub record ClaimantMetrics : Type 0 where
  pub number_of_claims : ℕ
  pub number_of_accepted_claims : ℕ
  pub number_of_successful_claims : ℕ
  pub number_of_unsuccessful_claims : ℕ
  pub number_of_overdue_claims : ℕ
  pub number_of_canceled_claims : ℕ
  pub number_of_open_disputes : ℕ
  pub number_of_disputes_won : ℕ

pub record BountyOwnerMetrics : Type 0 where
  pub number_of_bounties : ℕ
  pub number_of_successful_bounties : ℕ
  pub number_of_canceled_bounties : ℕ
  pub number_of_claims : ℕ
  pub number_of_approved_claimants : ℕ
  pub number_of_approved_claims : ℕ
  pub number_of_rejected_claims : ℕ
  pub number_of_open_disputes : ℕ
  pub number_of_disputes_won : ℕ

abbrev pub default_claimant_metrics : ClaimantMetrics
default_claimant_metrics = record {
  number_of_claims = 0;
  number_of_accepted_claims = 0;
  number_of_successful_claims = 0;
  number_of_unsuccessful_claims = 0;
  number_of_overdue_claims = 0;
  number_of_canceled_claims = 0;
  number_of_open_disputes = 0;
  number_of_disputes_won = 0;
}

abbrev pub default_bounty_owner_metrics : BountyOwnerMetrics
default_bounty_owner_metrics = record {
  number_of_bounties = 0;
  number_of_successful_bounties = 0;
  number_of_canceled_bounties = 0;
  number_of_claims = 0;
  number_of_approved_claimants = 0;
  number_of_approved_claims = 0;
  number_of_rejected_claims = 0;
  number_of_open_disputes = 0;
  number_of_disputes_won = 0;
}

pub data ActionKind : Type 0 where
  bounty_created bounty_cancelled claim_created claim_cancelled claimant_approved : ActionKind
  claim_expired successful_bounty : ActionKind
  -- with_dispute
  successful_bounty_and_claim unsuccessful_claim successful_claim : Bool → ActionKind

-- `+= 1` on a u64.
abbrev increment : ℕ → Result ℕ
increment n = add u64_bound n 1

abbrev count_accepted : ClaimantMetrics → Result ClaimantMetrics
count_accepted m = do
  n ← increment m.number_of_successful_claims
  ok (record m { number_of_successful_claims = n })

abbrev count_won : ClaimantMetrics → Result ClaimantMetrics
count_won m = do
  opened ← increment m.number_of_open_disputes
  won ← increment m.number_of_disputes_won
  ok (record m { number_of_open_disputes = opened; number_of_disputes_won = won })

-- What an action adds to the counters of the claimant.
unfoldable pub count_for_claimant : ActionKind → ClaimantMetrics → Result ClaimantMetrics
count_for_claimant ActionKind.claim_created m = do
  n ← increment m.number_of_claims
  ok (record m { number_of_claims = n })
count_for_claimant ActionKind.claimant_approved m = do
  n ← increment m.number_of_accepted_claims
  ok (record m { number_of_accepted_claims = n })
count_for_claimant ActionKind.claim_cancelled m = do
  n ← increment m.number_of_canceled_claims
  ok (record m { number_of_canceled_claims = n })
count_for_claimant ActionKind.claim_expired m = do
  n ← increment m.number_of_overdue_claims
  ok (record m { number_of_overdue_claims = n })
count_for_claimant (ActionKind.successful_bounty_and_claim with_dispute) m = do
  counted ← count_accepted m
  if with_dispute then count_won counted else ok counted
count_for_claimant (ActionKind.successful_claim with_dispute) m = do
  counted ← count_accepted m
  if with_dispute then count_won counted else ok counted
count_for_claimant (ActionKind.unsuccessful_claim with_dispute) m = do
  n ← increment m.number_of_unsuccessful_claims
  opened ←
      (if with_dispute then increment m.number_of_open_disputes else ok m.number_of_open_disputes)
  ok (record m { number_of_unsuccessful_claims = n; number_of_open_disputes = opened })
count_for_claimant _ m = ok m

abbrev count_rejected : BountyOwnerMetrics → Result BountyOwnerMetrics
count_rejected m = do
  n ← increment m.number_of_rejected_claims
  ok (record m { number_of_rejected_claims = n })

abbrev count_dispute : BountyOwnerMetrics → Result BountyOwnerMetrics
count_dispute m = do
  n ← increment m.number_of_open_disputes
  ok (record m { number_of_open_disputes = n })

abbrev count_claim : Bool → BountyOwnerMetrics → Result BountyOwnerMetrics
count_claim true m = do rejected ← count_rejected m; count_dispute rejected
count_claim false m = do
  n ← increment m.number_of_approved_claims
  ok (record m { number_of_approved_claims = n })

abbrev count_successful_bounty : BountyOwnerMetrics → Result BountyOwnerMetrics
count_successful_bounty m = do
  n ← increment m.number_of_successful_bounties
  ok (record m { number_of_successful_bounties = n })

-- What an action adds to the counters of the bounty's owner.
unfoldable pub count_for_owner : ActionKind → BountyOwnerMetrics → Result BountyOwnerMetrics
count_for_owner ActionKind.bounty_created m = do
  n ← increment m.number_of_bounties
  ok (record m { number_of_bounties = n })
count_for_owner ActionKind.claim_created m = do
  n ← increment m.number_of_claims
  ok (record m { number_of_claims = n })
count_for_owner ActionKind.claimant_approved m = do
  n ← increment m.number_of_approved_claimants
  ok (record m { number_of_approved_claimants = n })
count_for_owner ActionKind.bounty_cancelled m = do
  n ← increment m.number_of_canceled_bounties
  ok (record m { number_of_canceled_bounties = n })
count_for_owner (ActionKind.successful_bounty_and_claim with_dispute) m = do
  counted ← count_successful_bounty m
  count_claim with_dispute counted
count_for_owner (ActionKind.successful_claim with_dispute) m = count_claim with_dispute m
count_for_owner ActionKind.successful_bounty m = count_successful_bounty m
count_for_owner (ActionKind.unsuccessful_claim with_dispute) m = do
  rejected ← count_rejected m
  disputed ← (if with_dispute then count_dispute rejected else ok rejected)
  won ←
      (if with_dispute
        then increment disputed.number_of_disputes_won
        else ok disputed.number_of_disputes_won)
  ok (record disputed { number_of_disputes_won = won })
count_for_owner _ m = ok m
