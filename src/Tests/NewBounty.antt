-- ===== src/Tests/NewBounty.antt =====
-- A bounty made by a transfer of tokens at a concrete contract, bounties/src/receiver.rs.
use heroes_contracts.Prelude.{
  ◌≡◌, refl, ℕ, String, Bool, Option, none, some, true, false, Result, ok, panic, insert, empty,
  Ensures,
}
use heroes_contracts.Bounties.Types.{
  BountyStatus, ClaimStatus, ClaimantApproval, Deadline, KycConfig,
}
use heroes_contracts.Bounties.Bounty.Split.{BountyCreate, to_bounty, split}
use heroes_contracts.Bounties.Bounty.Valid.{assert_valid}
use heroes_contracts.Bounties.FeeStats
use heroes_contracts.Bounties.Commissions.{
  internal_get_dao_fee_stats, internal_total_fees_receiving_funds,
}
use heroes_contracts.Bounties.Contract.{Contract}
use heroes_contracts.Bounties.Creation.{
  assert_that_token_is_allowed, check_bounty, internal_tag_filter, internal_add_bounty,
  internal_create_bounty, ft_on_transfer,
}
use heroes_contracts.Bounties.Bonds.NewBounty.{Creates, ft_on_transfer-Creates}
use heroes_contracts.Tests.Samples.{owner, token, context_of, metadata, simple}

abbrev request : BountyCreate
request = record {
  metadata = metadata;
  deadline = Deadline.without_deadline;
  claimant_approval = ClaimantApproval.multiple_claims;
  reviewers = none;
  kyc_config = some KycConfig.kyc_not_required;
  postpaid = none;
  multitasking = none;
  allow_deadline_stretch = some false;
  bounty_flow = none;
  allow_creating_many_claims = none;
}

abbrev parse : String → Option BountyCreate
parse msg = some request

abbrev with_token : Contract
with_token = record (simple BountyStatus.new ClaimStatus.new) {
  tokens = insert empty token (record { enabled = true; min_amount_for_kyc = none });
}

abbrev is_ok : Result (ℕ × Contract) → Bool
is_ok (ok r) = true
is_ok (panic e) = false

ft_on_transfer_runs :
    is_ok (ft_on_transfer parse (context_of token) with_token owner 1_100 "") ≡ true
unfolding ft_on_transfer assert_that_token_is_allowed internal_create_bounty to_bounty split
    internal_tag_filter check_bounty assert_valid internal_add_bounty
    internal_total_fees_receiving_funds internal_get_dao_fee_stats FeeStats.receiving_commission
ft_on_transfer_runs = refl

ft_on_transfer-Creates_example :
    Ensures
      (λ r. (r.0 ≡ 0) × Creates with_token owner 1_100 r.1)
      (ft_on_transfer parse (context_of token) with_token owner 1_100 "")
ft_on_transfer-Creates_example =
    ft_on_transfer-Creates parse (context_of token) with_token owner 1_100 ""
