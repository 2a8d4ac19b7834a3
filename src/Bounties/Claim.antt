-- ===== src/Bounties/Claim.antt =====
-- `BountyClaim`, bounties/src/types.rs.
use heroes_contracts.Prelude.{
  ℕ, String, Bool, ltb, if◌then◌else◌, Option, none, some, unwrap_or, Result, ok, unwrap,
  unreachable, add, u64_bound, ◌>>=◌,
}
use heroes_contracts.Near.{AccountId, Context}
use heroes_contracts.Bounties.Types.{ClaimStatus, DefermentOfKyc, PaymentTimestamps, Deadline}
use heroes_contracts.Bounties.Multitasking
use heroes_contracts.Bounties.Bounty.{Bounty, is_contest_or_hackathon, default_payment_timestamps}

pub record BountyClaim : Type 0 where
  pub owner : AccountId
  pub bounty_id : ℕ
  pub created_at : ℕ
  pub start_time : Option ℕ
  pub deadline : Option ℕ
  pub description : String
  pub status : ClaimStatus
  pub bounty_payout_proposal_id : Option ℕ
  pub approve_claimant_proposal_id : Option ℕ
  pub rejected_timestamp : Option ℕ
  pub dispute_id : Option ℕ
  pub is_kyc_delayed : Option DefermentOfKyc
  pub payment_timestamps : Option PaymentTimestamps
  pub slot : Option ℕ
  pub bond : Option ℕ
  pub claim_number : Option ℕ  -- u8

-- For a contest the argument of `unwrap_or` is evaluated first, so a contest that has not started
-- panics even if the claim has its own start time.
unfoldable pub get_start_time : BountyClaim → Bounty → Result ℕ
get_start_time claim bounty =
    if is_contest_or_hackathon bounty
    then (do
      multitasking ← unwrap bounty.multitasking
      timestamps ← Multitasking.get_competition_timestamps multitasking
      started_at ← unwrap timestamps.0
      ok (unwrap_or claim.start_time started_at))
    else unwrap claim.start_time

abbrev expires_at : BountyClaim → Bounty → Option ℕ → Deadline → Result ℕ
expires_at claim bounty (some d) _ = do start ← get_start_time claim bounty; add u64_bound start d
expires_at claim bounty none (Deadline.due_date t) = ok t
expires_at claim bounty none (Deadline.max_deadline m) = do
  start ← get_start_time claim bounty
  add u64_bound start m
expires_at claim bounty none Deadline.without_deadline = unreachable

unfoldable pub is_claim_expired : Context → BountyClaim → Bounty → Result Bool
is_claim_expired ctx claim bounty = do
  limit ← expires_at claim bounty claim.deadline bounty.deadline
  ok (ltb limit ctx.block_timestamp)

abbrev pub set_payment_at : BountyClaim → Option ℕ → BountyClaim
set_payment_at claim payment_at =
    let t = unwrap_or claim.payment_timestamps default_payment_timestamps in
    record claim { payment_timestamps = some (record t { payment_at = payment_at }) }

abbrev pub set_payment_confirmed_at : BountyClaim → Option ℕ → BountyClaim
set_payment_confirmed_at claim payment_confirmed_at =
    let t = unwrap_or claim.payment_timestamps default_payment_timestamps in
    record claim {
      payment_timestamps = some (record t { payment_confirmed_at = payment_confirmed_at });
    }
