-- ===== src/Bounties/Commissions/Amounts.antt =====
-- The amounts of a payout, of a refund and of one subtask, bounties/src/internal.rs. Amounts are
-- u128.
pub mod Slots
pub mod Subtasks
use heroes_contracts.Prelude.{
  ℕ, Bool, true, false, ◌&&◌, ◌||◌, ◌==◌, ltb, if◌then◌else◌, Option, none, some, is_none,
  unwrap_or, List, [], ◌∷◌, length, Result, ok, assert, expect, unwrap, unreachable, index, add,
  mul, sub, div, u128_bound, ◌>>=◌, ◌>>◌,
}
use heroes_contracts.Near.{AccountId}
use heroes_contracts.Bounties.Types.{
  BountyStatus, ClaimStatus, Config, PrizePlace, Subtask, SubtaskEnv, Claimant, bounty_status_eq,
}
use heroes_contracts.Bounties.Multitasking
use heroes_contracts.Bounties.Multitasking.{
  Multitasking, contest_or_hackathon, one_for_all, different_tasks, get_different_tasks_env,
}
use heroes_contracts.Bounties.Bounty.{
  Bounty, is_payment_outside_contract, is_one_bounty_for_many_claimants, is_contest_or_hackathon,
}
use heroes_contracts.Bounties.Bounty.Valid.{checked_sum, place_amounts}
use heroes_contracts.Bounties.Contract.{Contract}
use heroes_contracts.Bounties.Lookup.{get_claims_with_statuses}

-- `total / n * k`.
abbrev pub share : ℕ → ℕ → ℕ → Result ℕ
share total n k = do one ← div total n; mul u128_bound one k

abbrev pub places_or_one : Option (List PrizePlace) → ℕ → List PrizePlace
places_or_one places amount =
    unwrap_or places (record { place_description = ""; place_amount = amount } ∷ [])

-- The places without a winner; a place beyond the winners' list is out of bounds.
abbrev free_places : List PrizePlace → List (Option Claimant) → Result (List PrizePlace)
free_places [] winners = ok []
free_places (p ∷ ps) [] = index [] 0
free_places (p ∷ ps) (w ∷ ws) = do
  rest ← free_places ps ws
  ok (if is_none w then p ∷ rest else rest)

-- The reward and the two commissions that have not been paid out yet.
unfoldable pub unpaid_amounts : Bounty → Option Multitasking → Result (ℕ × ℕ × ℕ)
unpaid_amounts bounty (some (one_for_all number_of_slots per_slot min_slots runtime_env)) = do
  slots ←
      Multitasking.get_one_for_all_env (one_for_all number_of_slots per_slot min_slots runtime_env)
  remainder ← sub number_of_slots slots.1
  amount ← share bounty.amount number_of_slots remainder
  platform_fee ← share bounty.platform_fee number_of_slots remainder
  dao_fee ← share bounty.dao_fee number_of_slots remainder
  ok (amount, platform_fee, dao_fee)
unpaid_amounts bounty (some (contest_or_hackathon _ _ _ prize_places runtime_env)) = do
  env ← unwrap runtime_env
  let places = places_or_one prize_places bounty.amount
  free ← free_places places env.competition_winners
  amount ← checked_sum u128_bound (place_amounts free)
  platform_fee ← share bounty.platform_fee (length places) (length free)
  dao_fee ← share bounty.dao_fee (length places) (length free)
  ok (amount, platform_fee, dao_fee)
unpaid_amounts bounty _ = unreachable

-- The part of a commission that is kept when the owner cancels.
abbrev penalty : ℕ → ℕ → ℕ → Result ℕ
penalty fee penalty_percentage percentage =
    if percentage == 0
    then ok 0
    else (do product ← mul u128_bound fee penalty_percentage; div product percentage)

abbrev pub is_partly_paid : Bounty → Bool
is_partly_paid bounty =
    is_one_bounty_for_many_claimants bounty
    && bounty_status_eq bounty.status BountyStatus.awaiting_claims

-- What a cancellation returns to the owner and, of each commission, what is taken back from the
-- contract's books and what of that is kept.
pub record Refund : Type 0 where
  pub amount_to_return : ℕ
  pub platform_fee : ℕ
  pub penalty_platform_fee : ℕ
  pub dao_fee : ℕ
  pub penalty_dao_fee : ℕ

refund_of : Config → ℕ × ℕ × ℕ → Result Refund
refund_of config (amount, platform_fee, dao_fee) = do
  penalty_platform ←
      penalty platform_fee config.penalty_platform_fee_percentage config.platform_fee_percentage
  penalty_dao ←
      penalty dao_fee config.penalty_validators_dao_fee_percentage
        config.validators_dao_fee_percentage
  with_platform ← add u128_bound amount platform_fee
  less_platform ← sub with_platform penalty_platform
  with_dao ← add u128_bound less_platform dao_fee
  amount_to_return ← sub with_dao penalty_dao
  ok (record {
    amount_to_return = amount_to_return;
    platform_fee = platform_fee;
    penalty_platform_fee = penalty_platform;
    dao_fee = dao_fee;
    penalty_dao_fee = penalty_dao;
  })

abbrev nothing_to_refund : Refund
nothing_to_refund = record {
  amount_to_return = 0;
  platform_fee = 0;
  penalty_platform_fee = 0;
  dao_fee = 0;
  penalty_dao_fee = 0;
}

unfoldable pub internal_get_bounty_amount_to_return : Config → Bounty → Result Refund
unfolding refund_of unpaid_amounts
internal_get_bounty_amount_to_return config bounty =
    if is_payment_outside_contract bounty then ok nothing_to_refund else (do
      amounts ←
          if is_partly_paid bounty
          then unpaid_amounts bounty bounty.multitasking
          else ok (bounty.amount, bounty.platform_fee, bounty.dao_fee)
      refund_of config amounts)

-- The last slot also gets what rounding has left over.
unfoldable pub slot_share : ℕ → ℕ → ℕ → ℕ → Result ℕ
slot_share total number_of_slots occupied_slots paid_slots = do
  one ← div total number_of_slots
  second_to_last ← sub number_of_slots 1
  if occupied_slots == 1 && paid_slots == second_to_last
      then (do others ← mul u128_bound one second_to_last; sub total others)
      else ok one

abbrev multitasking_payment : Bounty → Option Multitasking → Option ℕ → Result (ℕ × ℕ × ℕ)
multitasking_payment bounty (some (one_for_all number_of_slots per_slot min_slots runtime_env))
      place =
    do
      slots ←
          Multitasking.get_one_for_all_env
            (one_for_all number_of_slots per_slot min_slots runtime_env)
      amount ← slot_share bounty.amount number_of_slots slots.0 slots.1
      platform_fee ← slot_share bounty.platform_fee number_of_slots slots.0 slots.1
      dao_fee ← slot_share bounty.dao_fee number_of_slots slots.0 slots.1
      ok (amount, platform_fee, dao_fee)
multitasking_payment bounty (some (contest_or_hackathon _ _ _ prize_places _)) place = do
  prize_place ← expect place "This bounty type requires a place value"
  let places = places_or_one prize_places bounty.amount
  assert (ltb prize_place (length places)) "There are not so many prize places"
  p ← index places prize_place
  platform_fee ← div bounty.platform_fee (length places)
  dao_fee ← div bounty.dao_fee (length places)
  ok (p.place_amount, platform_fee, dao_fee)
multitasking_payment bounty _ place = unreachable

-- The reward and the two commissions of one payout.
unfoldable pub internal_get_bounty_amount_for_payment : Bounty → Option ℕ → Result (ℕ × ℕ × ℕ)
internal_get_bounty_amount_for_payment bounty place =
    if is_payment_outside_contract bounty
    then ok (0, 0, 0)
    else (if is_one_bounty_for_many_claimants bounty || is_contest_or_hackathon bounty
        then multitasking_payment bounty bounty.multitasking place
        else ok (bounty.amount, bounty.platform_fee, bounty.dao_fee))

-- The reward of one subtask by its percentage.
abbrev pub subtask_amount : ℕ → Subtask → Result ℕ
subtask_amount amount s = do product ← mul u128_bound amount s.subtask_percent; div product 100_000

-- The sum of the rewards of the subtasks whose slots are empty, that is, paid already.
unfoldable pub paid_subtasks : ℕ → List Subtask → List (Option SubtaskEnv) → Result ℕ
paid_subtasks amount [] participants = ok 0
paid_subtasks amount (s ∷ ss) [] = index [] 0
paid_subtasks amount (s ∷ ss) (p ∷ ps) = do
  rest ← paid_subtasks amount ss ps
  this ← if is_none p then subtask_amount amount s else ok 0
  add u128_bound this rest

abbrev pub partial_amount : ℕ → List Subtask → List (Option SubtaskEnv) → ℕ → Bool → Result ℕ
partial_amount amount subtasks participants slot is_last = do
  s ← index subtasks slot
  one_slot_amount ← subtask_amount amount s
  if is_last
      then (do others ← paid_subtasks amount subtasks participants; sub amount others)
      else ok one_slot_amount

abbrev is_empty_list {ℓ} : {A : Type ℓ} → List A → Bool
is_empty_list [] = true
is_empty_list _ = false

abbrev subtask_payment :
    Contract → ℕ → Bounty → AccountId → Option ℕ → ℕ → Option Multitasking → Result ℕ
subtask_payment c id bounty receiver_id claim_number slot
      (some (different_tasks subtasks runtime_env)) =
    do
      incomplete ←
          get_claims_with_statuses c id
            (ClaimStatus.completed ∷ ClaimStatus.completed_with_dispute ∷ [])
            (some (receiver_id, claim_number))
      env ← unwrap runtime_env
      partial_amount bounty.amount subtasks env.participants slot (is_empty_list incomplete)
subtask_payment c id bounty receiver_id claim_number slot none = unwrap none
subtask_payment c id bounty receiver_id claim_number slot (some _) = unreachable

unfoldable pub internal_get_partial_amount :
    Contract → ℕ → Bounty → AccountId → Option ℕ → ℕ → Result ℕ
internal_get_partial_amount c id bounty receiver_id claim_number slot =
    subtask_payment c id bounty receiver_id claim_number slot bounty.multitasking
