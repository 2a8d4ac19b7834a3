-- ===== src/Bounties/Commissions/Amounts/Subtasks.antt =====
-- The payouts of a bounty with subtasks over all its payments: `internal_get_partial_amount` of
-- bounties/src/internal.rs.
use heroes_contracts.Prelude.{
  ℕ, zero, suc, ◌+◌, ◌-◌, ◌*◌, ◌/◌, ◌<◌, ◌≤◌, ◌≡◌, refl, ap, Option, none, some, List, [], ◌∷◌,
  length, true, false, get_elem?, ok, u128_bound, if◌then◌else◌, arith,
}
use native.Mathlib.Nat.{mul-le-mul_left}
use heroes_contracts.Near.{AccountId}
use heroes_contracts.Bounties.Types.{Subtask, SubtaskEnv, DifferentTasksEnv, ClaimStatus}
use heroes_contracts.Bounties.Multitasking.{different_tasks}
use heroes_contracts.Bounties.Bounty.{Bounty}
use heroes_contracts.Bounties.Claim.{BountyClaim}
use heroes_contracts.Bounties.Contract.{Contract}
use heroes_contracts.Bounties.Lookup.{get_claims_with_statuses}
use heroes_contracts.Bounties.Commissions.Amounts.{
  paid_subtasks, subtask_amount, partial_amount, is_empty_list, internal_get_partial_amount,
}

-- The percentages of the subtasks, in thousandths of a percent.
unfoldable pub percents : List Subtask → ℕ
percents [] = 0
percents (s ∷ ss) = s.subtask_percent + percents ss

subtask_amount-total :
    (amount : ℕ) (s : Subtask)
    → s.subtask_percent ≤ 100_000
    → amount * 100_000 < u128_bound
    → subtask_amount amount s ≡ ok (amount * s.subtask_percent / 100_000)
subtask_amount-total amount s h fits = ground (arith, mul-le-mul_left amount h)

-- What the subtasks with a free place have received: the place of a subtask is free again once its
-- reward is paid.
unfoldable pub received : ℕ → List Subtask → List (Option SubtaskEnv) → ℕ
received amount [] places = 0
received amount (s ∷ ss) [] = 0
received amount (s ∷ ss) (none ∷ places) =
    amount * s.subtask_percent / 100_000 + received amount ss places
received amount (s ∷ ss) (some occupant ∷ places) = received amount ss places

paid_subtasks-received :
    (amount : ℕ) (subtasks : List Subtask) (places : List (Option SubtaskEnv))
    → percents subtasks ≤ 100_000
    → length subtasks ≤ length places
    → amount * 100_000 < u128_bound
    → (paid_subtasks amount subtasks places ≡ ok (received amount subtasks places))
      × (received amount subtasks places * 100_000 ≤ amount * percents subtasks)
unfolding paid_subtasks percents received
paid_subtasks-received amount [] places h l fits = (refl, omega arith)
paid_subtasks-received amount (s ∷ ss) [] h l fits = elim l [ ]
paid_subtasks-received amount (s ∷ ss) (none ∷ places) h l fits =
    let (e, bound) = paid_subtasks-received amount ss places (omega arith) (omega arith) fits in
    let hundred = mul-le-mul_left amount h in
    (rw (e, subtask_amount-total amount s (omega arith) fits) (ground arith), ground arith)
paid_subtasks-received amount (s ∷ ss) (some occupant ∷ places) h l fits =
    let (e, bound) = paid_subtasks-received amount ss places (omega arith) (omega arith) fits in
    let small : percents ss ≤ 100_000 = omega arith in
    let hundred = mul-le-mul_left amount small in
    let step : percents ss ≤ s.subtask_percent + percents ss = omega arith in
    let more = mul-le-mul_left amount step in (rw e (ground arith), omega arith)

percent_at :
    (subtasks : List Subtask) (slot : ℕ) {s : Subtask}
    → get_elem? subtasks slot ≡ some s
    → s.subtask_percent ≤ percents subtasks
unfolding percents
percent_at [] slot found = ground arith
percent_at (x ∷ xs) zero found = ground arith
percent_at (x ∷ xs) (suc slot) found = let h = percent_at xs slot found in omega arith

partial_amount-last :
    (amount : ℕ) (subtasks : List Subtask) (places : List (Option SubtaskEnv)) (slot : ℕ)
    {s : Subtask}
    → get_elem? subtasks slot ≡ some s
    → percents subtasks ≡ 100_000
    → length subtasks ≤ length places
    → amount * 100_000 < u128_bound
    → (payment : ℕ) × (partial_amount amount subtasks places slot true ≡ ok payment)
      × (received amount subtasks places + payment ≡ amount)
partial_amount-last amount subtasks places slot {s} found h l fits =
    let (e, bound) = paid_subtasks-received amount subtasks places (omega arith) l fits in
    let small = percent_at subtasks slot found in
    let whole = ap (λ (t : ℕ). amount * t) h in
    (
      amount - received amount subtasks places,
      ground (arith, subtask_amount-total amount s (omega arith) fits),
      omega arith,
    )

partial_amount-first :
    (amount : ℕ) (subtasks : List Subtask) (places : List (Option SubtaskEnv)) (slot : ℕ)
    {s : Subtask}
    → get_elem? subtasks slot ≡ some s
    → percents subtasks ≡ 100_000
    → amount * 100_000 < u128_bound
    → partial_amount amount subtasks places slot false ≡ ok (amount * s.subtask_percent / 100_000)
partial_amount-first amount subtasks places slot {s} found h fits =
    let small = percent_at subtasks slot found in
    ground (arith, subtask_amount-total amount s (omega arith) fits)

-- The payment of a subtask is computed without a panic: its percentage of the reward, rounded
-- down, while the bounty has a completed claim other than the payee's, and otherwise the reward
-- less the percentages, each rounded down, of the subtasks whose places are free again. The bounty
-- has subtasks of which the percentages add up to a hundred percent and that all have a place, the
-- payee's slot is one of them, the bounty's claims can be read, and the reward times 100_000 fits
-- 128 bits.
pub internal_get_partial_amount-pays :
    (c : Contract) (id : ℕ) (bounty : Bounty) (account : AccountId) (claim_number : Option ℕ)
    (slot : ℕ) (subtasks : List Subtask) (env : DifferentTasksEnv)
    (incomplete : List (ℕ × BountyClaim)) {s : Subtask}
    → bounty.multitasking ≡ some (different_tasks subtasks (some env))
    → get_claims_with_statuses c id
        (ClaimStatus.completed ∷ ClaimStatus.completed_with_dispute ∷ [])
        (some (account, claim_number))
      ≡ ok incomplete
    → get_elem? subtasks slot ≡ some s
    → percents subtasks ≡ 100_000
    → length subtasks ≤ length env.participants
    → bounty.amount * 100_000 < u128_bound
    → (payment : ℕ) × (internal_get_partial_amount c id bounty account claim_number slot
        ≡ ok payment)
      × (if is_empty_list incomplete
          then received bounty.amount subtasks env.participants + payment ≡ bounty.amount
          else payment ≡ bounty.amount * s.subtask_percent / 100_000)
unfolding internal_get_partial_amount
internal_get_partial_amount-pays c id bounty account claim_number slot subtasks env [] {s} m others
      found h l fits =
    let (payment, e, sum) =
      partial_amount-last bounty.amount subtasks env.participants slot found h l fits in
    (payment, rw (m, others) e, sum)
internal_get_partial_amount-pays c id bounty account claim_number slot subtasks env (other ∷ rest)
      {s} m others found h l fits =
    (
      bounty.amount * s.subtask_percent / 100_000,
      rw (m, others)
          (partial_amount-first bounty.amount subtasks env.participants slot found h fits),
      refl,
    )
