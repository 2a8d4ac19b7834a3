-- ===== src/Bounties/Runtime.antt =====
-- The updates of a bounty's multitasking state, bounties/src/internal.rs. The source writes
-- `bounty.multitasking`; here the new bounty is returned.
use heroes_contracts.Prelude.{
  ℕ, true, false, Option, none, some, is_none, Result, ok, expect, unwrap, add, sub, u16_bound,
  u32_bound, ◌>>=◌, if◌then◌else◌,
}
use heroes_contracts.Near.{AccountId, Context}
use heroes_contracts.Bounties.Types.{SubtaskEnv}
use heroes_contracts.Bounties.Multitasking
use heroes_contracts.Bounties.Multitasking.{Multitasking, get_different_tasks_env}
use heroes_contracts.Bounties.Bounty.{Bounty}

abbrev pub set_multitasking : Bounty → Multitasking → Bounty
set_multitasking bounty m = record bounty { multitasking = some m }

-- `internal_start_competition` with a time, `internal_finish_competition` with none.
unfoldable pub set_competition_timestamp : Context → Bounty → Option ℕ → Result Bounty
set_competition_timestamp ctx bounty time = do
  m ← unwrap bounty.multitasking
  n ← Multitasking.set_competition_timestamp ctx m time
  ok (set_multitasking bounty n)

unfoldable pub internal_participants_increment : Bounty → Result Bounty
internal_participants_increment bounty = do
  m ← unwrap bounty.multitasking
  participants ← Multitasking.get_participants m
  more ← add u32_bound participants 1
  n ← Multitasking.set_competition_participants m more
  ok (set_multitasking bounty n)

unfoldable pub internal_participants_decrement : Bounty → Result Bounty
internal_participants_decrement bounty = do
  m ← unwrap bounty.multitasking
  participants ← Multitasking.get_participants m
  fewer ← sub participants 1
  n ← Multitasking.set_competition_participants m fewer
  ok (set_multitasking bounty n)

unfoldable pub internal_occupied_slots_increment : Bounty → Result Bounty
internal_occupied_slots_increment bounty = do
  m ← unwrap bounty.multitasking
  slots ← Multitasking.get_one_for_all_env m
  occupied ← add u16_bound slots.0 1
  n ← Multitasking.set_one_for_all_env m occupied slots.1
  ok (set_multitasking bounty n)

unfoldable pub internal_occupied_slots_decrement : Bounty → Result Bounty
internal_occupied_slots_decrement bounty = do
  m ← unwrap bounty.multitasking
  slots ← Multitasking.get_one_for_all_env m
  occupied ← sub slots.0 1
  n ← Multitasking.set_one_for_all_env m occupied slots.1
  ok (set_multitasking bounty n)

unfoldable pub internal_paid_slots_increment : Bounty → Result Bounty
internal_paid_slots_increment bounty = do
  m ← unwrap bounty.multitasking
  slots ← Multitasking.get_one_for_all_env m
  occupied ← sub slots.0 1
  paid ← add u16_bound slots.1 1
  n ← Multitasking.set_one_for_all_env m occupied paid
  ok (set_multitasking bounty n)

set_slot : Bounty → ℕ → Option SubtaskEnv → Result Bounty
set_slot bounty slot env = do
  m ← unwrap bounty.multitasking
  n ← Multitasking.set_slot_env m slot env
  ok (set_multitasking bounty n)

unfoldable pub internal_set_slot_account : Bounty → ℕ → AccountId → Option ℕ → Result Bounty
unfolding set_slot
internal_set_slot_account bounty slot account_id claim_number = set_slot bounty slot (
    some (record {
      participant = account_id;
      claim_number = claim_number;
      completed = false;
      confirmed = false;
    }))

get_slot : Bounty → ℕ → Result SubtaskEnv
get_slot bounty slot = do
  m ← unwrap bounty.multitasking
  env ← Multitasking.get_slot_env m slot
  expect env "The slot is not occupied"

unfoldable pub internal_complete_slot : Bounty → ℕ → Result Bounty
unfolding get_slot set_slot
internal_complete_slot bounty slot = do
  env ← get_slot bounty slot
  set_slot bounty slot (some (record env { completed = true }))

unfoldable pub internal_confirm_slot : Bounty → ℕ → Result Bounty
unfolding get_slot set_slot
internal_confirm_slot bounty slot = do
  env ← get_slot bounty slot
  set_slot bounty slot (some (record env { confirmed = true }))

unfoldable pub internal_reset_slot : Bounty → ℕ → Result Bounty
unfolding set_slot
internal_reset_slot bounty slot = set_slot bounty slot none

unfoldable pub internal_get_bounty_payout_proposal_id : Bounty → Result (Option ℕ)
internal_get_bounty_payout_proposal_id bounty = do
  m ← unwrap bounty.multitasking
  env ← get_different_tasks_env m
  ok env.bounty_payout_proposal_id

set_proposal_id : Bounty → Option ℕ → Result Bounty
set_proposal_id bounty proposal_id = do
  m ← unwrap bounty.multitasking
  n ← Multitasking.set_bounty_payout_proposal_id m proposal_id
  ok (set_multitasking bounty n)

unfoldable pub internal_set_bounty_payout_proposal_id : Bounty → Option ℕ → Result Bounty
unfolding set_proposal_id
internal_set_bounty_payout_proposal_id bounty proposal_id = do
  old ← internal_get_bounty_payout_proposal_id bounty
  if is_none old then set_proposal_id bounty proposal_id else ok bounty
