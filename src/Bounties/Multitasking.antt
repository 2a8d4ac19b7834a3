-- ===== src/Bounties/Multitasking.antt =====
-- `Multitasking`, bounties/src/types.rs: how several claimants share one bounty, with the state of
-- the competition, of the equal slots, or of the subtasks. `unreachable!()` and `unwrap` panic.
use heroes_contracts.Prelude.{
  ℕ, String, Bool, true, false, ◌&&◌, ◌||◌, ◌==◌, ltb, option_eq, if◌then◌else◌, Option, none, some,
  is_some, is_none, unwrap_or, List, length, replicate, all, find, Result, ok, panic, assert,
  expect, unwrap, unreachable, index, set_index, ◌>>=◌, ◌>>◌, add, sub, u16_bound,
}
use heroes_contracts.Near.{Context}
use heroes_contracts.Bounties.Types.{
  DateOrPeriod, StartConditions, PrizePlace, Subtask, Claimant, ContestOrHackathonEnvV1,
  ContestOrHackathonEnvV2, ContestOrHackathonEnv, OneForAllEnv, SubtaskEnv, DifferentTasksEnvV1,
  DifferentTasksEnv,
}

-- The arguments are in the order of the source's fields.
pub data Multitasking : Type 0 where
  contest_or_hackathon_v1 :
      Option DateOrPeriod
      → Option ℕ
      → Option StartConditions
      → Option ContestOrHackathonEnvV1
      → Multitasking
  one_for_all : ℕ → ℕ → Option ℕ → Option OneForAllEnv → Multitasking
  different_tasks_v1 : List Subtask → Option DifferentTasksEnvV1 → Multitasking
  contest_or_hackathon_v2 :
      Option DateOrPeriod
      → Option ℕ
      → Option StartConditions
      → Option ContestOrHackathonEnvV2
      → Multitasking
  different_tasks : List Subtask → Option DifferentTasksEnv → Multitasking
  contest_or_hackathon :
      Option DateOrPeriod
      → Option ℕ
      → Option StartConditions
      → Option (List PrizePlace)
      → Option ContestOrHackathonEnv
      → Multitasking

-- `ContestOrHackathonEnv::init`.
abbrev pub contest_env_init : ℕ → ContestOrHackathonEnv
contest_env_init number_of_prize_places = record {
  started_at = none;
  finished_at = none;
  participants = 0;
  competition_winners = replicate number_of_prize_places none;
}

-- `DifferentTasksEnv::init`.
abbrev pub different_tasks_env_init : ℕ → DifferentTasksEnv
different_tasks_env_init size = record {
  participants = replicate size none;
  bounty_payout_proposal_id = none;
}

-- The number of prize places of a contest: one, if none are listed.
abbrev pub number_of_prize_places : Option (List PrizePlace) → ℕ
number_of_prize_places none = 1
number_of_prize_places (some places) = length places

already_initialized : String
already_initialized = "The Multitasking instance is already initialized"

unfoldable pub init : Multitasking → Result Multitasking
unfolding already_initialized
init (contest_or_hackathon allowed successful start places runtime_env) = do
  assert (is_none runtime_env) already_initialized
  ok (
      contest_or_hackathon allowed successful start places
        (some (contest_env_init (number_of_prize_places places))))
init (one_for_all number_of_slots amount_per_slot min_slots runtime_env) = do
  assert (is_none runtime_env) already_initialized
  ok (
      one_for_all number_of_slots amount_per_slot min_slots
        (some (record { occupied_slots = 0; paid_slots = 0 })))
init (different_tasks subtasks runtime_env) = do
  assert (is_none runtime_env) already_initialized
  ok (different_tasks subtasks (some (different_tasks_env_init (length subtasks))))
init _ = panic "Invalid multitasking parameter value"

abbrev pub is_competition_mode : Multitasking → Bool
is_competition_mode (contest_or_hackathon _ _ _ _ _) = true
is_competition_mode _ = false

abbrev pub is_one_for_all_mode : Multitasking → Bool
is_one_for_all_mode (one_for_all _ _ _ _) = true
is_one_for_all_mode _ = false

abbrev pub is_different_tasks_mode : Multitasking → Bool
is_different_tasks_mode (different_tasks _ _) = true
is_different_tasks_mode _ = false

abbrev pub get_contest_or_hackathon_env : Multitasking → Result ContestOrHackathonEnv
get_contest_or_hackathon_env (contest_or_hackathon _ _ _ _ runtime_env) = unwrap runtime_env
get_contest_or_hackathon_env _ = unreachable

unfoldable pub has_competition_started : Multitasking → Result Bool
has_competition_started m = do
  env ← get_contest_or_hackathon_env m
  ok (is_some env.started_at && is_none env.finished_at)

unfoldable pub get_competition_timestamps : Multitasking → Result (Option ℕ × Option ℕ)
get_competition_timestamps m = do
  env ← get_contest_or_hackathon_env m
  ok (env.started_at, env.finished_at)

unfoldable pub get_participants : Multitasking → Result ℕ
get_participants m = do env ← get_contest_or_hackathon_env m; ok env.participants

abbrev is_winner : Claimant → Option Claimant → Bool
is_winner c none = false
is_winner (receiver_id, claim_number) (some (account, number)) =
    account == receiver_id && option_eq number claim_number

-- By place if one is given, by claimant otherwise.
unfoldable pub get_competition_winner :
    Multitasking → Option ℕ → Option Claimant → Result (Option Claimant)
get_competition_winner m (some prize_place) claimant = do
  env ← get_contest_or_hackathon_env m
  assert (ltb prize_place (length env.competition_winners)) "There are not so many prize places"
  index env.competition_winners prize_place
get_competition_winner m none claimant = do
  c ← expect claimant "Place or claimant must be specified"
  env ← get_contest_or_hackathon_env m
  ok (unwrap_or (find (is_winner c) env.competition_winners) none)

unfoldable pub are_all_prize_places_taken : Multitasking → Result Bool
are_all_prize_places_taken m = do
  env ← get_contest_or_hackathon_env m
  ok (all is_some env.competition_winners)

-- The occupied and the paid slots.
unfoldable pub get_one_for_all_env : Multitasking → Result (ℕ × ℕ)
get_one_for_all_env (one_for_all _ _ _ runtime_env) = do
  env ← unwrap runtime_env
  ok (env.occupied_slots, env.paid_slots)
get_one_for_all_env _ = unreachable

abbrev pub get_different_tasks_env : Multitasking → Result DifferentTasksEnv
get_different_tasks_env (different_tasks _ runtime_env) = unwrap runtime_env
get_different_tasks_env _ = unreachable

unfoldable pub get_slots : Multitasking → Result (List (Option SubtaskEnv))
get_slots m = do env ← get_different_tasks_env m; ok env.participants

unfoldable pub get_slot_env : Multitasking → ℕ → Result (Option SubtaskEnv)
unfolding get_slots
get_slot_env m slot = do slots ← get_slots m; index slots slot

unfoldable pub are_all_slots_taken : Multitasking → Result Bool
unfolding get_slots
are_all_slots_taken m = do slots ← get_slots m; ok (all is_some slots)

unfoldable pub are_all_slots_available : Multitasking → Result Bool
unfolding get_slots
are_all_slots_available m = do slots ← get_slots m; ok (all is_none slots)

-- `except` is the claimant whose slot does not count.
abbrev pub is_excepted : Option Claimant → SubtaskEnv → Bool
is_excepted none env = false
is_excepted (some (account, number)) env =
    env.participant == account && option_eq env.claim_number number

abbrev pub is_slot_complete : Option Claimant → Option SubtaskEnv → Bool
is_slot_complete except none = false
is_slot_complete except (some env) = env.completed || is_excepted except env

unfoldable pub are_all_slots_complete : Multitasking → Option Claimant → Result Bool
unfolding get_slots
are_all_slots_complete m except = do slots ← get_slots m; ok (all (is_slot_complete except) slots)

abbrev pub is_slot_confirmed : Option SubtaskEnv → Bool
is_slot_confirmed none = false
is_slot_confirmed (some env) = env.confirmed

unfoldable pub are_all_slots_confirmed : Multitasking → Result Bool
unfolding get_slots
are_all_slots_confirmed m = do slots ← get_slots m; ok (all is_slot_confirmed slots)

abbrev period_is_open : Context → ℕ → ContestOrHackathonEnv → Result Bool
period_is_open ctx p env = do
  started_at ← unwrap env.started_at
  elapsed ← sub ctx.block_timestamp started_at
  ok (ltb elapsed p)

abbrev contest_is_open : Context → Option DateOrPeriod → Option ContestOrHackathonEnv → Result Bool
contest_is_open ctx none runtime_env = ok true
contest_is_open ctx (some (DateOrPeriod.date d)) runtime_env = ok (ltb ctx.block_timestamp d)
contest_is_open ctx (some (DateOrPeriod.period p)) runtime_env = do
  env ← unwrap runtime_env
  if is_some env.started_at && is_none env.finished_at then period_is_open ctx p env else ok true

unfoldable pub is_allowed_to_create_or_approve_claims :
    Context → Multitasking → Option ℕ → Result Bool
is_allowed_to_create_or_approve_claims ctx (contest_or_hackathon allowed _ _ _ runtime_env) slot =
    contest_is_open ctx allowed runtime_env
is_allowed_to_create_or_approve_claims ctx (one_for_all number_of_slots _ _ runtime_env) slot = do
  env ← unwrap runtime_env
  used ← add u16_bound env.occupied_slots env.paid_slots
  ok (ltb used number_of_slots)
is_allowed_to_create_or_approve_claims ctx (different_tasks _ runtime_env) slot = do
  env ← unwrap runtime_env
  s ← unwrap slot
  participant ← index env.participants s
  ok (is_none participant)
is_allowed_to_create_or_approve_claims ctx _ slot = unreachable

-- `some started_at` starts the competition, `none` finishes it.
unfoldable pub set_competition_timestamp : Context → Multitasking → Option ℕ → Result Multitasking
set_competition_timestamp ctx (contest_or_hackathon allowed successful start places runtime_env)
      started_at =
    do
      env ← unwrap runtime_env
      ok (
          contest_or_hackathon allowed successful start places (
            some (record env {
              finished_at = if is_none started_at then some ctx.block_timestamp else none;
              started_at = if is_some started_at then started_at else env.started_at;
            })))
set_competition_timestamp ctx _ started_at = unreachable

unfoldable pub set_competition_participants : Multitasking → ℕ → Result Multitasking
set_competition_participants (contest_or_hackathon allowed successful start places runtime_env)
      participants =
    do
      env ← unwrap runtime_env
      ok (
          contest_or_hackathon allowed successful start places
            (some (record env { participants = participants })))
set_competition_participants _ participants = unreachable

unfoldable pub set_competition_winner : Multitasking → ℕ → Claimant → Result Multitasking
set_competition_winner (contest_or_hackathon allowed successful start places runtime_env) place
      winner =
    do
      env ← unwrap runtime_env
      assert (ltb place (length env.competition_winners)) "There are not so many prize places"
      old ← index env.competition_winners place
      assert (is_none old) "There is already a winner for this prize place"
      winners ← set_index env.competition_winners place (some winner)
      ok (
          contest_or_hackathon allowed successful start places
            (some (record env { competition_winners = winners })))
set_competition_winner _ place winner = unreachable

unfoldable pub set_one_for_all_env : Multitasking → ℕ → ℕ → Result Multitasking
set_one_for_all_env (one_for_all number_of_slots amount_per_slot min_slots _) occupied paid = ok (
    one_for_all number_of_slots amount_per_slot min_slots
      (some (record { occupied_slots = occupied; paid_slots = paid })))
set_one_for_all_env _ occupied paid = unreachable

unfoldable pub set_slot_env : Multitasking → ℕ → Option SubtaskEnv → Result Multitasking
set_slot_env (different_tasks subtasks runtime_env) slot slot_env = do
  env ← unwrap runtime_env
  participants ← set_index env.participants slot slot_env
  ok (different_tasks subtasks (some (record env { participants = participants })))
set_slot_env _ slot slot_env = unreachable

unfoldable pub set_bounty_payout_proposal_id : Multitasking → Option ℕ → Result Multitasking
set_bounty_payout_proposal_id (different_tasks subtasks runtime_env) proposal_id = do
  env ← unwrap runtime_env
  ok (different_tasks subtasks (some (record env { bounty_payout_proposal_id = proposal_id })))
set_bounty_payout_proposal_id _ proposal_id = unreachable
