-- ===== src/Near.antt =====
-- What a contract method reads from its environment, `near_sdk::env`. Account names are only
-- compared, so an account is a number.
use heroes_contracts.Prelude.{ℕ, ◌==◌, Result, assert}

abbrev pub AccountId : Type 0
AccountId = ℕ

pub record Context : Type 0 where
  pub predecessor : AccountId  -- `env::predecessor_account_id()`
  pub current_account : AccountId  -- `env::current_account_id()`
  pub block_timestamp : ℕ  -- `env::block_timestamp()`, u64
  pub attached_deposit : ℕ  -- `env::attached_deposit()`, u128

-- `assert_one_yocto()` of near_sdk: exactly one yoctoNEAR is attached.
abbrev pub assert_one_yocto : Context → Result (Unit {0})
assert_one_yocto ctx =
    assert (ctx.attached_deposit == 1) "Requires attached deposit of exactly 1 yoctoNEAR"
