-- ===== src/RewardToken/State.antt =====
-- The storage of the reward token (contracts/reward_token/src/lib.rs): `DataKey`, entry by entry,
-- its failures, and the burn controller that it calls.
use Prim.Native.String.{String}
use mindmint_contracts.Base.{ℕ, Bool, Option, none, some, [], get_or}
use mindmint_contracts.Base.Int.{ℤ, pos}
use mindmint_contracts.Base.Map.{Map, nat_key, pair_key, lookup, insert}
use mindmint_contracts.Host.Call.{Address}

-- `Balance(Address)`, `Allowance(owner, spender)` and `AuthorizedMinters(Address)` are maps; every
-- other key has one entry, which may be missing.
pub record Storage : Type 0 where
  pub balances : Map Address ℤ
  pub supply : Option ℤ
  pub admin : Option Address
  pub allowances : Map (Address × Address) ℤ
  pub authorized_minters : Map Address Bool
  pub token_name : Option String
  pub token_symbol : Option String
  pub token_decimals : Option ℕ
  pub burn_controller : Option Address

-- A contract with nothing stored yet.
abbrev pub empty : Storage
empty = record {
  balances = [];
  supply = none;
  admin = none;
  allowances = [];
  authorized_minters = [];
  token_name = none;
  token_symbol = none;
  token_decimals = none;
  burn_controller = none;
}

-- The messages of the contract's panics.
pub data Error : Type 0 where
  already_initialized amount_must_be_positive not_authorized length_mismatch : Error
  insufficient_balance amount_negative insufficient_allowance : Error
  insufficient_balance_to_spend insufficient_balance_to_burn : Error

pub record BurnConfigLocal : Type 0 where
  pub admin : Address
  pub reward_token : Address
  pub burn_rate : ℕ
  pub enabled : Bool

-- The contract behind `burn_controller`, over its own state `C`. A call that fails has no result.
pub record Controller (C : Type 0) : Type 0 where
  pub get_config : C → Address → Option BurnConfigLocal
  pub record_burn : C → Address → ℤ → Address → String → Option C

abbrev pub balance : Storage → Address → ℤ
balance s a = get_or (lookup a s.balances) (pos 0)

abbrev pub set_balance : Storage → Address → ℤ → Storage
set_balance s a v = record s { balances = insert a v s.balances }

abbrev pub allowance : Storage → Address → Address → ℤ
allowance s owner spender = get_or (lookup (owner, spender) s.allowances) (pos 0)

abbrev pub total_supply : Storage → ℤ
total_supply s = get_or s.supply (pos 0)

abbrev pub set_supply : Storage → ℤ → Storage
set_supply s v = record s { supply = some v }
