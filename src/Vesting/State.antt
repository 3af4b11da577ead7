-- ===== src/Vesting/State.antt =====
-- The data of contracts/vesting_schedule/src/lib.rs.
use Prim.Native.String.{String}
use mindmint_contracts.Base.{ℕ, Option, none, List, [], Bool}
use mindmint_contracts.Base.Int.{ℤ}
use mindmint_contracts.Base.Map.{Map}
use mindmint_contracts.Host.Call.{Address, Result}

-- One constructor for each message that the contract panics with.
pub data Error : Type 0 where
  already_initialized contract_is_paused no_vesting_schedule_found : Error
  total_amount_must_be_positive vesting_duration_must_be_positive : Error
  cliff_duration_must_be_less vesting_duration_must_be_greater : Error
  schedule_has_been_revoked no_tokens_available schedule_is_not_revocable : Error
  schedule_already_revoked cannot_modify_revoked_schedule : Error
  modification_cannot_reduce_vested_amount already_paused already_unpaused : Error

abbrev pub Call : Type 0 → Type 0
Call A = Result Error A

pub record VestingSchedule : Type 0 where
  pub schedule_id : ℕ
  pub beneficiary : Address
  pub total_amount : ℤ
  pub released_amount : ℤ
  pub start_time : ℕ
  pub cliff_duration : ℕ
  pub vesting_duration : ℕ
  pub revocable : Bool
  pub revoked : Bool
  pub created_at : ℕ
  pub modified_at : Option ℕ

pub data EventType : Type 0 where
  schedule_created tokens_released schedule_revoked schedule_modified : EventType

pub record VestingEvent : Type 0 where
  pub event_type : EventType
  pub timestamp : ℕ
  pub amount : ℤ
  pub description : String

pub record VestingStatus : Type 0 where
  pub schedule_id : ℕ
  pub total_amount : ℤ
  pub vested_amount : ℤ
  pub released_amount : ℤ
  pub releasable_amount : ℤ
  pub cliff_end_time : ℕ
  pub vesting_end_time : ℕ
  pub is_revoked : Bool
  pub is_fully_vested : Bool

-- `DataKey`
pub record Storage : Type 0 where
  pub admin : Option Address
  pub token : Option Address
  pub paused : Option Bool
  pub schedules : Map ℕ VestingSchedule
  pub next_schedule_id : Option ℕ
  pub beneficiary_schedules : Map Address (List ℕ)
  pub vesting_history : Map ℕ VestingEvent

abbrev pub empty : Storage
empty = record {
  admin = none;
  token = none;
  paused = none;
  schedules = [];
  next_schedule_id = none;
  beneficiary_schedules = [];
  vesting_history = [];
}
