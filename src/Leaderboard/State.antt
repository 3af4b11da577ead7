-- ===== src/Leaderboard/State.antt =====
-- The data of contracts/leaderboard/src/lib.rs.
use mindmint_contracts.Base.{ℕ, Option, none, List, [], Bool}
use mindmint_contracts.Base.Int.{ℤ}
use mindmint_contracts.Base.Map.{Map}
use mindmint_contracts.Host.Call.{Address, Result}

-- One constructor for each message that the contract panics with.
pub data Error : Type 0 where
  already_initialized max_entries_must_be_positive score_must_be_nonnegative : Error
  admin_only contract_is_paused unauthorized_submitter : Error

abbrev pub Call : Type 0 → Type 0
Call A = Result Error A

pub data TimePeriod : Type 0 where
  daily weekly all_time : TimePeriod

-- `TimePeriod as u32`, by which the keys tell the periods apart.
abbrev pub discriminant : TimePeriod → ℕ
discriminant TimePeriod.daily = 0
discriminant TimePeriod.weekly = 1
discriminant TimePeriod.all_time = 2

pub record LeaderboardConfig : Type 0 where
  pub admin : Address
  pub max_top_entries : ℕ
  pub daily_period_length : ℕ
  pub weekly_period_length : ℕ
  pub paused : Bool

pub record PlayerScore : Type 0 where
  pub player : Address
  pub score : ℤ
  pub timestamp : ℕ
  pub period : TimePeriod
  pub period_id : ℕ

-- `DataKey`. A period in a key is its discriminant.
pub record Storage : Type 0 where
  pub config : Option LeaderboardConfig
  pub player_scores : Map (Address × ℕ × ℕ) PlayerScore
  pub top_scores : Map (ℕ × ℕ) (List PlayerScore)
  pub player_all_time_scores : Map Address ℤ
  pub total_players : Option ℕ
  pub high_scores : Map ℕ ℤ
  pub verifiers : Map Address Bool

abbrev pub empty : Storage
empty = record {
  config = none;
  player_scores = [];
  top_scores = [];
  player_all_time_scores = [];
  total_players = none;
  high_scores = [];
  verifiers = [];
}
