-- ===== src/Leaderboard/Tests.antt =====
-- Runs of the leaderboard, and its theorems at concrete inputs.
use mindmint_contracts.Base.{ℕ, ◌≡◌, ◌≢◌, refl, false, some, [], ◌∷◌, take, arith, ◌==◌}
use mindmint_contracts.Base.Int.{ℤ, pos, ◌+ℤ◌}
use mindmint_contracts.Base.Map.{nat_key, pair_key, triple_key, lookup, insert}
use mindmint_contracts.Host.Call.{Address, Env, ok}
use mindmint_contracts.Host.Num.{fits_i128, fits_u32}
use mindmint_contracts.Leaderboard
use mindmint_contracts.Leaderboard.{
  Error, TimePeriod, LeaderboardConfig, PlayerScore, Storage, initialize, get_current_period_id,
}
use mindmint_contracts.Leaderboard.Tops.{
  list_key, others, rank, finish, top_scores_of, update_top_scores_list, get_top_players,
  get_player_rank, rank_from,
}
use mindmint_contracts.Leaderboard.Scores.{
  add_score, update_period_score, count_player, submit_score,
}
use mindmint_contracts.Leaderboard.Order.{IsRanked}
use mindmint_contracts.Leaderboard.Reference.{insert_score, update_top_scores_list_reference}
use mindmint_contracts.Leaderboard.Reach.{Reach, start, next, reached_sorted}
use mindmint_contracts.Leaderboard.Entry.{Request, serve}

-- The admin is 9, the players 1 and 2, and the list has room for two entries.
abbrev call_at : ℕ → Env
call_at now = record { timestamp = now; current_contract = 7; has_auth = λ a. a == 9 }

abbrev config : LeaderboardConfig
config = record {
  admin = 9;
  max_top_entries = 2;
  daily_period_length = 86400;
  weekly_period_length = 604800;
  paused = false;
}

abbrev entry : Address → ℤ → ℕ → TimePeriod → PlayerScore
entry p x now period = record {
  player = p;
  score = x;
  timestamp = now;
  period = period;
  period_id = 0;
}

abbrev opened : Storage
opened = record Leaderboard.empty { config = some config; total_players = some 0 }

abbrev scored : Storage
scored = record {
  config = some config;
  player_scores =
      ((1, 0, 0), entry 1 (pos 50) 100 TimePeriod.daily)
      ∷ ((1, 1, 0), entry 1 (pos 50) 100 TimePeriod.weekly)
      ∷ ((1, 2, 0), entry 1 (pos 50) 100 TimePeriod.all_time)
      ∷ [];
  top_scores =
      ((0, 0), entry 1 (pos 50) 100 TimePeriod.daily ∷ [])
      ∷ ((1, 0), entry 1 (pos 50) 100 TimePeriod.weekly ∷ [])
      ∷ ((2, 0), entry 1 (pos 50) 100 TimePeriod.all_time ∷ [])
      ∷ [];
  player_all_time_scores = (1, pos 50) ∷ [];
  total_players = some 1;
  high_scores = (0, pos 50) ∷ (1, pos 50) ∷ (2, pos 50) ∷ [];
  verifiers = [];
}

abbrev corrected : Storage
corrected = record scored {
  player_scores =
      ((1, 0, 0), entry 1 (pos 50) 100 TimePeriod.daily)
      ∷ ((1, 1, 0), entry 1 (pos 50) 100 TimePeriod.weekly)
      ∷ ((1, 2, 0), entry 1 (pos 50) 100 TimePeriod.all_time)
      ∷ ((2, 0, 0), entry 2 (pos 80) 200 TimePeriod.daily)
      ∷ [];
  top_scores =
      ((0, 0), entry 2 (pos 80) 200 TimePeriod.daily ∷ entry 1 (pos 50) 100 TimePeriod.daily ∷ [])
      ∷ ((1, 0), entry 1 (pos 50) 100 TimePeriod.weekly ∷ [])
      ∷ ((2, 0), entry 1 (pos 50) 100 TimePeriod.all_time ∷ [])
      ∷ [];
}

initialize_run : serve (call_at 50) (Request.initialize 9 2) Leaderboard.empty ≡ ok opened
unfolding serve initialize
initialize_run = refl

submit_run : serve (call_at 100) (Request.submit_score 9 1 (pos 50)) opened ≡ ok scored
unfolding serve submit_score update_period_score add_score update_top_scores_list others rank
    count_player lookup insert fits_i128 fits_u32 ◌+ℤ◌
submit_run = refl

update_run :
    serve (call_at 200) (Request.update_score 9 2 (pos 80) TimePeriod.daily) scored ≡ ok corrected
unfolding serve Leaderboard.Scores.update_score get_current_period_id update_top_scores_list others
    rank lookup insert
update_run = refl

rank_run : get_player_rank (call_at 200) 1 TimePeriod.daily corrected ≡ ok 2
unfolding get_player_rank get_current_period_id rank_from lookup
rank_run = refl

top_run :
    get_top_players (call_at 200) TimePeriod.daily 1 corrected
    ≡ ok (entry 2 (pos 80) 200 TimePeriod.daily ∷ [])
unfolding get_top_players get_current_period_id lookup
top_run = refl

-- With the maximum lowered to 1 a list of two entries takes the new one in and keeps another.
lowered_run :
    finish 1 (entry 3 (pos 60) 300 TimePeriod.daily) (
      rank 1
        (entry 3 (pos 60) 300 TimePeriod.daily)
        false
        []
        (top_scores_of corrected TimePeriod.daily 0))
    ≡ entry 2 (pos 80) 200 TimePeriod.daily ∷ entry 3 (pos 60) 300 TimePeriod.daily ∷ []
unfolding rank lookup
lowered_run = refl

reached : Reach corrected
reached =
    next (call_at 200) (Request.update_score 9 2 (pos 80) TimePeriod.daily)
      (next (call_at 100) (Request.submit_score 9 1 (pos 50))
        (next (call_at 50) (Request.initialize 9 2) start initialize_run) submit_run)
      update_run

reached_sorted_example :
    IsRanked (entry 2 (pos 80) 200 TimePeriod.daily ∷ entry 1 (pos 50) 100 TimePeriod.daily ∷ [])
unfolding lookup
reached_sorted_example =
    reached_sorted (0, 0)
      (entry 2 (pos 80) 200 TimePeriod.daily ∷ entry 1 (pos 50) 100 TimePeriod.daily ∷ []) reached
      refl

update_top_scores_list_reference_example :
    (top_scores_of
        (update_top_scores_list config
          (entry 2 (pos 80) 200 TimePeriod.daily)
          TimePeriod.daily
          0
          scored)
        TimePeriod.daily
        0
      ≡ take 2 (
          insert_score
            (entry 2 (pos 80) 200 TimePeriod.daily)
            (others 2 (top_scores_of scored TimePeriod.daily 0))))
    × ((other : TimePeriod) (other_id : ℕ)
        → list_key TimePeriod.daily 0 ≢ list_key other other_id
        → top_scores_of
            (update_top_scores_list config
              (entry 2 (pos 80) 200 TimePeriod.daily)
              TimePeriod.daily
              0
              scored)
            other
            other_id
          ≡ top_scores_of scored other other_id)
unfolding others lookup
update_top_scores_list_reference_example =
    update_top_scores_list_reference config (entry 2 (pos 80) 200 TimePeriod.daily) TimePeriod.daily
      0 scored (omega arith)
