-- ===== src/Leaderboard/Scores.antt =====
-- The scores of contracts/leaderboard/src/lib.rs: their submission and correction, and the views.
use mindmint_contracts.Base.{ℕ, Bool, Option, none, some, if◌then◌else◌, get_or}
use mindmint_contracts.Base.Int.{ℤ, pos, ltb_ℤ, eqb_ℤ}
use mindmint_contracts.Base.Map.{nat_key, triple_key, lookup, insert}
use mindmint_contracts.Host.Call.{Address, Env, ok, ◌>>=◌, ◌>>◌, panic_if, require_auth, unwrap}
use mindmint_contracts.Host.Num.{add_i128, add_u32, div_u64}
use mindmint_contracts.Leaderboard.{
  Error, TimePeriod, discriminant, LeaderboardConfig, PlayerScore, Storage, Call, assert_admin,
  assert_not_paused, assert_authorized_submitter, get_current_period_id,
}
use mindmint_contracts.Leaderboard.Tops.{update_top_scores_list}

abbrev pub set_player_score : PlayerScore → Address → TimePeriod → ℕ → Storage → Storage
set_player_score new player period period_id s = record s {
  player_scores = insert (player, discriminant period, period_id) new s.player_scores;
}

abbrev pub get_high_score : Storage → TimePeriod → ℤ
get_high_score s period = get_or (lookup (discriminant period) s.high_scores) (pos 0)

-- The player's score of a period with `score` more.
unfoldable pub add_score : Address → ℤ → TimePeriod → ℕ → ℕ → Storage → Call PlayerScore
add_score player score period period_id now s =
    elim (lookup (player, discriminant period, period_id) s.player_scores) [
      | some existing ↦ do
        sum ← add_i128 existing.score score
        ok (record existing { score = sum; timestamp = now })
      | none ↦ ok (record {
        player = player;
        score = score;
        timestamp = now;
        period = period;
        period_id = period_id;
      })
    ]

unfoldable pub update_period_score :
    LeaderboardConfig → Address → ℤ → TimePeriod → ℕ → ℕ → Storage → Call Storage
update_period_score config player score period period_id now s = do
  new ← add_score player score period period_id now s
  let s1 = set_player_score new player period period_id s
  let s2 = update_top_scores_list config new period period_id s1
  if ltb_ℤ (get_high_score s2 period) new.score
      then ok (record s2 { high_scores = insert (discriminant period) new.score s2.high_scores })
      else ok s2

abbrev pub get_player_all_time_total : Storage → Address → ℤ
get_player_all_time_total s player = get_or (lookup player s.player_all_time_scores) (pos 0)

abbrev pub get_total_players : Storage → ℕ
get_total_players s = get_or s.total_players 0

-- A player whose total was 0 is counted as a new one.
unfoldable pub count_player : Bool → Storage → Call Storage
count_player is_new_player s =
    if is_new_player
    then (do total ← add_u32 (get_total_players s) 1; ok (record s { total_players = some total }))
    else ok s

unfoldable pub submit_score : Env → Address → Address → ℤ → Storage → Call Storage
submit_score e submitter player score s = do
  require_auth e submitter
  assert_not_paused s
  assert_authorized_submitter s submitter
  panic_if (ltb_ℤ score (pos 0)) Error.score_must_be_nonnegative
  config ← unwrap s.config
  daily_period_id ← div_u64 e.timestamp config.daily_period_length
  weekly_period_id ← div_u64 e.timestamp config.weekly_period_length
  s1 ← update_period_score config player score TimePeriod.daily daily_period_id e.timestamp s
  s2 ← update_period_score config player score TimePeriod.weekly weekly_period_id e.timestamp s1
  s3 ← update_period_score config player score TimePeriod.all_time 0 e.timestamp s2
  let current_all_time = get_player_all_time_total s3 player
  new_all_time ← add_i128 current_all_time score
  count_player (eqb_ℤ current_all_time (pos 0))
      (record s3 { player_all_time_scores = insert player new_all_time s3.player_all_time_scores })

unfoldable pub update_score : Env → Address → Address → ℤ → TimePeriod → Storage → Call Storage
update_score e admin player score period s = do
  require_auth e admin
  assert_admin s admin
  assert_not_paused s
  panic_if (ltb_ℤ score (pos 0)) Error.score_must_be_nonnegative
  config ← unwrap s.config
  period_id ← get_current_period_id config period e.timestamp
  let new : PlayerScore = record {
    player = player;
    score = score;
    timestamp = e.timestamp;
    period = period;
    period_id = period_id;
  }
  ok (
      update_top_scores_list config new period period_id
        (set_player_score new player period period_id s))

unfoldable pub get_player_score : Env → Address → TimePeriod → Storage → Call (Option PlayerScore)
get_player_score e player period s = do
  config ← unwrap s.config
  period_id ← get_current_period_id config period e.timestamp
  ok (lookup (player, discriminant period, period_id) s.player_scores)
