-- ===== src/Leaderboard/Tops.antt =====
-- The lists of top scores of contracts/leaderboard/src/lib.rs: `update_top_scores_list` and the views.
use mindmint_contracts.Base.{
  ℕ, ◌+◌, Bool, false, not, ◌&&◌, ◌||◌, List, [], ◌∷◌, ◌++◌, length, take, ltb, ◌==◌, if◌then◌else◌,
  get_or,
}
use mindmint_contracts.Base.Int.{ltb_ℤ}
use mindmint_contracts.Base.Map.{pair_key, lookup, insert}
use mindmint_contracts.Host.Call.{Address, Env, ok, ◌>>=◌, unwrap}
use mindmint_contracts.Leaderboard.{
  TimePeriod, discriminant, LeaderboardConfig, PlayerScore, Storage, Call, get_current_period_id,
}

-- The entries of all other players.
unfoldable pub others : Address → List PlayerScore → List PlayerScore
others player [] = []
others player (existing ∷ list) =
    let rest = others player list in if existing.player == player then rest else existing ∷ rest

-- The loop that inserts the new score, with what it has `inserted` and its `final_list` so far: an
-- entry is passed on while there is room.
unfoldable pub rank :
    ℕ → PlayerScore → Bool → List PlayerScore → List PlayerScore → Bool × List PlayerScore
rank max new inserted final_list [] = (inserted, final_list)
rank max new inserted final_list (existing ∷ list) =
    let here = not inserted && ltb_ℤ existing.score new.score in
    let final1 = if here then final_list ++ new ∷ [] else final_list in
    let final2 = if ltb (length final1) max then final1 ++ existing ∷ [] else final1 in
    rank max new (inserted || here) final2 list

-- A score that was not inserted comes last, if there is room.
abbrev pub finish : ℕ → PlayerScore → Bool × List PlayerScore → List PlayerScore
finish max new (inserted, final_list) =
    if not inserted && ltb (length final_list) max then final_list ++ new ∷ [] else final_list

-- The key of a period's list.
abbrev pub list_key : TimePeriod → ℕ → ℕ × ℕ
list_key period period_id = (discriminant period, period_id)

abbrev pub top_scores_of : Storage → TimePeriod → ℕ → List PlayerScore
top_scores_of s period period_id = get_or (lookup (list_key period period_id) s.top_scores) []

unfoldable pub update_top_scores_list :
    LeaderboardConfig → PlayerScore → TimePeriod → ℕ → Storage → Storage
update_top_scores_list config new period period_id s =
    let new_list = others new.player (top_scores_of s period period_id) in
    let final_list =
      finish config.max_top_entries new (rank config.max_top_entries new false [] new_list) in
    record s { top_scores = insert (list_key period period_id) final_list s.top_scores }

-- The first `limit` entries, but at most as many as the configuration says.
unfoldable pub get_top_players : Env → TimePeriod → ℕ → Storage → Call (List PlayerScore)
get_top_players e period limit s = do
  config ← unwrap s.config
  period_id ← get_current_period_id config period e.timestamp
  let actual_limit = if ltb config.max_top_entries limit then config.max_top_entries else limit
  ok (take actual_limit (top_scores_of s period period_id))

-- The place of a player in a list, counted from `place`, and 0 for a player that is not in it.
unfoldable pub rank_from : Address → ℕ → List PlayerScore → ℕ
rank_from player place [] = 0
rank_from player place (existing ∷ list) =
    let rest = rank_from player (place + 1) list in
    if existing.player == player then place else rest

unfoldable pub get_player_rank : Env → Address → TimePeriod → Storage → Call ℕ
get_player_rank e player period s = do
  config ← unwrap s.config
  period_id ← get_current_period_id config period e.timestamp
  ok (rank_from player 1 (top_scores_of s period period_id))
