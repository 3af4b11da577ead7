-- ===== src/Leaderboard/Entry.antt =====
-- The entry points of contracts/leaderboard/src/lib.rs that change the storage, as one type of
-- requests and one function that serves them.
use mindmint_contracts.Base.{ℕ, Bool}
use mindmint_contracts.Base.Int.{ℤ}
use mindmint_contracts.Host.Call.{Address, Env}
use mindmint_contracts.Leaderboard
use mindmint_contracts.Leaderboard.{TimePeriod, Storage, Call}
use mindmint_contracts.Leaderboard.Scores

pub data Request : Type 0 where
  initialize : Address → ℕ → Request
  add_verifier remove_verifier : Address → Address → Request
  set_paused : Address → Bool → Request
  update_period_lengths : Address → ℕ → ℕ → Request
  update_max_entries : Address → ℕ → Request
  submit_score : Address → Address → ℤ → Request
  update_score : Address → Address → ℤ → TimePeriod → Request

unfoldable pub serve : Env → Request → Storage → Call Storage
serve e (initialize a max) s = Leaderboard.initialize e a max s
serve e (add_verifier a v) s = Leaderboard.add_verifier e a v s
serve e (remove_verifier a v) s = Leaderboard.remove_verifier e a v s
serve e (set_paused a p) s = Leaderboard.set_paused e a p s
serve e (update_period_lengths a daily_length weekly_length) s =
    Leaderboard.update_period_lengths e a daily_length weekly_length s
serve e (update_max_entries a max) s = Leaderboard.update_max_entries e a max s
serve e (submit_score a p x) s = Scores.submit_score e a p x s
serve e (update_score a p x period) s = Scores.update_score e a p x period s
