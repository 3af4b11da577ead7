-- ===== src/Leaderboard.antt =====
-- The leaderboard of contracts/leaderboard/src/lib.rs: the data (State), its administration and the
-- helpers; the lists of top scores (Tops) and the scores themselves (Scores) are in the children.
mod State
pub mod Tops
pub mod Scores
pub mod Entry
pub mod Steps
pub mod Reference
pub mod Order
pub mod Reach
mod Tests
pub use State.*
use mindmint_contracts.Base.{
  ℕ, Bool, true, false, not, Option, some, ◌==◌, if◌then◌else◌, get_or, is_some,
}
use mindmint_contracts.Base.Map.{nat_key, lookup, insert, remove}
use mindmint_contracts.Host.Call.{Address, Env, ok, ◌>>=◌, ◌>>◌, panic_if, require_auth, unwrap}
use mindmint_contracts.Host.Num.{div_u64}

unfoldable pub initialize : Env → Address → ℕ → Storage → Call Storage
initialize e admin max_top_entries s = do
  require_auth e admin
  panic_if (is_some s.config) Error.already_initialized
  let max_entries = if max_top_entries == 0 then 100 else max_top_entries
  ok (record s {
    config = some (record {
      admin = admin;
      max_top_entries = max_entries;
      daily_period_length = 86400;
      weekly_period_length = 604800;
      paused = false;
    });
    total_players = some 0;
  })

abbrev pub assert_admin : Storage → Address → Call (Unit {0})
assert_admin s user = do
  config ← unwrap s.config
  panic_if (not (config.admin == user)) Error.admin_only

abbrev pub assert_not_paused : Storage → Call (Unit {0})
assert_not_paused s = do config ← unwrap s.config; panic_if config.paused Error.contract_is_paused

abbrev pub is_verifier : Storage → Address → Bool
is_verifier s address = get_or (lookup address s.verifiers) false

abbrev pub assert_authorized_submitter : Storage → Address → Call (Unit {0})
assert_authorized_submitter s submitter = do
  config ← unwrap s.config
  if config.admin == submitter
      then ok tt
      else panic_if (not (is_verifier s submitter)) Error.unauthorized_submitter

unfoldable pub add_verifier : Env → Address → Address → Storage → Call Storage
add_verifier e admin verifier s = do
  require_auth e admin
  assert_admin s admin
  ok (record s { verifiers = insert verifier true s.verifiers })

unfoldable pub remove_verifier : Env → Address → Address → Storage → Call Storage
remove_verifier e admin verifier s = do
  require_auth e admin
  assert_admin s admin
  ok (record s { verifiers = remove verifier s.verifiers })

-- A change of the configuration that only the admin makes.
abbrev pub configure :
    Env → Address → (LeaderboardConfig → LeaderboardConfig) → Storage → Call Storage
configure e admin change s = do
  require_auth e admin
  assert_admin s admin
  config ← unwrap s.config
  ok (record s { config = some (change config) })

unfoldable pub set_paused : Env → Address → Bool → Storage → Call Storage
set_paused e admin paused s = configure e admin (λ c. record c { paused = paused }) s

unfoldable pub update_period_lengths : Env → Address → ℕ → ℕ → Storage → Call Storage
update_period_lengths e admin daily_length weekly_length s =
    configure e admin
      (λ c. record c { daily_period_length = daily_length; weekly_period_length = weekly_length }) s

unfoldable pub update_max_entries : Env → Address → ℕ → Storage → Call Storage
update_max_entries e admin max_top_entries s = do
  require_auth e admin
  assert_admin s admin
  panic_if (max_top_entries == 0) Error.max_entries_must_be_positive
  config ← unwrap s.config
  ok (record s { config = some (record config { max_top_entries = max_top_entries }) })

unfoldable pub get_current_period_id : LeaderboardConfig → TimePeriod → ℕ → Call ℕ
get_current_period_id config TimePeriod.daily now = div_u64 now config.daily_period_length
get_current_period_id config TimePeriod.weekly now = div_u64 now config.weekly_period_length
get_current_period_id config TimePeriod.all_time now = ok 0
