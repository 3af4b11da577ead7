-- ===== src/FlashLoan.antt =====
-- Flash loan pools (contracts/flash_loan/src/lib.rs), entry point by entry point. A call takes the
-- storage, and those that move tokens also take the world of token contracts.
mod State
pub mod Pools
pub use State.*
use mindmint_contracts.Base.{
  ℕ, Bool, true, false, not, ◌&&◌, ◌||◌, Option, none, some, List, [], ◌∷◌, ◌++◌, ltb, ◌==◌,
  if◌then◌else◌, get_or, is_some, contains,
}
use mindmint_contracts.Base.Int.{ℤ, pos, ltb_ℤ, leb_ℤ, eqb_ℤ}
use mindmint_contracts.Base.Map.{nat_key, pair_key, lookup, insert, remove}
use mindmint_contracts.Host.Call.{
  Address, Env, Result, ok, trap, panic, ◌>>=◌, ◌>>◌, panic_if, require_auth, unwrap, expect,
  invoke,
}
use mindmint_contracts.Host.Num.{add_i128, sub_i128, mul_i128, div_i128, add_u64, fits_i128}
use mindmint_contracts.Host.Tokens.{Tokens}

abbrev pub Call : Type 0 → Type 0
Call A = Result Error A

abbrev pub basis_points : ℤ
basis_points = pos 10_000

abbrev pub min_fee_bps : ℕ
min_fee_bps = 10

abbrev pub max_fee_bps : ℕ
max_fee_bps = 30

abbrev no_analytics : FlashLoanAnalytics
no_analytics = record {
  total_loans = 0;
  total_volume_borrowed = pos 0;
  total_fees_collected = pos 0;
  total_repaid = pos 0;
  defaulted_loans = 0;
  unique_borrowers = 0;
}

abbrev fee_refused : ℕ → Bool
fee_refused fee_bps = ltb fee_bps min_fee_bps || ltb max_fee_bps fee_bps

pub initialize : Env → Address → ℕ → Storage → Call Storage
initialize e admin fee_bps s = do
  require_auth e admin
  panic_if (is_some s.config) already_initialized
  panic_if (fee_refused fee_bps) fee_out_of_range
  ok (record s {
    config =
        some (record { admin = admin; fee_bps = fee_bps; max_loan_ratio = 8000; paused = false });
    analytics = some no_analytics;
    flash_loan_counter = some 0;
    pool_list = some [];
    paused = some false;
    is_processing = some false;
  })

pub assert_admin : Storage → Address → Call (Unit {0})
assert_admin s user = do config ← unwrap s.config; panic_if (not (config.admin == user)) admin_only

pub assert_not_paused : Storage → Call (Unit {0})
assert_not_paused s = do config ← unwrap s.config; panic_if config.paused contract_paused

pub assert_not_reentrant : Storage → Call (Unit {0})
assert_not_reentrant s = panic_if (get_or s.is_processing false) reentrant_call

pub set_reentrancy_guard : Bool → Storage → Storage
set_reentrancy_guard value s = record s { is_processing = some value }

abbrev new_pool : Address → LiquidityPool
new_pool token = record {
  token = token;
  total_liquidity = pos 0;
  available_liquidity = pos 0;
  total_borrowed = pos 0;
  fees_collected = pos 0;
  lenders = [];
}

-- The pool, and the storage with a new one on the list.
pub get_or_create_pool : Address → Storage → LiquidityPool × Storage
get_or_create_pool token s = elim (lookup token s.pools) [
  | some pool ↦ (pool, s)
  | none ↦
      let pools : List Address = get_or s.pool_list [] in
      if contains pools token
      then (new_pool token, s)
      else (new_pool token, record s { pool_list = some (pools ++ (token ∷ [])) })
]

-- `if !pool.lenders.contains(&lender) { push_back }`
abbrev pub with_lender : Address → List Address → List Address
with_lender lender lenders = if contains lenders lender then lenders else lenders ++ (lender ∷ [])

pub update_analytics : ℤ → ℤ → Bool → Storage → Call Storage
update_analytics amount fee was_repaid s = do
  a ← unwrap s.analytics
  loans ← add_u64 a.total_loans 1
  volume ← add_i128 a.total_volume_borrowed amount
  fees ← add_i128 a.total_fees_collected fee
  let a1 = record a {
    total_loans = loans;
    total_volume_borrowed = volume;
    total_fees_collected = fees;
  }
  a2 ←
      if was_repaid
      then (do
        back ← add_i128 amount fee
        all ← add_i128 a1.total_repaid back
        ok (record a1 { total_repaid = all }))
      else (do n ← add_u64 a1.defaulted_loans 1; ok (record a1 { defaulted_loans = n }))
  ok (record s { analytics = some a2 })

abbrev set_config : FlashLoanConfig → Storage → Storage
set_config config s = record s { config = some config }

pub set_fee_bps : Env → Address → ℕ → Storage → Call Storage
set_fee_bps e admin fee_bps s = do
  require_auth e admin
  assert_admin s admin
  panic_if (fee_refused fee_bps) fee_out_of_range
  config ← unwrap s.config
  ok (set_config (record config { fee_bps = fee_bps }) s)

pub set_max_loan_ratio : Env → Address → ℕ → Storage → Call Storage
set_max_loan_ratio e admin ratio s = do
  require_auth e admin
  assert_admin s admin
  panic_if (ratio == 0 || ltb 10_000 ratio) ratio_out_of_range
  config ← unwrap s.config
  ok (set_config (record config { max_loan_ratio = ratio }) s)

abbrev set_paused : Bool → Env → Address → Storage → Call Storage
set_paused value e admin s = do
  require_auth e admin
  assert_admin s admin
  config ← unwrap s.config
  ok (record (set_config (record config { paused = value }) s) { paused = some value })

pub pause : Env → Address → Storage → Call Storage
pause e admin s = set_paused true e admin s

pub unpause : Env → Address → Storage → Call Storage
unpause e admin s = set_paused false e admin s

pub calculate_fee : Storage → ℤ → Call ℤ
calculate_fee s amount = do
  config ← unwrap s.config
  scaled ← mul_i128 amount (pos config.fee_bps)
  div_i128 scaled basis_points
