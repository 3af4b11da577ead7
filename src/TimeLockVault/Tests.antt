-- ===== src/TimeLockVault/Tests.antt =====
-- Runs of the time lock vault, and its theorems at concrete inputs.
use mindmint_contracts.Base.{
  ℕ, ◌≡◌, ◌≢◌, ◌⊎◌, ◌≤◌, refl, Bool, true, false, some, [], ◌∷◌, if◌then◌else◌, arith, ◌==◌, ◌&&◌,
}
use mindmint_contracts.Base.Int.{ℤ, pos, ◌+ℤ◌, ◌-ℤ◌, ◌≤ℤ◌}
use mindmint_contracts.Base.Map.{pair_key, lookup, insert}
use mindmint_contracts.Host.Call.{Address, Env, ok, panic}
use mindmint_contracts.Host.Num.{fits_i128}
use mindmint_contracts.Host.Tokens.Ledger.{Balances, ledger, ledger-IsTokens, balance_of, move}
use mindmint_contracts.TimeLockVault
use mindmint_contracts.TimeLockVault.{
  Storage, initialize, deposit, withdraw, set_condition, vault_of, set_vault, later,
}
use mindmint_contracts.TimeLockVault.Custody.{locked}
use mindmint_contracts.TimeLockVault.Coverage.{Reach, start, next, reached_covered}
use mindmint_contracts.TimeLockVault.Entry.{Request, serve}
use mindmint_contracts.TimeLockVault.Release.{
  withdraw_effect, deposit_extends_lock, met_vault_never_locks, condition_by_admin,
}

-- The contract is 7, its admin 9, the token 5; 1 locks for the beneficiary 2, and 3 is a stranger.
abbrev call_at : ℕ → Env
call_at now = record {
  timestamp = now;
  current_contract = 7;
  has_auth = λ a. if a == 7 then false else true;
}

abbrev world : Balances
world = ((5, 1), pos 500) ∷ ((5, 3), pos 10) ∷ []

abbrev opened : Storage
opened = record TimeLockVault.empty { admin = some 9 }

abbrev vaulted : ℤ → ℕ → Bool → Storage
vaulted x u met = record opened {
  vaults = ((2, 5), record { locked_amount = x; unlock_time = u; is_condition_met = met }) ∷ [];
}

abbrev world_locked : Balances
world_locked = ((5, 1), pos 100) ∷ ((5, 3), pos 10) ∷ ((5, 7), pos 400) ∷ []

abbrev world_relocked : Balances
world_relocked = ((5, 1), pos 100) ∷ ((5, 3), pos 9) ∷ ((5, 7), pos 401) ∷ []

abbrev world_released : Balances
world_released = ((5, 1), pos 100) ∷ ((5, 3), pos 10) ∷ ((5, 7), pos 0) ∷ ((5, 2), pos 400) ∷ []

abbrev world_all_released : Balances
world_all_released = ((5, 1), pos 100) ∷ ((5, 3), pos 9) ∷ ((5, 7), pos 0) ∷ ((5, 2), pos 401) ∷ []

initialize_run :
    serve ledger (call_at 50) (Request.initialize 9) (TimeLockVault.empty, world)
    ≡ ok (opened, world)
unfolding serve initialize
initialize_run = refl

deposit_run :
    serve ledger (call_at 100) (Request.deposit 1 5 (pos 400) 2 1000) (opened, world)
    ≡ ok (vaulted (pos 400) 1000 false, world_locked)
unfolding serve deposit move lookup insert fits_i128 ◌+ℤ◌ ◌-ℤ◌
deposit_run = refl

withdraw_run :
    withdraw ledger (call_at 1000) 2 5 (vaulted (pos 400) 1000 false, world_locked)
    ≡ ok (vaulted (pos 0) 1000 false, world_released)
unfolding withdraw move lookup insert ◌+ℤ◌ ◌-ℤ◌
withdraw_run = refl

early_withdraw_run :
    withdraw ledger (call_at 999) 2 5 (vaulted (pos 400) 1000 false, world_locked)
    ≡ panic TimeLockVault.Error.funds_locked
unfolding withdraw lookup
early_withdraw_run = refl

relock_run :
    (met : Bool)
    → deposit ledger (call_at 900) 3 5 (pos 1) 2 9000 (vaulted (pos 400) 1000 met, world_locked)
      ≡ ok (vaulted (pos 401) 9000 met, world_relocked)
unfolding deposit move lookup insert fits_i128 ◌+ℤ◌ ◌-ℤ◌
relock_run met = refl

set_condition_run :
    serve ledger
      (call_at 200)
      (Request.set_condition 2 5 true)
      (vaulted (pos 400) 1000 false, world_locked)
    ≡ ok (vaulted (pos 400) 1000 true, world_locked)
unfolding serve set_condition lookup insert
set_condition_run = refl

pay_run : move world_relocked 5 7 2 (pos 400 +ℤ pos 1) ≡ some world_all_released
unfolding move lookup insert ◌+ℤ◌ ◌-ℤ◌
pay_run = refl

withdraw_effect_example :
    (true ≡ true)
    × (pos 1 ≤ℤ pos 400)
    × (1000 ≤ 1000 ⊎ false ≡ true)
    × (move world_locked 5 7 2 (pos 400) ≡ some world_released)
    × ((b' d' : Address)
        → (vault_of (vaulted (pos 0) 1000 false) b' d').locked_amount ≡ (
            if 2 == b' && 5 == d'
            then pos 0
            else (vault_of (vaulted (pos 400) 1000 false) b' d').locked_amount))
unfolding lookup
withdraw_effect_example =
    withdraw_effect ledger (call_at 1000) 2 5 (vaulted (pos 400) 1000 false) world_locked
      (vaulted (pos 0) 1000 false) world_released withdraw_run

deposit_extends_lock_example :
    withdraw ledger (call_at 1500) 2 5 (vaulted (pos 401) 9000 false, world_relocked)
    ≢ ok (vaulted (pos 0) 9000 false, world_all_released)
unfolding lookup
deposit_extends_lock_example =
    deposit_extends_lock ledger (call_at 900) (call_at 1500) 3 5 (pos 1) 2 9000
      (vaulted (pos 400) 1000 false) world_locked (vaulted (pos 401) 9000 false) world_relocked
      world_relocked (vaulted (pos 0) 9000 false, world_all_released) (relock_run false) refl
      (omega arith)

met_vault_never_locks_example :
    withdraw ledger (call_at 901) 2 5 (vaulted (pos 401) 9000 true, world_relocked)
    ≡ ok (vaulted (pos 0) 9000 true, world_all_released)
unfolding lookup insert
met_vault_never_locks_example =
    met_vault_never_locks ledger (call_at 900) (call_at 901) 3 5 (pos 1) 2 9000
      (vaulted (pos 400) 1000 true) world_locked (vaulted (pos 401) 9000 true) world_relocked
      world_all_released (relock_run true) refl (omega arith) refl pay_run

condition_by_admin_example : (a : Address) × (some 9 ≡ some a) × ((call_at 200).has_auth a ≡ true)
unfolding lookup
condition_by_admin_example =
    condition_by_admin ledger (call_at 200) (Request.set_condition 2 5 true)
      (vaulted (pos 400) 1000 false) world_locked (vaulted (pos 400) 1000 true) world_locked 2 5
      set_condition_run refl refl

start_nonneg : (d : Address) → pos 0 ≤ℤ balance_of world d 7
unfolding balance_of lookup
start_nonneg d = ground arith

reached : Reach ledger 7 (vaulted (pos 400) 1000 false, world_locked)
reached =
    next (call_at 100) (Request.deposit 1 5 (pos 400) 2 1000)
      (next (call_at 50) (Request.initialize 9) (start world start_nonneg) refl refl initialize_run)
      refl refl deposit_run

reached_covered_example : locked (vaulted (pos 400) 1000 false) 5 ≤ℤ balance_of world_locked 5 7
reached_covered_example = reached_covered ledger 7 ledger-IsTokens reached 5
