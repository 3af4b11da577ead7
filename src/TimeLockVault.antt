-- ===== src/TimeLockVault.antt =====
-- The time lock vault (contracts/timelock_vault/src/lib.rs), entry point by entry point.
pub mod Custody
pub mod Entry
pub mod Coverage
pub mod Release
pub mod Tests
use mindmint_contracts.Base.{
  ℕ, Bool, true, false, not, ◌&&◌, Option, none, [], ltb, if◌then◌else◌, get_or, is_some,
}
use mindmint_contracts.Base.Int.{ℤ, pos, leb_ℤ}
use mindmint_contracts.Base.Map.{Map, pair_key, lookup, insert}
use mindmint_contracts.Host.Call.{
  Address, Env, Result, ok, ◌>>=◌, ◌>>◌, panic_if, require_auth, expect, invoke,
}
use mindmint_contracts.Host.Num.{add_i128}
use mindmint_contracts.Host.Tokens.{Tokens}

pub record VaultStatus : Type 0 where
  pub locked_amount : ℤ
  pub unlock_time : ℕ
  pub is_condition_met : Bool

-- `DataKey`: a vault is keyed by its beneficiary and its token.
pub record Storage : Type 0 where
  pub admin : Option Address
  pub vaults : Map (Address × Address) VaultStatus

abbrev pub empty : Storage
empty = record { admin = none; vaults = [] }

-- The messages of the contract's panics.
pub data Error : Type 0 where
  already_initialized amount_not_positive vault_not_found no_locked_amount : Error
  funds_locked not_initialized : Error

abbrev pub Call : Type 0 → Type 0
Call A = Result Error A

abbrev pub no_deposit : VaultStatus
no_deposit = record { locked_amount = pos 0; unlock_time = 0; is_condition_met = false }

abbrev pub vault_of : Storage → Address → Address → VaultStatus
vault_of s beneficiary token = get_or (lookup (beneficiary, token) s.vaults) no_deposit

abbrev pub set_vault : Address → Address → VaultStatus → Storage → Storage
set_vault beneficiary token v s = record s { vaults = insert (beneficiary, token) v s.vaults }

pub initialize : Address → Storage → Call Storage
initialize admin s = do
  panic_if (is_some s.admin) Error.already_initialized
  ok (record s { admin = Option.some admin })

-- `if unlock_time > status.unlock_time { status.unlock_time = unlock_time }`
abbrev pub later : ℕ → ℕ → ℕ
later unlock_time old = if ltb old unlock_time then unlock_time else old

module _ {W : Type 0} (t : Tokens W) where
  pub deposit : Env → Address → Address → ℤ → Address → ℕ → Storage × W → Call (Storage × W)
  deposit e from token amount beneficiary unlock_time (s, w) = do
    require_auth e from
    panic_if (leb_ℤ amount (pos 0)) Error.amount_not_positive
    w1 ← invoke (t.transfer w token from e.current_contract amount)
    let status = vault_of s beneficiary token
    locked ← add_i128 status.locked_amount amount
    let status1 = record status {
      locked_amount = locked;
      unlock_time = later unlock_time status.unlock_time;
    }
    ok (set_vault beneficiary token status1 s, w1)

  pub withdraw : Env → Address → Address → Storage × W → Call (Storage × W)
  withdraw e beneficiary token (s, w) = do
    require_auth e beneficiary
    status ← expect (lookup (beneficiary, token) s.vaults) Error.vault_not_found
    panic_if (leb_ℤ status.locked_amount (pos 0)) Error.no_locked_amount
    panic_if (ltb e.timestamp status.unlock_time && not status.is_condition_met) Error.funds_locked
    let s1 = set_vault beneficiary token (record status { locked_amount = pos 0 }) s
    w1 ← invoke (t.transfer w token e.current_contract beneficiary status.locked_amount)
    ok (s1, w1)

pub set_condition : Env → Address → Address → Bool → Storage → Call Storage
set_condition e beneficiary token met s = do
  admin ← expect s.admin Error.not_initialized
  require_auth e admin
  status ← expect (lookup (beneficiary, token) s.vaults) Error.vault_not_found
  ok (set_vault beneficiary token (record status { is_condition_met = met }) s)

pub emergency_unlock : Env → Address → Address → Storage → Call Storage
emergency_unlock e beneficiary token s = do
  admin ← expect s.admin Error.not_initialized
  require_auth e admin
  status ← expect (lookup (beneficiary, token) s.vaults) Error.vault_not_found
  ok (set_vault beneficiary token (record status { is_condition_met = true }) s)

pub query_status : Address → Address → Storage → Call VaultStatus
query_status beneficiary token s =
    expect (lookup (beneficiary, token) s.vaults) Error.vault_not_found
