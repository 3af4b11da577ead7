-- ===== src/RewardToken.antt =====
-- The reward token (contracts/reward_token/src/lib.rs), entry point by entry point. A call takes
-- the storage, and those that reach the burn controller also take its state.
mod State
pub mod Balances
pub mod Fees
pub mod Transfers
pub mod Entry
pub mod Supply
pub mod Reach
pub mod Rights
pub mod Minting
pub mod Effects
mod Tests
pub use State.*
use Prim.Native.String.{String}
use mindmint_contracts.Base.{
  ℕ, Bool, true, false, not, ◌&&◌, ◌||◌, Option, none, some, List, [], ◌∷◌, ltb, ◌==◌,
  if◌then◌else◌, get_or, is_some, length,
}
use mindmint_contracts.Base.Int.{ℤ, pos, ltb_ℤ, leb_ℤ}
use mindmint_contracts.Base.Map.{nat_key, pair_key, lookup, insert, remove}
use mindmint_contracts.Host.Call.{
  Address, Env, Trap, Result, ok, trap, panic, ◌>>=◌, ◌>>◌, panic_if, require_auth, unwrap, invoke,
}
use mindmint_contracts.Host.Num.{add_i128, sub_i128, mul_i128, div_i128, fits_i128}

abbrev pub Call : Type 0 → Type 0
Call A = Result Error A

pub initialize : Address → String → String → ℕ → Storage → Call Storage
initialize admin name symbol decimals s = do
  panic_if (is_some s.admin) already_initialized
  ok (record s {
    admin = some admin;
    supply = some (pos 0);
    token_name = some name;
    token_symbol = some symbol;
    token_decimals = some decimals;
  })

name : Storage → String
name s = get_or s.token_name "Reward Token"

symbol_name : Storage → String
symbol_name s = get_or s.token_symbol "RWD"

decimals : Storage → ℕ
decimals s = get_or s.token_decimals 6

-- `let admin = ..unwrap(); admin.require_auth();`
pub require_admin : Env → Storage → Call (Unit {0})
require_admin e s = do admin ← unwrap s.admin; require_auth e admin

pub authorize_minter : Env → Address → Storage → Call Storage
unfolding require_admin
authorize_minter e minter s = do
  require_admin e s
  ok (record s { authorized_minters = insert minter true s.authorized_minters })

pub revoke_minter : Env → Address → Storage → Call Storage
unfolding require_admin
revoke_minter e minter s = do
  require_admin e s
  ok (record s { authorized_minters = remove minter s.authorized_minters })

pub is_authorized_minter : Address → Storage → Call Bool
is_authorized_minter minter s = do
  admin ← unwrap s.admin
  ok (minter == admin || get_or (lookup minter s.authorized_minters) false)

pub set_burn_controller : Env → Address → Storage → Call Storage
unfolding require_admin
set_burn_controller e controller s = do
  require_admin e s
  ok (record s { burn_controller = some controller })

-- The body that `mint` and the loop of `distribute_rewards` share: raise the balance, then the
-- supply.
pub credit : Address → ℤ → Storage → Call Storage
credit to amount s = do
  raised ← add_i128 (balance s to) amount
  let s1 = set_balance s to raised
  supply ← add_i128 (total_supply s1) amount
  ok (set_supply s1 supply)

pub mint : Env → Address → Address → ℤ → Storage → Call Storage
mint e minter to amount s = do
  panic_if (leb_ℤ amount (pos 0)) amount_must_be_positive
  require_auth e minter
  authorized ← is_authorized_minter minter s
  panic_if (not authorized) not_authorized
  credit to amount s

pub credit_if_positive : Address → ℤ → Storage → Call Storage
credit_if_positive to amount s = if ltb_ℤ (pos 0) amount then credit to amount s else ok s

-- The loop `for i in 0..recipients.len()`, on what is left of both vectors.
pub reward_all : List Address → List ℤ → Storage → Call Storage
reward_all [] amounts s = ok s
reward_all (r ∷ rs) [] s = trap Trap.missing_value
reward_all (r ∷ rs) (a ∷ amounts) s = credit_if_positive r a s >>= reward_all rs amounts

pub distribute_rewards : Env → List Address → List ℤ → Storage → Call Storage
unfolding require_admin
distribute_rewards e recipients amounts s = do
  require_admin e s
  panic_if (not (length recipients == length amounts)) length_mismatch
  reward_all recipients amounts s

pub approve : Env → Address → Address → ℤ → Storage → Call Storage
approve e owner spender amount s = do
  require_auth e owner
  panic_if (ltb_ℤ amount (pos 0)) amount_negative
  ok (record s { allowances = insert (owner, spender) amount s.allowances })

module _ {C : Type 0} (ctl : Controller C) where
  -- The net amount and the burnt part of a transfer, by the controller's configuration.
  pub split_burn : C → Storage → ℤ → Call (ℤ × ℤ)
  split_burn c s amount = elim s.burn_controller [
    | none ↦ ok (amount, pos 0)
    | some address ↦ do
      config ← invoke (ctl.get_config c address)
      if config.enabled && ltb 0 config.burn_rate
          then (do
            scaled ← mul_i128 amount (pos config.burn_rate)
            burned ← div_i128 scaled (pos 10_000)
            net ← sub_i128 amount burned
            ok (net, burned))
          else ok (amount, pos 0)
  ]

  -- `record_burn` on the controller, if there is one.
  pub report_burn : C → Storage → ℤ → Address → String → Call C
  report_burn c s amount source reason = elim s.burn_controller [
    | none ↦ ok c
    | some address ↦ invoke (ctl.record_burn c address amount source reason)
  ]

  -- `if burn_amount > 0 { .. }` at the end of both transfers.
  pub settle_burn : C → Storage → ℤ → Address → Call (Storage × C)
  unfolding report_burn
  settle_burn c s burned source =
      if ltb_ℤ (pos 0) burned
      then (do
        supply ← sub_i128 (total_supply s) burned
        let s1 = set_supply s supply
        c1 ← report_burn c s1 burned source "fee"
        ok (s1, c1))
      else ok (s, c)

  pub transfer : Env → Address → Address → ℤ → Storage × C → Call (Storage × C)
  transfer e from to amount (s, c) = do
    require_auth e from
    panic_if (leb_ℤ amount (pos 0)) amount_must_be_positive
    let from_balance = balance s from
    let to_balance = balance s to
    panic_if (ltb_ℤ from_balance amount) insufficient_balance
    (net, burned) ← split_burn c s amount
    lowered ← sub_i128 from_balance amount
    let s1 = set_balance s from lowered
    raised ← add_i128 to_balance net
    settle_burn c (set_balance s1 to raised) burned from

  pub transfer_from : Env → Address → Address → Address → ℤ → Storage × C → Call (Storage × C)
  transfer_from e spender from to amount (s, c) = do
    require_auth e spender
    panic_if (leb_ℤ amount (pos 0)) amount_must_be_positive
    let allowed = allowance s from spender
    panic_if (ltb_ℤ allowed amount) insufficient_allowance
    let from_balance = balance s from
    panic_if (ltb_ℤ from_balance amount) insufficient_balance
    let to_balance = balance s to
    lowered ← sub_i128 from_balance amount
    let s1 = set_balance s from lowered
    (net, burned) ← split_burn c s1 amount
    raised ← add_i128 to_balance net
    let s2 = set_balance s1 to raised
    left ← sub_i128 allowed amount
    settle_burn c (record s2 { allowances = insert (from, spender) left s2.allowances }) burned from

  -- The common end of `spend_for_unlock` and `burn`: destroy the tokens and report it.
  pub destroy : C → Storage → Address → ℤ → String → Call (Storage × C)
  unfolding report_burn
  destroy c s from amount reason = do
    lowered ← sub_i128 (balance s from) amount
    let s1 = set_balance s from lowered
    supply ← sub_i128 (total_supply s1) amount
    let s2 = set_supply s1 supply
    c1 ← report_burn c s2 amount from reason
    ok (s2, c1)

  pub spend_for_unlock : Env → Address → ℤ → String → Storage × C → Call (Storage × C)
  spend_for_unlock e spender amount unlock_type (s, c) = do
    require_auth e spender
    panic_if (leb_ℤ amount (pos 0)) amount_must_be_positive
    panic_if (ltb_ℤ (balance s spender) amount) insufficient_balance_to_spend
    destroy c s spender amount "unlock"

  pub burn : Env → Address → ℤ → Storage × C → Call (Storage × C)
  burn e from amount (s, c) = do
    require_auth e from
    panic_if (leb_ℤ amount (pos 0)) amount_must_be_positive
    panic_if (ltb_ℤ (balance s from) amount) insufficient_balance_to_burn
    destroy c s from amount "vol"
