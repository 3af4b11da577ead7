-- ===== src/TimeLockVault/Entry.antt =====
-- The entry points of contracts/timelock_vault/src/lib.rs that change the storage, as one type of
-- requests and one function that serves them.
use mindmint_contracts.Base.{ℕ, Bool}
use mindmint_contracts.Base.Int.{ℤ}
use mindmint_contracts.Host.Call.{Address, Env, ok, ◌>>=◌}
use mindmint_contracts.Host.Tokens.{Tokens}
use mindmint_contracts.TimeLockVault
use mindmint_contracts.TimeLockVault.{Storage, Call}

pub data Request : Type 0 where
  initialize : Address → Request
  deposit : Address → Address → ℤ → Address → ℕ → Request
  withdraw emergency_unlock : Address → Address → Request
  set_condition : Address → Address → Bool → Request

module _ {W : Type 0} (t : Tokens W) where
  abbrev beside : W → Call Storage → Call (Storage × W)
  beside w m = m >>= λ s. ok (s, w)

  unfoldable pub serve : Env → Request → Storage × W → Call (Storage × W)
  serve e (initialize a) (s, w) = beside w (TimeLockVault.initialize a s)
  serve e (deposit a d x b u) st = TimeLockVault.deposit t e a d x b u st
  serve e (withdraw b d) st = TimeLockVault.withdraw t e b d st
  serve e (emergency_unlock b d) (s, w) = beside w (TimeLockVault.emergency_unlock e b d s)
  serve e (set_condition b d m) (s, w) = beside w (TimeLockVault.set_condition e b d m s)
