-- ===== src/FlashLoan/Pools/Entry.antt =====
-- The entry points of contracts/flash_loan/src/lib.rs that change the storage, as one type of
-- requests and one function that serves them.
use mindmint_contracts.Base.{ℕ, List}
use mindmint_contracts.Base.Int.{ℤ}
use mindmint_contracts.Host.Call.{Address, Env, ok, ◌>>=◌}
use mindmint_contracts.Host.Tokens.{Tokens}
use mindmint_contracts.FlashLoan
use mindmint_contracts.FlashLoan.{Storage, Callback, Call}
use mindmint_contracts.FlashLoan.Pools

pub data Request : Type 0 where
  initialize set_fee_bps set_max_loan_ratio : Address → ℕ → Request
  pause unpause : Address → Request
  add_liquidity remove_liquidity withdraw_fees : Address → Address → ℤ → Request
  flash_loan : Address → Address → ℤ → Address → List ℕ → Request

module _ {W : Type 0} (t : Tokens W) (k : Callback W) where
  abbrev beside : W → Call Storage → Call (Storage × W)
  beside w m = m >>= λ s. ok (s, w)

  unfoldable pub serve : Env → Request → Storage × W → Call (Storage × W)
  serve e (initialize a n) (s, w) = beside w (FlashLoan.initialize e a n s)
  serve e (set_fee_bps a n) (s, w) = beside w (FlashLoan.set_fee_bps e a n s)
  serve e (set_max_loan_ratio a n) (s, w) = beside w (FlashLoan.set_max_loan_ratio e a n s)
  serve e (pause a) (s, w) = beside w (FlashLoan.pause e a s)
  serve e (unpause a) (s, w) = beside w (FlashLoan.unpause e a s)
  serve e (add_liquidity a d x) st = Pools.add_liquidity t e a d x st
  serve e (remove_liquidity a d x) st = Pools.remove_liquidity t e a d x st
  serve e (withdraw_fees a d x) st = Pools.withdraw_fees t e a d x st
  serve e (flash_loan b d x c args) st =
      Pools.flash_loan t k e b d x c args st >>= λ r. ok (r.1, r.2)

-- The request is not a withdrawal of fees.
abbrev pub TakesNoFees : Request → Type 0
TakesNoFees (withdraw_fees a d x) = ⊥
TakesNoFees _ = Unit
