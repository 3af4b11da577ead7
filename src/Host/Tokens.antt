-- ===== src/Host/Tokens.antt =====
-- The token contracts that the others call (`soroban_sdk::token::Client`, not part of this
-- repository): an interface over the state `W` of the world outside the contract.
pub mod Ledger
use mindmint_contracts.Base.{ℕ, ◌≡◌, Bool, ◌&&◌, Option, some, ◌==◌, if◌then◌else◌}
use mindmint_contracts.Base.Int.{ℤ, pos, ◌+ℤ◌, ◌-ℤ◌, ◌≤ℤ◌}
use mindmint_contracts.Host.Call.{Address}

-- The arguments name the token first. A transfer that fails returns nothing.
pub record Tokens (W : Type 0) : Type 0 where
  pub balance : W → Address → Address → ℤ
  pub transfer : W → Address → Address → Address → ℤ → Option W

-- `x` where both pairs of addresses agree.
abbrev pub at : Address → Address → Address → Address → ℤ → ℤ
at c a d o x = if c == d && a == o then x else pos 0

-- The documented behaviour of a token (SEP-41): a transfer that succeeds takes the amount from one
-- balance and adds it to another, and touches no other balance; the amount is not negative.
pub record IsTokens {W : Type 0} (t : Tokens W) : Type 0 where
  pub transfer_moves :
      (w : W) (c a b : Address) (x : ℤ) (w' : W)
      → t.transfer w c a b x ≡ some w'
      → (d o : Address) → t.balance w' d o ≡ t.balance w d o -ℤ at c a d o x +ℤ at c b d o x
  pub transfer_nonneg :
      (w : W) (c a b : Address) (x : ℤ) (w' : W) → t.transfer w c a b x ≡ some w' → pos 0 ≤ℤ x
