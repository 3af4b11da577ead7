-- ===== src/Lending/Entry.antt =====
-- The entry points of contracts/lending/src/lib.rs that change the storage, as one type of requests
-- and one function that serves them.
use mindmint_contracts.Base.{ℕ}
use mindmint_contracts.Base.Int.{ℤ}
use mindmint_contracts.Host.Call.{Address, Env, ok, ◌>>=◌}
use mindmint_contracts.Host.Tokens.{Tokens}
use mindmint_contracts.Lending.{Asset, LoanTerms, Storage, Call, Nfts}
use mindmint_contracts.Lending.Offers
use mindmint_contracts.Lending.Loans

pub data Request : Type 0 where
  create_offer : Address → Asset → Asset → Address → ℤ → LoanTerms → Request
  cancel_offer accept_offer liquidate approve_extension : Address → ℕ → Request
  repay : Address → ℕ → ℤ → Request
  request_extension : Address → ℕ → ℕ → Request

module _ {W : Type 0} (t : Tokens W) (n : Nfts W) where
  abbrev beside : W → Call Storage → Call (Storage × W)
  beside w m = m >>= λ s. ok (s, w)

  abbrev without_id : Call (ℕ × Storage × W) → Call (Storage × W)
  without_id m = m >>= λ r. ok (r.1, r.2)

  unfoldable pub serve : Env → Request → Storage × W → Call (Storage × W)
  serve e (create_offer a lent pledged token x terms) st =
      without_id (Offers.create_offer t n e a lent pledged token x terms st)
  serve e (cancel_offer a i) st = Offers.cancel_offer t n e a i st
  serve e (accept_offer a i) st = without_id (Offers.accept_offer t n e a i st)
  serve e (repay a i x) st = Loans.repay t n e a i x st
  serve e (liquidate a i) st = Loans.liquidate t n e a i st
  serve e (request_extension a i x) (s, w) = beside w (Loans.request_extension e a i x s)
  serve e (approve_extension a i) (s, w) = beside w (Loans.approve_extension e a i s)
