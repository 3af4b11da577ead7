-- ===== src/Lending.antt =====
-- The lending contract (contracts/lending/src/lib.rs): its data (State), the assets that it moves,
-- the ids that it gives out and the interest of a loan; offers and loans are in the children.
mod State
pub mod Offers
pub mod Loans
pub mod Entry
pub mod Interest
pub mod Sound
pub mod Payments
pub mod Effects
pub mod Endings
pub mod Openings
pub mod Valid
pub mod Reach
pub mod Outcomes
pub mod Rounding
pub mod Samples
pub mod Tests
pub use State.*
use mindmint_contracts.Base.{ℕ, ◌||◌, Option, ltb, leb, not, ◌==◌, if◌then◌else◌, get_or}
use mindmint_contracts.Base.Int.{ℤ, pos, leb_ℤ, eqb_ℤ}
use mindmint_contracts.Base.Map.{nat_key, insert}
use mindmint_contracts.Host.Call.{Address, Env, Result, ok, ◌>>=◌, ◌>>◌, panic_if, invoke}
use mindmint_contracts.Host.Num.{add_i128, mul_i128, div_i128, add_u64, sub_u64}
use mindmint_contracts.Host.Tokens.{Tokens}

abbrev pub Call : Type 0 → Type 0
Call A = Result Error A

-- The NFT contracts that `transfer_asset` calls, which are any contracts with a function
-- `transfer(from, to, id)`: the NFT's contract, the two holders and the id.
abbrev pub Nfts : Type 0 → Type 0
Nfts W = W → Address → Address → Address → ℕ → Option W

abbrev pub basis_points : ℤ
basis_points = pos 10000

pub validate_asset : Asset → Call (Unit {0})
validate_asset asset = elim asset.asset_type [
  | AssetType.token ↦ panic_if (leb_ℤ asset.amount (pos 0)) Error.token_amount_not_positive
  | AssetType.nft ↦ do
    panic_if (asset.nft_id == 0) Error.nft_id_not_set
    panic_if (not (eqb_ℤ asset.amount (pos 1))) Error.nft_amount_not_one
]

pub transfer_asset : {W : Type 0} → Tokens W → Nfts W → W → Asset → Address → Address → Call W
transfer_asset t n w asset from to = elim asset.asset_type [
  | AssetType.token ↦ invoke (t.transfer w asset.contract from to asset.amount)
  | AssetType.nft ↦ invoke (n w asset.contract from to asset.nft_id)
]

abbrev pub next_offer_id : Storage → Call (ℕ × Storage)
next_offer_id s = do
  id ← add_u64 (get_or s.offer_count 0) 1
  ok (id, record s { offer_count = Option.some id })

abbrev pub next_loan_id : Storage → Call (ℕ × Storage)
next_loan_id s = do
  id ← add_u64 (get_or s.loan_count 0) 1
  ok (id, record s { loan_count = Option.some id })

abbrev pub set_offer : ℕ → LoanOffer → Storage → Storage
set_offer id offer s = record s { offers = insert id offer s.offers }

abbrev pub set_loan : ℕ → Loan → Storage → Storage
set_loan id loan s = record s { loans = insert id loan s.loans }

-- Interest runs until the loan is due.
abbrev pub accrual_end : Env → Loan → ℕ
accrual_end e loan = if ltb e.timestamp loan.due_time then e.timestamp else loan.due_time

-- The interest on the outstanding principal for `delta` of the loan's `duration` seconds.
pub interest : Loan → ℕ → ℕ → Call ℤ
interest loan delta duration = do
  rated ← mul_i128 loan.outstanding_principal (pos loan.terms.interest_bps)
  timed ← mul_i128 rated (pos delta)
  shared ← div_i128 timed (pos duration)
  div_i128 shared basis_points

pub accrue_interest : Env → Loan → Call Loan
accrue_interest e loan = if leb (accrual_end e loan) loan.last_accrual_time then ok loan else do
  duration ← sub_u64 loan.due_time loan.start_time
  if duration == 0 || eqb_ℤ loan.outstanding_principal (pos 0)
      then ok (record loan { last_accrual_time = accrual_end e loan })
      else do
        delta ← sub_u64 (accrual_end e loan) loan.last_accrual_time
        added ← interest loan delta duration
        accrued ← add_i128 loan.accrued_interest added
        ok (record loan { accrued_interest = accrued; last_accrual_time = accrual_end e loan })
