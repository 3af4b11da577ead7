-- ===== src/Lending/Loans.antt =====
-- Loans of contracts/lending/src/lib.rs: `repay`, `liquidate`, `request_extension` and
-- `approve_extension`.
use mindmint_contracts.Base.{ℕ, Bool, not, ◌==◌, ◌&&◌, ltb, leb, if◌then◌else◌}
use mindmint_contracts.Base.Int.{ℤ, pos, ltb_ℤ, leb_ℤ, eqb_ℤ}
use mindmint_contracts.Base.Map.{nat_key, lookup, insert, remove}
use mindmint_contracts.Host.Call.{
  Address, Env, ok, ◌>>=◌, ◌>>◌, panic_if, require_auth, unwrap, invoke,
}
use mindmint_contracts.Host.Num.{add_i128, sub_i128, add_u64}
use mindmint_contracts.Host.Tokens.{Tokens}
use mindmint_contracts.Lending.{
  Loan, LoanStatus, ExtensionRequest, Storage, Error, Call, Nfts, is_active, is_nft, transfer_asset,
  set_loan, accrue_interest,
}

-- A payment goes to the interest first; what is left of it is returned.
unfoldable pub pay_interest : ℤ → Loan → Call (Loan × ℤ)
pay_interest amount loan =
    let paid = if ltb_ℤ amount loan.accrued_interest then amount else loan.accrued_interest in
    if ltb_ℤ (pos 0) loan.accrued_interest
    then (do
      accrued ← sub_i128 loan.accrued_interest paid
      remaining ← sub_i128 amount paid
      ok (record loan { accrued_interest = accrued }, remaining))
    else ok (loan, amount)

unfoldable pub pay_principal : Loan × ℤ → Call Loan
pay_principal (loan, remaining) =
    if ltb_ℤ (pos 0) remaining
    then (do
      outstanding ← sub_i128 loan.outstanding_principal remaining
      ok (record loan { outstanding_principal = outstanding }))
    else ok loan

abbrev pub is_paid : Loan → Bool
is_paid loan = eqb_ℤ loan.outstanding_principal (pos 0) && eqb_ℤ loan.accrued_interest (pos 0)

module _ {W : Type 0} (t : Tokens W) (n : Nfts W) where
  -- A loan that is paid ends: the collateral returns to the borrower, an NFT that was lent to the
  -- lender.
  unfoldable pub settle : Env → Loan → W → Call (Loan × W)
  settle e loan w =
      if is_paid loan
      then (do
        w1 ← transfer_asset t n w loan.collateral_asset e.current_contract loan.borrower
        w2 ←
            if is_nft loan.loan_asset.asset_type
            then transfer_asset t n w1 loan.loan_asset loan.borrower loan.lender
            else ok w1
        ok (record loan { status = LoanStatus.repaid }, w2))
      else ok (loan, w)

  unfoldable pub repay : Env → Address → ℕ → ℤ → Storage × W → Call (Storage × W)
  repay e borrower loan_id amount (s, w) = do
    require_auth e borrower
    panic_if (leb_ℤ amount (pos 0)) Error.amount_not_positive
    loan ← unwrap (lookup loan_id s.loans)
    panic_if (not (is_active loan.status)) Error.loan_not_active
    panic_if (not (loan.borrower == borrower)) Error.only_borrower
    accrued ← accrue_interest e loan
    total_due ← add_i128 accrued.outstanding_principal accrued.accrued_interest
    panic_if (ltb_ℤ total_due amount) Error.exceeds_due
    w1 ← invoke (t.transfer w accrued.repayment_token borrower accrued.lender amount)
    lowered ← pay_interest amount accrued
    paid ← pay_principal lowered
    (settled, w2) ← settle e paid w1
    ok (set_loan loan_id settled s, w2)

  unfoldable pub liquidate : Env → Address → ℕ → Storage × W → Call (Storage × W)
  liquidate e lender loan_id (s, w) = do
    require_auth e lender
    loan ← unwrap (lookup loan_id s.loans)
    panic_if (not (is_active loan.status)) Error.loan_not_active
    panic_if (not (loan.lender == lender)) Error.only_lender
    panic_if (leb e.timestamp loan.due_time) Error.not_in_default
    accrued ← accrue_interest e loan
    let ended = record accrued { status = LoanStatus.liquidated }
    w1 ← transfer_asset t n w ended.collateral_asset e.current_contract ended.lender
    let s1 = set_loan loan_id ended s
    ok (record s1 { extension_requests = remove loan_id s1.extension_requests }, w1)

unfoldable pub request_extension : Env → Address → ℕ → ℕ → Storage → Call Storage
request_extension e borrower loan_id extra_secs s = do
  require_auth e borrower
  panic_if (extra_secs == 0) Error.extension_zero
  loan ← unwrap (lookup loan_id s.loans)
  panic_if (not (is_active loan.status)) Error.loan_not_active
  panic_if (not (loan.borrower == borrower)) Error.only_borrower
  panic_if (ltb loan.due_time e.timestamp) Error.already_due
  extended ← add_u64 loan.extension_secs extra_secs
  panic_if (ltb loan.terms.max_extension_secs extended) Error.exceeds_maximum
  let request : ExtensionRequest = record {
    loan_id = loan_id;
    borrower = borrower;
    requested_extension_secs = extra_secs;
    requested_time = e.timestamp;
  }
  ok (record s { extension_requests = insert loan_id request s.extension_requests })

unfoldable pub approve_extension : Env → Address → ℕ → Storage → Call Storage
approve_extension e lender loan_id s = do
  require_auth e lender
  loan ← unwrap (lookup loan_id s.loans)
  panic_if (not (is_active loan.status)) Error.loan_not_active
  panic_if (not (loan.lender == lender)) Error.only_lender
  request ← unwrap (lookup loan_id s.extension_requests)
  panic_if (not (request.borrower == loan.borrower)) Error.requester_mismatch
  accrued ← accrue_interest e loan
  due_time ← add_u64 accrued.due_time request.requested_extension_secs
  extension_secs ← add_u64 accrued.extension_secs request.requested_extension_secs
  let extended = record accrued { due_time = due_time; extension_secs = extension_secs }
  let s1 = set_loan loan_id extended s
  ok (record s1 { extension_requests = remove loan_id s1.extension_requests })
