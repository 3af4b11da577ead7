-- ===== src/Lending/Offers.antt =====
-- Offers of contracts/lending/src/lib.rs: `create_offer`, `cancel_offer` and `accept_offer`.
use mindmint_contracts.Base.{ℕ, not, ◌==◌}
use mindmint_contracts.Base.Int.{ℤ, pos, leb_ℤ, eqb_ℤ}
use mindmint_contracts.Base.Map.{nat_key, lookup}
use mindmint_contracts.Host.Call.{Address, Env, ok, ◌>>=◌, ◌>>◌, panic_if, require_auth, unwrap}
use mindmint_contracts.Host.Num.{add_u64}
use mindmint_contracts.Host.Tokens.{Tokens}
use mindmint_contracts.Lending.{
  Asset, AssetType, LoanTerms, LoanOffer, OfferStatus, Loan, LoanStatus, Storage, Error, Call, Nfts,
  is_open, validate_asset, transfer_asset, next_offer_id, next_loan_id, set_offer, set_loan,
}

-- What `create_offer` asks of the loan's asset, by its type.
unfoldable pub check_loan_asset : Asset → Address → ℤ → Call (Unit {0})
check_loan_asset loan_asset repayment_token principal = elim loan_asset.asset_type [
  | AssetType.token ↦ do
    panic_if (not (eqb_ℤ principal loan_asset.amount)) Error.principal_mismatch
    panic_if (not (repayment_token == loan_asset.contract)) Error.repayment_token_mismatch
  | AssetType.nft ↦ panic_if (not (eqb_ℤ loan_asset.amount (pos 1))) Error.nft_amount_not_one
]

abbrev pub new_loan : ℕ → ℕ → LoanOffer → Address → ℕ → ℕ → Loan
new_loan loan_id offer_id offer borrower start_time due_time = record {
  loan_id = loan_id;
  offer_id = offer_id;
  lender = offer.lender;
  borrower = borrower;
  loan_asset = offer.loan_asset;
  collateral_asset = offer.collateral_asset;
  repayment_token = offer.repayment_token;
  principal = offer.principal;
  outstanding_principal = offer.principal;
  accrued_interest = pos 0;
  start_time = start_time;
  due_time = due_time;
  last_accrual_time = start_time;
  status = LoanStatus.active;
  terms = offer.terms;
  extension_secs = 0;
}

module _ {W : Type 0} (t : Tokens W) (n : Nfts W) where
  unfoldable pub create_offer :
      Env → Address → Asset → Asset → Address → ℤ → LoanTerms → Storage × W → Call (ℕ × Storage × W)
  create_offer e lender loan_asset collateral_asset repayment_token principal terms (s, w) = do
    require_auth e lender
    validate_asset loan_asset
    validate_asset collateral_asset
    panic_if (terms.duration_secs == 0) Error.duration_zero
    panic_if (leb_ℤ principal (pos 0)) Error.principal_not_positive
    check_loan_asset loan_asset repayment_token principal
    (offer_id, s1) ← next_offer_id s
    let offer : LoanOffer = record {
      offer_id = offer_id;
      lender = lender;
      loan_asset = loan_asset;
      collateral_asset = collateral_asset;
      repayment_token = repayment_token;
      principal = principal;
      terms = terms;
      status = OfferStatus.«open»;
      created_time = e.timestamp;
    }
    w1 ← transfer_asset t n w loan_asset lender e.current_contract
    ok (offer_id, set_offer offer_id offer s1, w1)

  unfoldable pub cancel_offer : Env → Address → ℕ → Storage × W → Call (Storage × W)
  cancel_offer e lender offer_id (s, w) = do
    require_auth e lender
    offer ← unwrap (lookup offer_id s.offers)
    panic_if (not (offer.lender == lender)) Error.only_lender
    panic_if (not (is_open offer.status)) Error.offer_not_open
    let s1 = set_offer offer_id (record offer { status = OfferStatus.cancelled }) s
    w1 ← transfer_asset t n w offer.loan_asset e.current_contract offer.lender
    ok (s1, w1)

  unfoldable pub accept_offer : Env → Address → ℕ → Storage × W → Call (ℕ × Storage × W)
  accept_offer e borrower offer_id (s, w) = do
    require_auth e borrower
    offer ← unwrap (lookup offer_id s.offers)
    panic_if (not (is_open offer.status)) Error.offer_not_open
    w1 ← transfer_asset t n w offer.collateral_asset borrower e.current_contract
    (loan_id, s1) ← next_loan_id s
    due_time ← add_u64 e.timestamp offer.terms.duration_secs
    let loan = new_loan loan_id offer_id offer borrower e.timestamp due_time
    let s2 = set_offer offer_id (record offer { status = OfferStatus.accepted }) s1
    w2 ← transfer_asset t n w1 offer.loan_asset e.current_contract borrower
    ok (loan_id, set_loan loan_id loan s2, w2)
