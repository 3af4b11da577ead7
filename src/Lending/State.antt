-- ===== src/Lending/State.antt =====
-- The data of contracts/lending/src/lib.rs.
use mindmint_contracts.Base.{ℕ, Option, none, [], Bool, true, false}
use mindmint_contracts.Base.Int.{ℤ}
use mindmint_contracts.Base.Map.{Map}
use mindmint_contracts.Host.Call.{Address}

pub data AssetType : Type 0 where
  token nft : AssetType

pub record Asset : Type 0 where
  pub asset_type : AssetType
  pub contract : Address
  pub amount : ℤ
  pub nft_id : ℕ

pub record LoanTerms : Type 0 where
  pub duration_secs : ℕ
  pub interest_bps : ℕ
  pub max_extension_secs : ℕ

pub data OfferStatus : Type 0 where
  «open» cancelled accepted : OfferStatus

pub data LoanStatus : Type 0 where
  active repaid liquidated : LoanStatus

pub record LoanOffer : Type 0 where
  pub offer_id : ℕ
  pub lender : Address
  pub loan_asset : Asset
  pub collateral_asset : Asset
  pub repayment_token : Address
  pub principal : ℤ
  pub terms : LoanTerms
  pub status : OfferStatus
  pub created_time : ℕ

pub record Loan : Type 0 where
  pub loan_id : ℕ
  pub offer_id : ℕ
  pub lender : Address
  pub borrower : Address
  pub loan_asset : Asset
  pub collateral_asset : Asset
  pub repayment_token : Address
  pub principal : ℤ
  pub outstanding_principal : ℤ
  pub accrued_interest : ℤ
  pub start_time : ℕ
  pub due_time : ℕ
  pub last_accrual_time : ℕ
  pub status : LoanStatus
  pub terms : LoanTerms
  pub extension_secs : ℕ

pub record ExtensionRequest : Type 0 where
  pub loan_id : ℕ
  pub borrower : Address
  pub requested_extension_secs : ℕ
  pub requested_time : ℕ

-- `DataKey`
pub record Storage : Type 0 where
  pub offers : Map ℕ LoanOffer
  pub offer_count : Option ℕ
  pub loans : Map ℕ Loan
  pub loan_count : Option ℕ
  pub extension_requests : Map ℕ ExtensionRequest

abbrev pub empty : Storage
empty = record {
  offers = [];
  offer_count = none;
  loans = [];
  loan_count = none;
  extension_requests = [];
}

-- The messages of the contract's panics.
pub data Error : Type 0 where
  duration_zero principal_not_positive principal_mismatch repayment_token_mismatch : Error
  nft_amount_not_one token_amount_not_positive nft_id_not_set : Error
  only_lender offer_not_open amount_not_positive loan_not_active only_borrower : Error
  exceeds_due not_in_default extension_zero already_due exceeds_maximum requester_mismatch : Error

abbrev pub is_open : OfferStatus → Bool
is_open OfferStatus.«open» = true
is_open _ = false

abbrev pub is_active : LoanStatus → Bool
is_active LoanStatus.active = true
is_active _ = false

abbrev pub is_nft : AssetType → Bool
is_nft AssetType.nft = true
is_nft AssetType.token = false
