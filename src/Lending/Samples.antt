-- ===== src/Lending/Samples.antt =====
-- Concrete states of the lending contract (contracts/lending/src/lib.rs) for its tests.
use mindmint_contracts.Base.{ℕ, true, false, some, [], ◌∷◌, if◌then◌else◌, ◌==◌}
use mindmint_contracts.Base.Int.{ℤ, pos}
use mindmint_contracts.Base.Map.{nat_key, pair_key}
use mindmint_contracts.Host.Call.{Env}
use mindmint_contracts.Host.Tokens.Ledger.{Balances}
use mindmint_contracts.Lending
use mindmint_contracts.Lending.{
  Asset, AssetType, LoanTerms, LoanOffer, OfferStatus, Loan, LoanStatus, Storage, Nfts,
  accrue_interest, interest, transfer_asset, validate_asset,
}

-- The contract is 7; 1 lends 1,000 of the token 5 to 2 against 50 of the token 6.
abbrev pub call_at : ℕ → Env
call_at now = record {
  timestamp = now;
  current_contract = 7;
  has_auth = λ a. if a == 7 then false else true;
}

abbrev pub nfts : Nfts Balances
nfts w contract from to id = some w

abbrev pub lent : Asset
lent = record { asset_type = AssetType.token; contract = 5; amount = pos 1000; nft_id = 0 }

abbrev pub pledged : Asset
pledged = record { asset_type = AssetType.token; contract = 6; amount = pos 50; nft_id = 0 }

abbrev pub terms : LoanTerms
terms = record { duration_secs = 1000; interest_bps = 1000; max_extension_secs = 500 }

abbrev pub offer : ℕ → OfferStatus → ℕ → LoanOffer
offer id status now = record {
  offer_id = id;
  lender = 1;
  loan_asset = lent;
  collateral_asset = pledged;
  repayment_token = 5;
  principal = pos 1000;
  terms = terms;
  status = status;
  created_time = now;
}

abbrev pub loan : ℤ → ℤ → ℕ → LoanStatus → Loan
loan outstanding accrued last status = record {
  loan_id = 1;
  offer_id = 1;
  lender = 1;
  borrower = 2;
  loan_asset = lent;
  collateral_asset = pledged;
  repayment_token = 5;
  principal = pos 1000;
  outstanding_principal = outstanding;
  accrued_interest = accrued;
  start_time = 200;
  due_time = 1200;
  last_accrual_time = last;
  status = status;
  terms = terms;
  extension_secs = 0;
}

abbrev pub world : ℕ → ℕ → ℕ → Balances
world a b c = ((5, 1), pos a) ∷ ((5, 2), pos b) ∷ ((6, 2), pos c) ∷ []

abbrev pub world_lent : ℕ → ℕ → ℕ → ℕ → ℕ → Balances
world_lent a b c d f =
    ((5, 1), pos a) ∷ ((5, 2), pos b) ∷ ((6, 2), pos c) ∷ ((5, 7), pos d) ∷ ((6, 7), pos f) ∷ []

abbrev pub offered : Storage
offered = record Lending.empty {
  offers = (1, offer 1 OfferStatus.«open» 100) ∷ [];
  offer_count = some 1;
}

abbrev pub world_offered : Balances
world_offered = ((5, 1), pos 0) ∷ ((5, 2), pos 200) ∷ ((6, 2), pos 50) ∷ ((5, 7), pos 1000) ∷ []

abbrev pub with_loan : Loan → Storage
with_loan l = record Lending.empty {
  offers = (1, offer 1 OfferStatus.accepted 100) ∷ [];
  offer_count = some 1;
  loans = (1, l) ∷ [];
  loan_count = some 1;
}

abbrev pub taken : Loan
taken = loan (pos 1000) (pos 0) 200 LoanStatus.active

abbrev pub half_paid : Loan
half_paid = loan (pos 750) (pos 0) 700 LoanStatus.active

abbrev pub all_paid : Loan
all_paid = loan (pos 0) (pos 0) 1200 LoanStatus.repaid

abbrev pub seized : Loan
seized = loan (pos 1000) (pos 100) 1200 LoanStatus.liquidated

abbrev pub world_seized : Balances
world_seized =
    ((5, 1), pos 0)
    ∷ ((5, 2), pos 1200)
    ∷ ((6, 2), pos 0)
    ∷ ((5, 7), pos 0)
    ∷ ((6, 7), pos 0)
    ∷ ((6, 1), pos 50)
    ∷ []

abbrev pub reoffered : Storage
reoffered = record (with_loan all_paid) {
  offers = (1, offer 1 OfferStatus.accepted 100) ∷ (2, offer 2 OfferStatus.«open» 1600) ∷ [];
  offer_count = some 2;
}
