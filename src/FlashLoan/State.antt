-- ===== src/FlashLoan/State.antt =====
-- The storage of the flash loan pools (contracts/flash_loan/src/lib.rs): `DataKey` and `DataKeyKey`
-- entry by entry, its failures, and the borrower's callback.
use mindmint_contracts.Base.{ℕ, Bool, Option, none, List, []}
use mindmint_contracts.Base.Int.{ℤ}
use mindmint_contracts.Base.Map.{Map}
use mindmint_contracts.Host.Call.{Address}

-- `Error`, and the messages of the contract's panics.
pub data Error : Type 0 where
  flash_loan_unpaid reentrant_call : Error
  already_initialized fee_out_of_range ratio_out_of_range amount_not_positive : Error
  pool_not_found insufficient_available_liquidity lender_position_not_found : Error
  insufficient_lender_balance amount_exceeds_maximum insufficient_liquidity_in_pool : Error
  insufficient_fees_collected admin_only contract_paused : Error

pub data FlashLoanStatus : Type 0 where
  active repaid defaulted : FlashLoanStatus

pub record FlashLoanConfig : Type 0 where
  pub admin : Address
  pub fee_bps : ℕ
  pub max_loan_ratio : ℕ
  pub paused : Bool

pub record LiquidityPool : Type 0 where
  pub token : Address
  pub total_liquidity : ℤ
  pub available_liquidity : ℤ
  pub total_borrowed : ℤ
  pub fees_collected : ℤ
  pub lenders : List Address

pub record LenderPosition : Type 0 where
  pub lender : Address
  pub amount : ℤ
  pub deposit_time : ℕ

pub record FlashLoanRecord : Type 0 where
  pub loan_id : ℕ
  pub borrower : Address
  pub token : Address
  pub principal : ℤ
  pub fee : ℤ
  pub repayment_amount : ℤ
  pub start_time : ℕ
  pub end_time : ℕ
  pub status : FlashLoanStatus
  pub callback_contract : Address

pub record FlashLoanAnalytics : Type 0 where
  pub total_loans : ℕ
  pub total_volume_borrowed : ℤ
  pub total_fees_collected : ℤ
  pub total_repaid : ℤ
  pub defaulted_loans : ℕ
  pub unique_borrowers : ℕ

pub record Storage : Type 0 where
  pub config : Option FlashLoanConfig
  pub pools : Map Address LiquidityPool
  pub pool_list : Option (List Address)
  pub analytics : Option FlashLoanAnalytics
  pub flash_loan_counter : Option ℕ
  pub flash_loan_records : Map ℕ FlashLoanRecord
  pub is_processing : Option Bool
  pub paused : Option Bool
  pub lender_positions : Map (Address × Address) LenderPosition

-- A contract with nothing stored yet.
abbrev pub empty : Storage
empty = record {
  config = none;
  pools = [];
  pool_list = none;
  analytics = none;
  flash_loan_counter = none;
  flash_loan_records = [];
  is_processing = none;
  paused = none;
  lender_positions = [];
}

-- `flash_loan_callback` of the contract that a borrower names, over the world `W`: it is given the
-- borrower, the token, the amount, the fee and the caller's data.
pub record Callback (W : Type 0) : Type 0 where
  pub flash_loan_callback : W → Address → Address → Address → ℤ → ℤ → List ℕ → Option (Bool × W)
