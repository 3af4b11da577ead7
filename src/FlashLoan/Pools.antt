-- ===== src/FlashLoan/Pools.antt =====
-- Liquidity and loans of contracts/flash_loan/src/lib.rs: the entry points that move tokens.
pub mod Books
pub mod Loans
pub mod Entry
pub mod Solvency
pub mod Positions
mod Tests
use mindmint_contracts.Base.{
  ℕ, Bool, true, false, Option, none, some, List, [], if◌then◌else◌, get_or, ◌==◌,
}
use mindmint_contracts.Base.Int.{ℤ, pos, ltb_ℤ, leb_ℤ, eqb_ℤ}
use mindmint_contracts.Base.Map.{nat_key, pair_key, lookup, insert, remove}
use mindmint_contracts.Host.Call.{
  Address, Env, ok, trap, panic, ◌>>=◌, ◌>>◌, panic_if, require_auth, unwrap, expect, invoke,
}
use mindmint_contracts.Host.Num.{add_i128, sub_i128, mul_i128, div_i128, add_u64}
use mindmint_contracts.Host.Tokens.{Tokens}
use mindmint_contracts.FlashLoan
use mindmint_contracts.FlashLoan.{
  Storage, Call, LiquidityPool, LenderPosition, FlashLoanRecord, Callback, get_or_create_pool,
  with_lender, assert_not_paused, assert_not_reentrant, assert_admin, set_reentrancy_guard,
  update_analytics, basis_points,
}

abbrev pub set_pool : Address → LiquidityPool → Storage → Storage
set_pool token pool s = record s { pools = insert token pool s.pools }

abbrev pub set_record : ℕ → FlashLoanRecord → Storage → Storage
set_record id r s = record s { flash_loan_records = insert id r s.flash_loan_records }

module _ {W : Type 0} (t : Tokens W) where
  pub add_liquidity : Env → Address → Address → ℤ → Storage × W → Call (Storage × W)
  add_liquidity e lender token amount (s, w) = do
    require_auth e lender
    assert_not_paused s
    panic_if (leb_ℤ amount (pos 0)) FlashLoan.amount_not_positive
    w1 ← invoke (t.transfer w token lender e.current_contract amount)
    let (pool, s1) = get_or_create_pool token s
    total ← add_i128 pool.total_liquidity amount
    available ← add_i128 pool.available_liquidity amount
    let pool1 = record pool {
      total_liquidity = total;
      available_liquidity = available;
      lenders = with_lender lender pool.lenders;
    }
    let s2 = set_pool token pool1 s1
    let position : LenderPosition = record {
      lender = lender;
      amount = amount;
      deposit_time = e.timestamp;
    }
    ok (record s2 { lender_positions = insert (token, lender) position s2.lender_positions }, w1)

  -- The position that is left, or no position.
  pub reduce_position : Address → Address → LenderPosition → ℤ → Storage → Storage
  reduce_position token lender p new_amount s =
      if eqb_ℤ new_amount (pos 0)
      then record s { lender_positions = remove (token, lender) s.lender_positions }
      else record s {
        lender_positions =
            insert (token, lender)
              (record { lender = lender; amount = new_amount; deposit_time = p.deposit_time })
              s.lender_positions;
      }

  pub remove_liquidity : Env → Address → Address → ℤ → Storage × W → Call (Storage × W)
  remove_liquidity e lender token amount (s, w) = do
    require_auth e lender
    assert_not_paused s
    panic_if (leb_ℤ amount (pos 0)) FlashLoan.amount_not_positive
    pool ← expect (lookup token s.pools) FlashLoan.pool_not_found
    panic_if (ltb_ℤ pool.available_liquidity amount) FlashLoan.insufficient_available_liquidity
    position ←
        expect (lookup (token, lender) s.lender_positions) FlashLoan.lender_position_not_found
    panic_if (ltb_ℤ position.amount amount) FlashLoan.insufficient_lender_balance
    w1 ← invoke (t.transfer w token e.current_contract lender amount)
    total ← sub_i128 pool.total_liquidity amount
    available ← sub_i128 pool.available_liquidity amount
    let s1 =
        set_pool token (record pool { total_liquidity = total; available_liquidity = available }) s
    new_amount ← sub_i128 position.amount amount
    ok (reduce_position token lender position new_amount s1, w1)

  pub withdraw_fees : Env → Address → Address → ℤ → Storage × W → Call (Storage × W)
  withdraw_fees e admin token amount (s, w) = do
    require_auth e admin
    assert_admin s admin
    pool ← expect (lookup token s.pools) FlashLoan.pool_not_found
    panic_if (ltb_ℤ pool.fees_collected amount) FlashLoan.insufficient_fees_collected
    fees ← sub_i128 pool.fees_collected amount
    total ← sub_i128 pool.total_liquidity amount
    let s1 = set_pool token (record pool { fees_collected = fees; total_liquidity = total }) s
    w1 ← invoke (t.transfer w token e.current_contract admin amount)
    ok (s1, w1)

-- What a loan that has been opened carries to its end.
pub record Terms : Type 0 where
  pub fee : ℤ
  pub repayment_amount : ℤ
  pub loan_id : ℕ

-- `flash_loan` up to the disbursement: the checks, the fee, the record and the pool's books.
pub open_loan : Env → Address → Address → ℤ → Address → Storage → Call (Terms × Storage)
open_loan e borrower token amount callback_contract s = do
  panic_if (leb_ℤ amount (pos 0)) FlashLoan.amount_not_positive
  config ← unwrap s.config
  pool ← expect (lookup token s.pools) FlashLoan.pool_not_found
  scaled ← mul_i128 pool.available_liquidity (pos config.max_loan_ratio)
  max_loan ← div_i128 scaled basis_points
  panic_if (ltb_ℤ max_loan amount) FlashLoan.amount_exceeds_maximum
  panic_if (ltb_ℤ pool.available_liquidity amount) FlashLoan.insufficient_liquidity_in_pool
  charged ← mul_i128 amount (pos config.fee_bps)
  fee ← div_i128 charged basis_points
  repayment ← add_i128 amount fee
  loan_id ← add_u64 (get_or s.flash_loan_counter 0) 1
  let s1 = record s { flash_loan_counter = some loan_id }
  let s2 =
      set_record loan_id
        (record {
          loan_id = loan_id;
          borrower = borrower;
          token = token;
          principal = amount;
          fee = fee;
          repayment_amount = repayment;
          start_time = e.timestamp;
          end_time = 0;
          status = FlashLoan.FlashLoanStatus.active;
          callback_contract = callback_contract;
        })
        s1
  available ← sub_i128 pool.available_liquidity amount
  borrowed ← add_i128 pool.total_borrowed amount
  let s3 =
      set_pool token (record pool { available_liquidity = available; total_borrowed = borrowed }) s2
  ok (record { fee = fee; repayment_amount = repayment; loan_id = loan_id }, s3)

-- `flash_loan` after the repayment has been verified: the pool's books, the record, the analytics.
pub close_loan : Env → Address → ℤ → Terms → Storage → Call Storage
close_loan e token amount terms s = do
  pool ← unwrap (lookup token s.pools)
  available ← add_i128 pool.available_liquidity terms.repayment_amount
  fees ← add_i128 pool.fees_collected terms.fee
  borrowed ← sub_i128 pool.total_borrowed amount
  let s1 =
      set_pool token
        (record pool {
          available_liquidity = available;
          total_borrowed = borrowed;
          fees_collected = fees;
        })
        s
  r ← unwrap (lookup terms.loan_id s1.flash_loan_records)
  let s2 =
      set_record terms.loan_id
        (record r { end_time = e.timestamp; status = FlashLoan.FlashLoanStatus.repaid }) s1
  update_analytics amount terms.fee true s2

module _ {W : Type 0} (t : Tokens W) (k : Callback W) where
  -- `flash_loan` from the disbursement on: the borrower's callback must bring the principal and the
  -- fee back before it returns.
  pub run_loan :
      Env → Address → Address → ℤ → Address → List ℕ → W → Terms → Storage → Call (ℕ × Storage × W)
  run_loan e borrower token amount callback_contract callback_data w terms s = do
    let s1 = set_reentrancy_guard true s
    let starting_balance = t.balance w token e.current_contract
    w1 ← invoke (t.transfer w token e.current_contract borrower amount)
    (answer, w2) ←
        invoke
          (k.flash_loan_callback w1 callback_contract borrower token amount terms.fee callback_data)
    let s2 = set_reentrancy_guard false s1
    let current_balance = t.balance w2 token e.current_contract
    expected ← add_i128 starting_balance terms.fee
    panic_if (ltb_ℤ current_balance expected) FlashLoan.flash_loan_unpaid
    s3 ← close_loan e token amount terms s2
    ok (terms.loan_id, s3, w2)

  pub flash_loan :
      Env → Address → Address → ℤ → Address → List ℕ → Storage × W → Call (ℕ × Storage × W)
  flash_loan e borrower token amount callback_contract callback_data (s, w) = do
    require_auth e borrower
    assert_not_paused s
    assert_not_reentrant s
    (terms, s1) ← open_loan e borrower token amount callback_contract s
    run_loan e borrower token amount callback_contract callback_data w terms s1
