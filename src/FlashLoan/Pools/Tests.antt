-- ===== src/FlashLoan/Pools/Tests.antt =====
-- Runs of the flash loan pools, and their theorems at concrete inputs.
use mindmint_contracts.Base.{
  ℕ, ◌≡◌, ◌≢◌, refl, Bool, true, false, none, some, List, [], ◌∷◌, if◌then◌else◌, arith, ◌==◌,
}
use mindmint_contracts.Base.Int.{ℤ, pos, ◌+ℤ◌, ◌-ℤ◌, ◌*ℤ◌, ◌/ℤ◌, ◌≤ℤ◌, int_laws}
use mindmint_contracts.Base.Map.{nat_key, pair_key, lookup, insert}
use mindmint_contracts.Host.Call.{Address, Env, ok}
use mindmint_contracts.Host.Num.{fits_i128, fits_u64}
use mindmint_contracts.Host.Tokens.Ledger.{Balances, ledger, ledger-IsTokens, balance_of, move}
use mindmint_contracts.FlashLoan
use mindmint_contracts.FlashLoan.{
  Storage, Callback, LiquidityPool, assert_admin, assert_not_paused, assert_not_reentrant,
  set_reentrancy_guard, get_or_create_pool, update_analytics,
}
use mindmint_contracts.FlashLoan.Pools.{
  add_liquidity, remove_liquidity, withdraw_fees, flash_loan, open_loan, close_loan, run_loan,
}
use mindmint_contracts.FlashLoan.Pools.Books.{available, fee_due, max_loan}
use mindmint_contracts.FlashLoan.Pools.Entry.{Request, serve}
use mindmint_contracts.FlashLoan.Pools.Loans.{IsCallback, loan_repaid}
use mindmint_contracts.FlashLoan.Pools.Positions.{deposit_replaces_position}
use mindmint_contracts.FlashLoan.Pools.Solvency.{
  Reach, start, next, reached_solvent, withdraw_fees_shortfall,
}

-- The contract is 7, its admin 9; token 5 is lent by 1 to 2, whose callback pays the contract.
abbrev call_at : ℕ → Env
call_at now = record {
  timestamp = now;
  current_contract = 7;
  has_auth = λ a. if a == 7 then false else true;
}

abbrev world : Balances
world = ((5, 1), pos 5000) ∷ ((5, 2), pos 100) ∷ []

-- The borrower pays the principal and the fee back, if it can.
abbrev honest : Callback Balances
honest = record {
  flash_loan_callback = λ w contract borrower token amount fee args.
      elim (move w token borrower 7 (amount +ℤ fee)) [ none ↦ none | some w' ↦ some (true, w') ];
}

honest-IsCallback : IsCallback ledger honest 7
honest-IsCallback = record { keeps = kept }
  where
    kept :
        (w : Balances) (contract borrower token : Address) (amount fee : ℤ) (args : List ℕ)
        (b : Bool) (w' : Balances)
        → honest.flash_loan_callback w contract borrower token amount fee args ≡ some (b, w')
        → (d : Address) → balance_of w d 7 ≤ℤ balance_of w' d 7
    kept w contract borrower token amount fee args b w' h d =
        let paid : move w token borrower 7 (amount +ℤ fee) ≡ some w' = ground arith in
        grind (
          int_laws,
          ledger-IsTokens.transfer_moves w token borrower 7 (amount +ℤ fee) w' paid d 7,
          ledger-IsTokens.transfer_nonneg w token borrower 7 (amount +ℤ fee) w' paid,
        )

abbrev opened : Storage
opened = record FlashLoan.empty {
  config = some (record { admin = 9; fee_bps = 30; max_loan_ratio = 8000; paused = false });
  pool_list = some [];
  analytics = some FlashLoan.no_analytics;
  flash_loan_counter = some 0;
  is_processing = some false;
  paused = some false;
}

abbrev pool : LiquidityPool
pool = record {
  token = 5;
  total_liquidity = pos 4000;
  available_liquidity = pos 4000;
  total_borrowed = pos 0;
  fees_collected = pos 0;
  lenders = 1 ∷ [];
}

abbrev added : Storage
added = record opened {
  pools = (5, pool) ∷ [];
  pool_list = some (5 ∷ []);
  lender_positions = ((5, 1), record { lender = 1; amount = pos 4000; deposit_time = 100 }) ∷ [];
}

abbrev world_added : Balances
world_added = ((5, 1), pos 1000) ∷ ((5, 2), pos 100) ∷ ((5, 7), pos 4000) ∷ []

abbrev lent : Storage
lent = record added {
  pools = (5, record pool { available_liquidity = pos 4006; fees_collected = pos 6 }) ∷ [];
  flash_loan_counter = some 1;
  flash_loan_records =
      (
        1,
        record {
          loan_id = 1;
          borrower = 2;
          token = 5;
          principal = pos 2000;
          fee = pos 6;
          repayment_amount = pos 2006;
          start_time = 200;
          end_time = 200;
          status = FlashLoan.FlashLoanStatus.repaid;
          callback_contract = 8;
        },
      )
      ∷ [];
  analytics = some (record {
    total_loans = 1;
    total_volume_borrowed = pos 2000;
    total_fees_collected = pos 6;
    total_repaid = pos 2006;
    defaulted_loans = 0;
    unique_borrowers = 0;
  });
}

abbrev world_lent : Balances
world_lent = ((5, 1), pos 1000) ∷ ((5, 2), pos 94) ∷ ((5, 7), pos 4006) ∷ []

abbrev fees_taken : Storage
fees_taken = record lent {
  pools =
      (
        5,
        record pool {
          total_liquidity = pos 3994;
          available_liquidity = pos 4006;
          fees_collected = pos 0;
        },
      )
      ∷ [];
}

abbrev world_fees_taken : Balances
world_fees_taken = ((5, 1), pos 1000) ∷ ((5, 2), pos 94) ∷ ((5, 7), pos 4000) ∷ ((5, 9), pos 6) ∷ []

initialize_run :
    serve ledger honest (call_at 50) (Request.initialize 9 30) (FlashLoan.empty, world)
    ≡ ok (opened, world)
unfolding serve FlashLoan.initialize
initialize_run = refl

add_run :
    serve ledger honest (call_at 100) (Request.add_liquidity 1 5 (pos 4000)) (opened, world)
    ≡ ok (added, world_added)
unfolding serve add_liquidity assert_not_paused get_or_create_pool move lookup insert fits_i128 ◌+ℤ◌
    ◌-ℤ◌
add_run = refl

flash_loan_run :
    flash_loan ledger honest (call_at 200) 2 5 (pos 2000) 8 [] (added, world_added)
    ≡ ok (1, lent, world_lent)
unfolding flash_loan assert_not_paused assert_not_reentrant open_loan run_loan close_loan
    set_reentrancy_guard update_analytics move lookup insert fits_i128 fits_u64 ◌+ℤ◌ ◌-ℤ◌ ◌*ℤ◌ ◌/ℤ◌
flash_loan_run = refl

withdraw_run :
    withdraw_fees ledger (call_at 300) 9 5 (pos 6) (lent, world_lent)
    ≡ ok (fees_taken, world_fees_taken)
unfolding withdraw_fees assert_admin move lookup insert fits_i128 ◌+ℤ◌ ◌-ℤ◌
withdraw_run = refl

loan_repaid_example :
    (pos 1 ≤ℤ pos 2000)
    × (pos 2000 ≤ℤ available added 5)
    × (pos 2000 ≤ℤ max_loan added 5)
    × ((d : Address)
        → available lent d
          ≡ (if 5 == d then available added 5 +ℤ fee_due added (pos 2000) else available added d))
    × (balance_of world_added 5 7 +ℤ fee_due added (pos 2000) ≤ℤ balance_of world_lent 5 7)
loan_repaid_example =
    loan_repaid ledger honest (call_at 200) 2 5 (pos 2000) 8 [] added world_added 1 lent world_lent
      flash_loan_run

start_nonneg : (d : Address) → pos 0 ≤ℤ balance_of world d 7
unfolding balance_of lookup
start_nonneg d = ground arith

reached : Reach ledger honest 7 (added, world_added)
reached =
    next (call_at 100) (Request.add_liquidity 1 5 (pos 4000))
      (next (call_at 50) (Request.initialize 9 30) (start world start_nonneg) refl refl tt
        initialize_run)
      refl refl tt add_run

reached_solvent_example : available added 5 ≤ℤ balance_of world_added 5 7
reached_solvent_example =
    reached_solvent ledger honest 7 ledger-IsTokens honest-IsCallback reached 5

withdraw_fees_shortfall_example :
    (move world_lent 5 7 9 (pos 6) ≡ some world_fees_taken)
    × (balance_of world_fees_taken 5 7 ≡ balance_of world_lent 5 7 -ℤ pos 6)
    × ((d : Address) → available fees_taken d ≡ available lent d)
    × (available fees_taken 5 -ℤ balance_of world_fees_taken 5 7
        ≡ available lent 5 -ℤ balance_of world_lent 5 7 +ℤ pos 6)
withdraw_fees_shortfall_example =
    withdraw_fees_shortfall ledger honest 7 ledger-IsTokens honest-IsCallback (call_at 300) 9 5
      (pos 6) lent world_lent fees_taken world_fees_taken refl (omega arith) withdraw_run

abbrev readded : Storage
readded = record added {
  pools = (5, record pool { total_liquidity = pos 4050; available_liquidity = pos 4050 }) ∷ [];
  lender_positions = ((5, 1), record { lender = 1; amount = pos 50; deposit_time = 150 }) ∷ [];
}

abbrev world_readded : Balances
world_readded = ((5, 1), pos 950) ∷ ((5, 2), pos 100) ∷ ((5, 7), pos 4050) ∷ []

readd_run :
    add_liquidity ledger (call_at 150) 1 5 (pos 50) (added, world_added)
    ≡ ok (readded, world_readded)
unfolding add_liquidity assert_not_paused get_or_create_pool move lookup insert fits_i128 ◌+ℤ◌ ◌-ℤ◌
readd_run = refl

deposit_replaces_position_example :
    remove_liquidity ledger (call_at 160) 1 5 (pos 60) (readded, world_readded)
    ≢ ok (added, world_added)
deposit_replaces_position_example =
    deposit_replaces_position ledger (call_at 150) (call_at 160) 1 5 (pos 50) (pos 60) added
      world_added readded world_readded world_readded (added, world_added) readd_run (omega arith)
