-- ===== src/Lending/Tests.antt =====
-- Runs of the lending contract, and its theorems at concrete inputs.
use mindmint_contracts.Base.{
  ℕ, ◌≡◌, ◌≢◌, ◌⊎◌, ◌↔◌, ◌+◌, ◌-◌, ◌*◌, ◌≤◌, ◌<◌, refl, true, none, some, arith,
}
use mindmint_contracts.Base.Int.{ℤ, pos, pos_part, ◌+ℤ◌, ◌-ℤ◌, ◌*ℤ◌, ◌/ℤ◌, ◌≤ℤ◌}
use mindmint_contracts.Base.Map.{nat_key, pair_key, lookup, insert, remove}
use mindmint_contracts.Host.Call.{ok}
use mindmint_contracts.Host.Num.{fits_i128, fits_u64}
use mindmint_contracts.Host.Tokens.Ledger.{Balances, ledger, move}
use mindmint_contracts.Lending
use mindmint_contracts.Lending.{
  Asset, AssetType, LoanTerms, LoanOffer, OfferStatus, Loan, LoanStatus, Storage, Nfts,
  accrue_interest, interest, transfer_asset, validate_asset,
}
use mindmint_contracts.Lending.Offers.{check_loan_asset, create_offer, accept_offer}
use mindmint_contracts.Lending.Loans.{pay_interest, pay_principal, settle, repay, liquidate}
use mindmint_contracts.Lending.Entry.{Request, serve}
use mindmint_contracts.Lending.Reach.{Reach, start, next, reached_loan}
use mindmint_contracts.Lending.Outcomes.{
  total_due, IsClosed, repay_effect, liquidate_effect, finished_stays,
}
use mindmint_contracts.Lending.Rounding.{short_interval_free}
use mindmint_contracts.Lending.Samples.{
  call_at, nfts, lent, pledged, terms, loan, world, world_lent, offered, world_offered, with_loan,
  taken, half_paid, all_paid, seized, world_seized, reoffered,
}

create_run :
    serve ledger nfts
      (call_at 100)
      (Request.create_offer 1 lent pledged 5 (pos 1000) terms)
      (Lending.empty, world 1000 200 50)
    ≡ ok (offered, world_offered)
unfolding serve create_offer validate_asset check_loan_asset transfer_asset move lookup insert
    fits_u64 ◌+ℤ◌ ◌-ℤ◌
create_run = refl

accept_run :
    serve ledger nfts (call_at 200) (Request.accept_offer 2 1) (offered, world_offered)
    ≡ ok (with_loan taken, world_lent 0 1200 0 0 50)
unfolding serve accept_offer transfer_asset move lookup insert fits_u64 ◌+ℤ◌ ◌-ℤ◌
accept_run = refl

repay_run :
    repay ledger nfts (call_at 700) 2 1 (pos 300) (with_loan taken, world_lent 0 1200 0 0 50)
    ≡ ok (with_loan half_paid, world_lent 300 900 0 0 50)
unfolding repay accrue_interest interest pay_interest pay_principal settle move lookup insert
    fits_i128 ◌+ℤ◌ ◌-ℤ◌ ◌*ℤ◌ ◌/ℤ◌
repay_run = refl

repay_all_run :
    serve ledger nfts
      (call_at 1500)
      (Request.repay 2 1 (pos 787))
      (with_loan half_paid, world_lent 300 900 0 0 50)
    ≡ ok (with_loan all_paid, world_lent 1087 113 50 0 0)
unfolding serve repay accrue_interest interest pay_interest pay_principal settle transfer_asset move
    lookup insert fits_i128 ◌+ℤ◌ ◌-ℤ◌ ◌*ℤ◌ ◌/ℤ◌
repay_all_run = refl

liquidate_run :
    liquidate ledger nfts (call_at 1300) 1 1 (with_loan taken, world_lent 0 1200 0 0 50)
    ≡ ok (with_loan seized, world_seized)
unfolding liquidate accrue_interest interest transfer_asset move lookup insert remove fits_i128 ◌+ℤ◌
    ◌-ℤ◌ ◌*ℤ◌ ◌/ℤ◌
liquidate_run = refl

create_again_run :
    serve ledger nfts
      (call_at 1600)
      (Request.create_offer 1 lent pledged 5 (pos 1000) terms)
      (with_loan all_paid, world_lent 1087 113 50 0 0)
    ≡ ok (reoffered, world_lent 87 113 50 1000 0)
unfolding serve create_offer validate_asset check_loan_asset transfer_asset move lookup insert
    fits_u64 ◌+ℤ◌ ◌-ℤ◌
create_again_run = refl

reached_taken : Reach ledger nfts (with_loan taken, world_lent 0 1200 0 0 50)
reached_taken =
    next (call_at 200) (Request.accept_offer 2 1)
      (next (call_at 100) (Request.create_offer 1 lent pledged 5 (pos 1000) terms)
        (start (world 1000 200 50)) create_run)
      accept_run

reached_paid : Reach ledger nfts (with_loan all_paid, world_lent 1087 113 50 0 0)
unfolding serve
reached_paid =
    next (call_at 1500) (Request.repay 2 1 (pos 787))
      (next (call_at 700) (Request.repay 2 1 (pos 300)) reached_taken repay_run) repay_all_run

find_loan : (l : Loan) → lookup 1 (with_loan l).loans ≡ some l
unfolding lookup
find_loan l = refl

reached_loan_example :
    (pos 0 ≤ℤ pos 0)
    × (pos 0 ≤ℤ pos 1000)
    × (pos 0 ≤ℤ pos 0)
    × (200 ≤ 1200)
    × (1200 ≤ 1200)
    × (1200 ≡ 200 + 1000 + 0)
    × (0 ≤ 500)
    × (LoanStatus.repaid ≡ LoanStatus.repaid ↔ (pos 0 ≡ pos 0) × (pos 0 ≡ pos 0))
reached_loan_example = reached_loan ledger nfts reached_paid 1 all_paid (find_loan all_paid)

repay_effect_example :
    (l : Loan) × (l' : Loan) × (due : ℤ) × (lookup 1 (with_loan taken).loans ≡ some l)
    × (lookup 1 (with_loan half_paid).loans ≡ some l')
    × ((call_at 700).has_auth 2 ≡ true)
    × (l.borrower ≡ 2)
    × (l.status ≡ LoanStatus.active)
    × ((w1 : Balances) × (move (world_lent 0 1200 0 0 50) l.repayment_token 2 l.lender (pos 300)
          ≡ some w1)
        × IsClosed ledger nfts (call_at 700) l l' w1 (world_lent 300 900 0 0 50))
    × (total_due l ≤ℤ due)
    × (pos_part (due -ℤ total_due l) * 10000 * (l.due_time - l.start_time)
        ≤ pos_part l.outstanding_principal
          * l.terms.interest_bps
          * (l'.last_accrual_time - l.last_accrual_time))
    × (total_due l' +ℤ pos 300 ≡ due)
    × (l'.outstanding_principal ≡ l.outstanding_principal ⊎ l'.accrued_interest ≡ pos 0)
    × ((j : ℕ) → 1 ≢ j → lookup j (with_loan half_paid).loans ≡ lookup j (with_loan taken).loans)
repay_effect_example =
    repay_effect ledger nfts (call_at 700) 2 1 (pos 300) (with_loan taken)
      (world_lent 0 1200 0 0 50) (with_loan half_paid) (world_lent 300 900 0 0 50) reached_taken
      repay_run

liquidate_effect_example :
    (l : Loan) × (l' : Loan) × (lookup 1 (with_loan taken).loans ≡ some l)
    × (lookup 1 (with_loan seized).loans ≡ some l')
    × ((call_at 1300).has_auth 1 ≡ true)
    × (l.lender ≡ 1)
    × (l.status ≡ LoanStatus.active)
    × (l.due_time < 1300)
    × (l'.status ≡ LoanStatus.liquidated)
    × (lookup 1 (with_loan seized).extension_requests ≡ none)
    × ((j : ℕ) → 1 ≢ j → lookup j (with_loan seized).loans ≡ lookup j (with_loan taken).loans)
liquidate_effect_example =
    liquidate_effect ledger nfts (call_at 1300) 1 1 (with_loan taken) (world_lent 0 1200 0 0 50)
      (with_loan seized) world_seized reached_taken liquidate_run

not_active : LoanStatus.repaid ≢ LoanStatus.active
not_active h = ground arith

finished_stays_example : lookup 1 reoffered.loans ≡ some all_paid
finished_stays_example =
    finished_stays ledger nfts (call_at 1600)
      (Request.create_offer 1 lent pledged 5 (pos 1000) terms) 1 all_paid reached_paid
      (find_loan all_paid) not_active create_again_run

abbrev counted_until : ℕ
counted_until = 209

-- Nine seconds at ten per cent for a term of a thousand seconds.
short_run : accrue_interest (call_at 209) taken ≡ ok (loan (pos 1000) (pos 0) 209 LoanStatus.active)
unfolding accrue_interest interest fits_i128 ◌+ℤ◌ ◌*ℤ◌ ◌/ℤ◌
short_run = refl

short_interval_free_example : (pos 0 ≡ pos 0) × (counted_until ≡ 209)
short_interval_free_example =
    short_interval_free (call_at 209) taken (loan (pos 1000) (pos 0) 209 LoanStatus.active)
      short_run (omega arith) (omega arith) (omega arith)
