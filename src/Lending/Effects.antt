-- ===== src/Lending/Effects.antt =====
-- What `repay` of contracts/lending/src/lib.rs does when it succeeds.
use mindmint_contracts.Base.{
  ℕ, ◌≡◌, refl, ap, ◌∙◌, true, false, not, some, ◌==◌, if◌then◌else◌, arith,
}
use mathlib.Core.Path.{subst}
use mindmint_contracts.Base.Int.{ℤ, pos, ◌+ℤ◌, ◌≤ℤ◌, ltb_ℤ, leb_ℤ}
use mindmint_contracts.Base.Map.{nat_key, lookup}
use mindmint_contracts.Host.Call.{
  Address, Env, ok, ◌>>=◌, panic_if, invoke, Ensures, after_auth, after_panic_if, after_unwrap,
  after_invoke, Ensures->>=,
}
use mindmint_contracts.Host.Num.{add_i128, checked-Ensures}
use mindmint_contracts.Host.Tokens.{Tokens}
use mindmint_contracts.Lending.{
  Loan, LoanStatus, Storage, Error, Nfts, is_active, set_loan, accrue_interest,
}
use mindmint_contracts.Lending.Interest.{IsAccrued, accrue_interest-IsAccrued}
use mindmint_contracts.Lending.Loans.{pay_interest, pay_principal, is_paid, settle, repay}
use mindmint_contracts.Lending.Sound.{IsSound, accrued-IsSound}
use mindmint_contracts.Lending.Payments.{
  IsPaid, pay_interest-InterestPaid, pay_principal-IsPaid, settle_lem, IsEnded,
}

pub active-eq : (s : LoanStatus) → is_active s ≡ true → s ≡ LoanStatus.active
active-eq LoanStatus.active h = refl
active-eq LoanStatus.repaid h = absurd (ground arith)
active-eq LoanStatus.liquidated h = absurd (ground arith)

-- The stored loans are sound.
abbrev pub AllSound : Storage → Type 0
AllSound s = (i : ℕ) (l : Loan) → lookup i s.loans ≡ some l → IsSound l

-- A loan before an operation on it, and with its interest counted.
pub record IsLive (e : Env) (i : ℕ) (s : Storage) (l la : Loan) : Type 0 where
  pub found : lookup i s.loans ≡ some l
  pub live : l.status ≡ LoanStatus.active
  pub counted : IsAccrued e l la

-- The loan after a payment.
abbrev pub after_payment : Loan → Loan
after_payment l = record l { status = if is_paid l then LoanStatus.repaid else LoanStatus.active }

module _ {W : Type 0} (t : Tokens W) (n : Nfts W) where
  abbrev pub IsRepayment : Env → Address → ℕ → ℤ → Storage → W → Storage × W → Type 0
  IsRepayment e borrower i x s w (s', w') =
      (l : Loan) × (la : Loan) × (lp : Loan) × IsLive e i s l la
      × (e.has_auth borrower ≡ true)
      × (l.borrower ≡ borrower)
      × (pos 1 ≤ℤ x)
      × ((w1 : W) × (t.transfer w l.repayment_token borrower l.lender x ≡ some w1)
          × IsEnded t n e (is_paid lp) l w1 w')
      × IsPaid x la lp
      × (s' ≡ set_loan i (after_payment lp) s)

  -- The part of a repayment after the interest is counted.
  paying :
      (e : Env) (borrower : Address) (i : ℕ) (x : ℤ) (s : Storage) (w : W) (l la : Loan)
      → IsSound l
      → lookup i s.loans ≡ some l
      → e.has_auth borrower ≡ true
      → leb_ℤ x (pos 0) ≡ false
      → not (is_active l.status) ≡ false
      → not (l.borrower == borrower) ≡ false
      → IsAccrued e l la
      → Ensures {A = Storage × W} (IsRepayment e borrower i x s w) (
          add_i128 la.outstanding_principal la.accrued_interest >>= λ due.
          panic_if (ltb_ℤ due x) Error.exceeds_due >>= λ _.
          invoke (t.transfer w la.repayment_token borrower la.lender x) >>= λ w1.
          pay_interest x la >>= λ lowered. pay_principal lowered >>= λ paid.
          settle t n e paid w1 >>= λ r. ok (set_loan i r.0 s, r.1))
  paying e borrower i x s w l la v found auth positive live own counted =
      let active = active-eq l.status (ground arith) in
      let va = accrued-IsSound e l la v (ground arith) counted in
      Ensures->>= _ _ (add_i128 la.outstanding_principal la.accrued_interest) _
        (checked-Ensures _ (la.outstanding_principal +ℤ la.accrued_interest))
        λ due eq. after_panic_if _ (ltb_ℤ due x) _ _ λ enough.
          after_invoke _ (t.transfer w la.repayment_token borrower la.lender x) _ λ w1 moved.
            let lender_paid : t.transfer w l.repayment_token borrower l.lender x ≡ some w1 =
              subst (λ (k : Loan). t.transfer w k.repayment_token borrower k.lender x ≡ some w1)
                counted.0 moved in
            let status : la.status ≡ LoanStatus.active =
              ap {A = Loan} (λ k. k.status) counted.0 ∙ active in
            Ensures->>= _ _ (pay_interest x la) _
              (pay_interest-InterestPaid x la va.accrued (ground arith))
              λ (l1, rest) lowered.
                Ensures->>= _ _ (pay_principal (l1, rest)) _
                  (pay_principal-IsPaid x rest la l1 va.owed (ground (arith, eq)) lowered)
                  λ lp paid.
                    Ensures->>= _ _ (settle t n e lp w1) _ (settle_lem t n e lp w1)
                      λ r (settled, ended).
                        let same : lp.status ≡ LoanStatus.active =
                          ap {A = Loan} (λ k. k.status) paid.0 ∙ status in
                        let returned : IsEnded t n e (is_paid lp) l w1 r.1 =
                          subst (λ k. IsEnded t n e (is_paid lp) k w1 r.1) counted.0
                            (subst (λ k. IsEnded t n e (is_paid lp) k w1 r.1) paid.0 ended) in
                        (
                          l,
                          la,
                          lp,
                          record { found = found; live = active; counted = counted },
                          auth,
                          ground arith,
                          ground arith,
                          (w1, lender_paid, returned),
                          paid,
                          ap (λ k. set_loan i k s)
                              (settled
                                ∙ ap {A = LoanStatus}
                                    (λ st. record lp {
                                      status = if is_paid lp then LoanStatus.repaid else st;
                                    })
                                    same),
                        )

  pub repay-IsRepayment :
      (e : Env) (borrower : Address) (i : ℕ) (x : ℤ) (s : Storage) (w : W)
      → AllSound s
      → Ensures (IsRepayment e borrower i x s w) (repay t n e borrower i x (s, w))
  unfolding repay
  repay-IsRepayment e borrower i x s w v = after_auth _ e borrower _ λ auth.
      after_panic_if _ (leb_ℤ x (pos 0)) _ _ λ positive.
        after_unwrap _ (lookup i s.loans) _ λ l found.
          after_panic_if _ (not (is_active l.status)) _ _ λ live.
            after_panic_if _ (not (l.borrower == borrower)) _ _ λ own.
              Ensures->>= _ _ (accrue_interest e l) _
                (accrue_interest-IsAccrued e l (v i l found).owed)
                λ la counted.
                  paying e borrower i x s w l la (v i l found) found auth positive live own counted
