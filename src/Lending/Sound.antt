-- ===== src/Lending/Sound.antt =====
-- What stays true of a loan of contracts/lending/src/lib.rs, through each part of the operations on
-- it.
use mindmint_contracts.Base.{
  ℕ, ◌≡◌, refl, ap, sym, ◌∙◌, ◌↔◌, ◌+◌, ◌≤◌, Bool, true, false, ◌&&◌, leb, if◌then◌else◌, arith,
}
use mindmint_contracts.Base.Int.{ℤ, pos, ◌≤ℤ◌, eqb_ℤ, eq_of_parts}
use native.Mathlib.Nat.{le_trans}
use mindmint_contracts.Host.Call.{Address, Env}
use mindmint_contracts.Lending.{Loan, LoanOffer, LoanStatus, accrual_end, is_active}
use mindmint_contracts.Lending.Interest.{IsAccrued}
use mindmint_contracts.Lending.Loans.{is_paid}
use mindmint_contracts.Lending.Offers.{new_loan}

abbrev pub is_repaid : LoanStatus → Bool
is_repaid LoanStatus.repaid = true
is_repaid _ = false

-- The debt is never negative nor its principal above the loan's; interest is counted up to some
-- time of the loan's term; the term is the agreed one and the extensions, within the maximum; and
-- the loan is repaid when nothing is owed.
pub record IsSound (l : Loan) : Type 0 where
  pub owed : pos 0 ≤ℤ l.outstanding_principal
  pub lent : l.outstanding_principal ≤ℤ l.principal
  pub accrued : pos 0 ≤ℤ l.accrued_interest
  pub begun : l.start_time ≤ l.last_accrual_time
  pub counted : l.last_accrual_time ≤ l.due_time
  pub term : l.due_time ≡ l.start_time + l.terms.duration_secs + l.extension_secs
  pub extended : l.extension_secs ≤ l.terms.max_extension_secs
  pub settled : is_paid l ≡ is_repaid l.status

both_zero_iff :
    (o a : ℤ) → (eqb_ℤ o (pos 0) && eqb_ℤ a (pos 0) ≡ true) ↔ ((o ≡ pos 0) × (a ≡ pos 0))
both_zero_iff o a = (
  λ h. (eq_of_parts o (pos 0) (ground arith), eq_of_parts a (pos 0) (ground arith)),
  λ (h1, h2). rw (h1, h2) refl,
)

is_repaid_iff : (s : LoanStatus) → (is_repaid s ≡ true) ↔ (s ≡ LoanStatus.repaid)
is_repaid_iff LoanStatus.repaid = (λ _. refl, λ _. refl)
is_repaid_iff LoanStatus.active = (λ h. absurd (ground arith), λ h. ap is_repaid h)
is_repaid_iff LoanStatus.liquidated = (λ h. absurd (ground arith), λ h. ap is_repaid h)

pub repaid_iff :
    (l : Loan)
    → is_paid l ≡ is_repaid l.status
    → (l.status ≡ LoanStatus.repaid)
      ↔ ((l.outstanding_principal ≡ pos 0) × (l.accrued_interest ≡ pos 0))
repaid_iff l h = (
  λ e.
      (both_zero_iff l.outstanding_principal l.accrued_interest).0
        (h ∙ (is_repaid_iff l.status).1 e),
  λ e.
      (is_repaid_iff l.status).0
        (sym h ∙ (both_zero_iff l.outstanding_principal l.accrued_interest).1 e),
)

pub new_loan-IsSound :
    (i j : ℕ) (o : LoanOffer) (a : Address) (now : ℕ)
    → pos 1 ≤ℤ o.principal
    → IsSound (new_loan i j o a now (now + o.terms.duration_secs))
new_loan-IsSound i j o a now h = record {
  owed = omega arith;
  lent = omega arith;
  accrued = omega arith;
  begun = omega arith;
  counted = omega arith;
  term = omega arith;
  extended = omega arith;
  settled = ground arith;
}

-- Interest is not counted past the due time.
accrued_time :
    (e : Env) (l : Loan) (last : ℕ)
    → l.last_accrual_time ≤ l.due_time
    → last
      ≡ (if leb (accrual_end e l) l.last_accrual_time then l.last_accrual_time else accrual_end e l)
    → (l.last_accrual_time ≤ last) × (last ≤ l.due_time)
accrued_time e l last h eq = ground arith

still_owed :
    (o a a' : ℤ)
    → pos 0 ≤ℤ o
    → pos 0 ≤ℤ a
    → a ≤ℤ a'
    → eqb_ℤ o (pos 0) && eqb_ℤ a (pos 0) ≡ false
    → eqb_ℤ o (pos 0) && eqb_ℤ a' (pos 0) ≡ false
still_owed o a a' h1 h2 h3 h4 = ground arith

-- An active loan that is not paid stays so.
unsettled :
    (s : LoanStatus) (b b' : Bool)
    → is_active s ≡ true
    → b ≡ is_repaid s
    → (b ≡ false → b' ≡ false)
    → b' ≡ is_repaid s
unsettled LoanStatus.active b b' live h k = k h
unsettled LoanStatus.repaid b b' live h k = absurd (ground arith)
unsettled LoanStatus.liquidated b b' live h k = absurd (ground arith)

pub accrued-IsSound :
    (e : Env) (l l' : Loan) → IsSound l → is_active l.status ≡ true → IsAccrued e l l' → IsSound l'
accrued-IsSound e l l' v live (same, grown, last, bound) = rw same (record {
  owed = v.owed;
  lent = v.lent;
  accrued = omega arith;
  begun = le_trans v.begun (accrued_time e l l'.last_accrual_time v.counted last).0;
  counted = (accrued_time e l l'.last_accrual_time v.counted last).1;
  term = v.term;
  extended = v.extended;
  settled = unsettled l.status _ _ live v.settled (
      still_owed l.outstanding_principal l.accrued_interest l'.accrued_interest v.owed v.accrued
        grown);
})

pub liquidated-IsSound :
    (l : Loan)
    → IsSound l
    → is_active l.status ≡ true
    → IsSound (record l { status = LoanStatus.liquidated })
liquidated-IsSound l v live = record {
  owed = v.owed;
  lent = v.lent;
  accrued = v.accrued;
  begun = v.begun;
  counted = v.counted;
  term = v.term;
  extended = v.extended;
  settled = ground (arith, v.settled);
}

pub extended-IsSound :
    (l : Loan) (x : ℕ)
    → IsSound l
    → l.extension_secs + x ≤ l.terms.max_extension_secs
    → IsSound (record l { due_time = l.due_time + x; extension_secs = l.extension_secs + x })
extended-IsSound l x v h = record {
  owed = v.owed;
  lent = v.lent;
  accrued = v.accrued;
  begun = v.begun;
  counted = omega arith;
  term = omega arith;
  extended = h;
  settled = v.settled;
}
