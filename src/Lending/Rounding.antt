-- ===== src/Lending/Rounding.antt =====
-- What the rounding of `accrue_interest` of contracts/lending/src/lib.rs does over a short time.
use mindmint_contracts.Base.{ℕ, zero, suc, ◌≡◌, refl, ◌-◌, ◌*◌, ◌≤◌, ◌<◌, arith}
use mindmint_contracts.Base.Int.{pos, pos_part, ◌-ℤ◌, ◌≤ℤ◌, int_laws}
use mindmint_contracts.Host.Call.{Env, ok, ensured}
use mindmint_contracts.Lending.{Loan, accrue_interest, accrual_end}
use mindmint_contracts.Lending.Interest.{accrue_interest-IsAccrued}

-- A whole unit of interest takes a whole unit of time and rate.
below_one : (p duration y : ℕ) → p * 10000 * duration ≤ y → y < duration * 10000 → p ≡ 0
below_one zero duration y h1 h2 = refl
below_one (suc p) duration y h1 h2 = absurd (omega arith)

-- When the principal owed times the rate times the time since interest was last counted is below
-- ten thousand times the loan's term, and the principal owed is not negative, counting interest adds
-- none, but counts the time as paid for.
pub short_interval_free :
    (e : Env) (l la : Loan)
    → accrue_interest e l ≡ ok la
    → pos 0 ≤ℤ l.outstanding_principal
    → l.last_accrual_time ≤ accrual_end e l
    → pos_part l.outstanding_principal
        * l.terms.interest_bps
        * (accrual_end e l - l.last_accrual_time)
      < (l.due_time - l.start_time) * 10000
    → (la.accrued_interest ≡ l.accrued_interest) × (la.last_accrual_time ≡ accrual_end e l)
short_interval_free e l la h owed later short =
    let (same, grown, last, bound) =
      ensured _ (accrue_interest e l) (accrue_interest-IsAccrued e l owed) h in
    let until : la.last_accrual_time ≡ accrual_end e l = ground arith in
    let nothing =
      below_one (pos_part (la.accrued_interest -ℤ l.accrued_interest)) (l.due_time - l.start_time) _
        (rw until at bound) short in
    (grind (int_laws, nothing, grown), until)
