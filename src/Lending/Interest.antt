-- ===== src/Lending/Interest.antt =====
-- What `accrue_interest` of contracts/lending/src/lib.rs adds to a loan.
use mindmint_contracts.Base.{
  ℕ, ◌≡◌, refl, ◌-◌, ◌*◌, ◌/◌, ◌≤◌, ◌<◌, ◌||◌, leb, ◌==◌, if◌then◌else◌, arith, inl, inr,
  Bool-cases, false,
}
use mindmint_contracts.Base.Int.{
  pos, pos_part, ◌+ℤ◌, ◌-ℤ◌, ◌*ℤ◌, ◌≤ℤ◌, eqb_ℤ, int_laws, eq-pos_part, *ℤ_pos, /ℤ_pos,
}
use native.Mathlib.Nat.{mul-le-mul_right, div-mul-le_self, le_trans}
use mindmint_contracts.Host.Call.{Env, ok, ◌>>=◌, Ensures, Ensures->>=, Ensures-mono}
use mindmint_contracts.Host.Num.{
  mul_i128, div_i128, add_i128, sub_u64, checked-Ensures, div_i128-Ensures, sub_u64-Ensures,
}
use mindmint_contracts.Lending.{Loan, interest, accrue_interest, accrual_end, basis_points}

-- The exact interest, rounded down twice.
abbrev share : ℕ → ℕ → ℕ → ℕ → ℕ
share outstanding bps delta duration = outstanding * bps * delta / duration / 10000

interest-Ensures :
    (l : Loan) (o delta duration : ℕ)
    → l.outstanding_principal ≡ pos o
    → 0 < duration
    → Ensures
        (λ r. r ≡ pos (share o l.terms.interest_bps delta duration))
        (interest l delta duration)
unfolding interest
interest-Ensures l o delta duration out positive =
    Ensures->>= _ _ (mul_i128 l.outstanding_principal (pos l.terms.interest_bps)) _
      (checked-Ensures _ (l.outstanding_principal *ℤ pos l.terms.interest_bps))
      λ rated r1.
        Ensures->>= _ _ (mul_i128 rated (pos delta)) _ (checked-Ensures _ (rated *ℤ pos delta))
          λ timed r2.
            Ensures->>= _ _ (div_i128 timed (pos duration)) _
              (div_i128-Ensures _ timed duration positive)
              λ shared r3.
                Ensures-mono _ _ (div_i128 shared basis_points)
                  (div_i128-Ensures _ shared 10000 (omega arith))
                  λ r r4. rw (r4, r3, r2, r1, out, *ℤ_pos, *ℤ_pos, /ℤ_pos, /ℤ_pos) refl

share-bound :
    (outstanding bps delta duration : ℕ)
    → 0 < duration
    → share outstanding bps delta duration * 10000 * duration ≤ outstanding * bps * delta
share-bound outstanding bps delta duration h =
    let a = outstanding * bps * delta in
    let rounded = mul-le-mul_right duration (div-mul-le_self (a / duration) 10000) in
    let whole = div-mul-le_self a duration in le_trans rounded whole

-- What accruing interest does to a loan: interest is added for the time that is covered now and was
-- not before, and nothing else changes.
abbrev pub IsAccrued : Env → Loan → Loan → Type 0
IsAccrued e l l' =
    (l' ≡ record l {
      accrued_interest = l'.accrued_interest;
      last_accrual_time = l'.last_accrual_time;
    })
    × (l.accrued_interest ≤ℤ l'.accrued_interest)
    × (l'.last_accrual_time ≡ (
        if leb (accrual_end e l) l.last_accrual_time then l.last_accrual_time else accrual_end e l))
    × (pos_part (l'.accrued_interest -ℤ l.accrued_interest) * 10000 * (l.due_time - l.start_time)
        ≤ pos_part l.outstanding_principal
          * l.terms.interest_bps
          * (l'.last_accrual_time - l.last_accrual_time))

-- The three ways of `accrue_interest`.
unmoved-IsAccrued :
    (e : Env) (l : Loan) (last : ℕ)
    → last
      ≡ (if leb (accrual_end e l) l.last_accrual_time then l.last_accrual_time else accrual_end e l)
    → IsAccrued e l (record l { last_accrual_time = last })
unmoved-IsAccrued e l last h =
    let same : l.accrued_interest -ℤ l.accrued_interest ≡ pos 0 = omega int_laws in
    (refl, omega arith, h, rw same (omega arith))

grown-IsAccrued :
    (e : Env) (l : Loan) (o : ℕ)
    → l.outstanding_principal ≡ pos o
    → leb (accrual_end e l) l.last_accrual_time ≡ false
    → 0 < l.due_time - l.start_time
    → IsAccrued e l (record l {
      accrued_interest =
          l.accrued_interest
          +ℤ pos (
              share o l.terms.interest_bps
                (accrual_end e l - l.last_accrual_time)
                (l.due_time - l.start_time));
      last_accrual_time = accrual_end e l;
    })
grown-IsAccrued e l o out late positive =
    let x =
      share o l.terms.interest_bps (accrual_end e l - l.last_accrual_time)
        (l.due_time - l.start_time) in
    let added : l.accrued_interest +ℤ pos x -ℤ l.accrued_interest ≡ pos x = omega int_laws in
    (
      refl,
      omega int_laws,
      ground arith,
      rw (added, out)
          (share-bound o l.terms.interest_bps (accrual_end e l - l.last_accrual_time)
            (l.due_time - l.start_time) positive),
    )

abbrev at_end : Env → Loan → Loan
at_end e l = record l { last_accrual_time = accrual_end e l }

charged-IsAccrued :
    (e : Env) (l : Loan) (o delta duration : ℕ)
    → l.outstanding_principal ≡ pos o
    → leb (accrual_end e l) l.last_accrual_time ≡ false
    → duration ≡ l.due_time - l.start_time
    → delta ≡ accrual_end e l - l.last_accrual_time
    → 0 < duration
    → Ensures (IsAccrued e l) (
        interest l delta duration >>= λ added. add_i128 l.accrued_interest added >>= λ accrued.
        ok (record (at_end e l) { accrued_interest = accrued }))
charged-IsAccrued e l o delta duration out late dur del positive =
    Ensures->>= _ _ (interest l delta duration) _ (interest-Ensures l o delta duration out positive)
      λ added r1.
        Ensures->>= _ _ (add_i128 l.accrued_interest added) _
          (checked-Ensures _ (l.accrued_interest +ℤ added))
          λ accrued r2. rw (r2, r1, del, dur) (grown-IsAccrued e l o out late (omega arith))

pub accrue_interest-IsAccrued :
    (e : Env) (l : Loan)
    → pos 0 ≤ℤ l.outstanding_principal
    → Ensures (IsAccrued e l) (accrue_interest e l)
unfolding accrue_interest
accrue_interest-IsAccrued e l held = elim (Bool-cases (leb (accrual_end e l) l.last_accrual_time)) [
  | inl early ↦ rw early (unmoved-IsAccrued e l l.last_accrual_time (rw early refl))
  | inr late ↦ rw late (
      Ensures->>= _ _ (sub_u64 l.due_time l.start_time) _ (sub_u64-Ensures _ _ _) λ duration dur.
        elim (Bool-cases (duration == 0 || eqb_ℤ l.outstanding_principal (pos 0))) [
          | inl none_due ↦ rw none_due (unmoved-IsAccrued e l (accrual_end e l) (rw late refl))
          | inr some_due ↦ rw some_due (
              Ensures->>= _ _ (sub_u64 (accrual_end e l) l.last_accrual_time) _
                (sub_u64-Ensures _ _ _)
                λ delta del.
                  charged-IsAccrued e l (pos_part l.outstanding_principal) delta duration
                    (eq-pos_part l.outstanding_principal held) late dur del (ground arith))
        ])
]
