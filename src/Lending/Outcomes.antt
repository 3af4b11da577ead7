-- ===== src/Lending/Outcomes.antt =====
-- What a call of contracts/lending/src/lib.rs makes of a loan, and which loans it leaves alone.
use mindmint_contracts.Base.{
  ℕ, ◌≡◌, ◌≢◌, ◌⊎◌, refl, ap, sym, ◌∙◌, ◌-◌, ◌*◌, ◌≤◌, ◌<◌, true, none, some, get_or, arith, inl,
  inr,
}
use mindmint_contracts.Base.Int.{ℤ, pos, pos_part, ◌+ℤ◌, ◌-ℤ◌, ◌≤ℤ◌, int_laws}
use mathlib.Core.Path.{subst}
use mindmint_contracts.Base.Map.{nat_key, lookup, insert}
use mindmint_contracts.Base.Map.Laws.{lookup-insert_self, lookup-insert_ne, lookup-remove}
use mindmint_contracts.Host.Call.{Address, Env, ok, Ensures, Ensures->>=, Ensures-mono, ensured}
use mindmint_contracts.Host.Tokens.{Tokens}
use mindmint_contracts.Lending.{Loan, LoanStatus, Storage, Nfts}
use mindmint_contracts.Lending.Effects.{IsLive, after_payment, repay-IsRepayment}
use mindmint_contracts.Lending.Endings.{
  liquidate-IsLiquidation, approve_extension-IsApproval, request_extension-IsAsked,
}
use mindmint_contracts.Lending.Openings.{
  create_offer-IsOffered, cancel_offer-IsCancelled, accept_offer-IsTaken,
}
use mindmint_contracts.Lending.Offers
use mindmint_contracts.Lending.Loans
use mindmint_contracts.Lending.Loans.{is_paid}
use mindmint_contracts.Lending.Payments.{IsEnded, IsReturned}
use mindmint_contracts.Lending.Entry.{Request, serve}
use mindmint_contracts.Lending.Valid.{IsValid}
use mindmint_contracts.Lending.Reach.{Reach, reached-IsValid}

-- What a loan owes, as counted so far.
abbrev pub total_due : Loan → ℤ
total_due l = l.outstanding_principal +ℤ l.accrued_interest

-- A loan that has ended is not the one that an operation on an active loan writes.
set_loan-kept :
    (e : Env) (i j : ℕ) (s : Storage) (l k ka new : Loan)
    → IsLive e j s k ka
    → lookup i s.loans ≡ some l
    → l.status ≢ LoanStatus.active
    → lookup i (insert j new s.loans) ≡ some l
set_loan-kept e i j s l k ka new live found ended =
    let other : j ≢ i = λ same. ended (
      ap {A = Loan} (λ k. k.status)
        (ap (λ o. get_or o l) (sym found ∙ ap (λ c. lookup c s.loans) (sym same) ∙ live.found))
      ∙ live.live) in
    rw (lookup-insert_ne j i new s.loans other) found

module _ {W : Type 0} (t : Tokens W) (n : Nfts W) where
  -- What follows the payment to the lender, which makes `l'` of the loan `l`.
  abbrev pub IsClosed : Env → Loan → Loan → W → W → Type 0
  IsClosed e l l' w w' =
      ((l'.status ≡ LoanStatus.active) × (pos 1 ≤ℤ total_due l') × (w' ≡ w))
      ⊎ ((l'.status ≡ LoanStatus.repaid) × (total_due l' ≡ pos 0) × IsReturned t n e l w w')

  ended-IsClosed :
      (e : Env) (l lp : Loan) (w w' : W)
      → pos 0 ≤ℤ lp.accrued_interest
      → pos 0 ≤ℤ lp.outstanding_principal
      → IsEnded t n e (is_paid lp) l w w'
      → IsClosed e l (after_payment lp) w w'
  ended-IsClosed e l lp w w' h1 h2 (inl (unpaid, kept)) =
      inl (ground arith, grind (int_laws, unpaid, h1, h2), kept)
  ended-IsClosed e l lp w w' h1 h2 (inr (paid, back)) =
      inr (ground arith, grind (int_laws, paid), back)

  -- A repayment that succeeds in a reached state was made and authorised by the borrower of an
  -- active loan; the amount goes from the borrower to the lender; then, if nothing is owed any
  -- more, the loan is repaid, the collateral goes from the contract to the borrower and a lent NFT
  -- from the borrower to the lender, and otherwise the loan stays active; nothing else is moved;
  -- what the loan owes is first raised by the interest counted now, whose product with ten thousand
  -- and the loan's term is at most the principal owed times the rate times the time counted, and
  -- then lowered by exactly the amount; the principal owed changes only if no interest is left;
  -- every other loan is as it was.
  pub repay_effect :
      (e : Env) (b : Address) (i : ℕ) (x : ℤ) (s : Storage) (w : W) (s' : Storage) (w' : W)
      → Reach t n (s, w)
      → Loans.repay t n e b i x (s, w) ≡ ok (s', w')
      → (l : Loan) × (l' : Loan) × (due : ℤ) × (lookup i s.loans ≡ some l)
        × (lookup i s'.loans ≡ some l')
        × (e.has_auth b ≡ true)
        × (l.borrower ≡ b)
        × (l.status ≡ LoanStatus.active)
        × ((w1 : W) × (t.transfer w l.repayment_token b l.lender x ≡ some w1)
            × IsClosed e l l' w1 w')
        × (total_due l ≤ℤ due)
        × (pos_part (due -ℤ total_due l) * 10000 * (l.due_time - l.start_time)
            ≤ pos_part l.outstanding_principal
              * l.terms.interest_bps
              * (l'.last_accrual_time - l.last_accrual_time))
        × (total_due l' +ℤ x ≡ due)
        × (l'.outstanding_principal ≡ l.outstanding_principal ⊎ l'.accrued_interest ≡ pos 0)
        × ((j : ℕ) → i ≢ j → lookup j s'.loans ≡ lookup j s.loans)
  repay_effect e b i x s w s' w' r h =
      let (l, la, lp, live, auth, own, positive, (w1, moved, ended), paid, stored) =
        ensured _ (Loans.repay t n e b i x (s, w))
          (repay-IsRepayment t n e b i x s w (reached-IsValid t n r).sound) h in
      let (same, grown, last, bound) = live.counted in
      let out : la.outstanding_principal ≡ l.outstanding_principal =
        ap {A = Loan} (λ k. k.outstanding_principal) same in
      let until : lp.last_accrual_time ≡ la.last_accrual_time =
        ap {A = Loan} (λ k. k.last_accrual_time) paid.0 in
      let added : total_due la -ℤ total_due l ≡ la.accrued_interest -ℤ l.accrued_interest =
        grind (int_laws, out) in
      (
        l,
        after_payment lp,
        total_due la,
        live.found,
        rw stored (lookup-insert_self i (after_payment lp) s.loans),
        auth,
        own,
        live.live,
        (w1, moved, ended-IsClosed e l lp w1 w' paid.2 paid.3 ended),
        grind (int_laws, out, grown),
        rw (added, until) bound,
        paid.1,
        subst (λ o. lp.outstanding_principal ≡ o ⊎ lp.accrued_interest ≡ pos 0) out paid.5,
        λ j other. rw stored (lookup-insert_ne i j (after_payment lp) s.loans other),
      )

  -- A liquidation that succeeds in a reached state was authorised by the lender of an active loan
  -- whose due time had passed; afterwards the loan's status is liquidated, its request for an
  -- extension is gone, and every other loan is as it was.
  pub liquidate_effect :
      (e : Env) (a : Address) (i : ℕ) (s : Storage) (w : W) (s' : Storage) (w' : W)
      → Reach t n (s, w)
      → Loans.liquidate t n e a i (s, w) ≡ ok (s', w')
      → (l : Loan) × (l' : Loan) × (lookup i s.loans ≡ some l)
        × (lookup i s'.loans ≡ some l')
        × (e.has_auth a ≡ true)
        × (l.lender ≡ a)
        × (l.status ≡ LoanStatus.active)
        × (l.due_time < e.timestamp)
        × (l'.status ≡ LoanStatus.liquidated)
        × (lookup i s'.extension_requests ≡ none)
        × ((j : ℕ) → i ≢ j → lookup j s'.loans ≡ lookup j s.loans)
  liquidate_effect e a i s w s' w' r h =
      let (l, la, live, auth, own, late, stored) =
        ensured _ (Loans.liquidate t n e a i (s, w))
          (liquidate-IsLiquidation t n e a i s w (reached-IsValid t n r).sound) h in
      let ended : Loan = record la { status = LoanStatus.liquidated } in
      (
        l,
        ended,
        live.found,
        rw stored (lookup-insert_self i ended s.loans),
        auth,
        own,
        live.live,
        late,
        refl,
        rw stored (rw lookup-remove (ground arith)),
        λ j other. rw stored (lookup-insert_ne i j ended s.loans other),
      )

  serve-kept :
      (e : Env) (q : Request) (s : Storage) (w : W) (i : ℕ) (l : Loan)
      → IsValid s
      → lookup i s.loans ≡ some l
      → l.status ≢ LoanStatus.active
      → Ensures (λ st. lookup i st.0.loans ≡ some l) (serve t n e q (s, w))
  unfolding serve
  serve-kept e (Request.create_offer a lent pledged d x terms) s w i l v found ended =
      Ensures->>= _ _ (Offers.create_offer t n e a lent pledged d x terms (s, w)) _
        (create_offer-IsOffered t n e a lent pledged d x terms s w)
        λ r (j, o, positive, stored). rw stored found
  serve-kept e (Request.cancel_offer a j) s w i l v found ended =
      Ensures-mono _ _ (Offers.cancel_offer t n e a j (s, w))
        (cancel_offer-IsCancelled t n e a j s w) λ r (o, _, _, _, _, stored). rw stored found
  serve-kept e (Request.accept_offer a j) s w i l v found ended =
      Ensures->>= _ _ (Offers.accept_offer t n e a j (s, w)) _ (accept_offer-IsTaken t n e a j s w)
        λ r (o, _, _, _, id, stored).
          let known = v.counted i l found in
          rw stored (rw (lookup-insert_ne r.0 i _ s.loans (ground (arith, known, id))) found)
  serve-kept e (Request.repay a j x) s w i l v found ended =
      Ensures-mono _ _ (Loans.repay t n e a j x (s, w)) (repay-IsRepayment t n e a j x s w v.sound)
        λ r (k, ka, kp, live, _, _, _, _, paid, stored).
          rw stored (set_loan-kept e i j s l k ka (after_payment kp) live found ended)
  serve-kept e (Request.liquidate a j) s w i l v found ended =
      Ensures-mono _ _ (Loans.liquidate t n e a j (s, w))
        (liquidate-IsLiquidation t n e a j s w v.sound)
        λ r (k, ka, live, _, _, _, stored).
          rw stored (set_loan-kept e i j s l k ka _ live found ended)
  serve-kept e (Request.request_extension a j x) s w i l v found ended =
      Ensures->>= _ _ (Loans.request_extension e a j x s) _ (request_extension-IsAsked e a j x s)
        λ r (k, q, _, within, asked, stored). rw stored found
  serve-kept e (Request.approve_extension a j) s w i l v found ended =
      Ensures->>= _ _ (Loans.approve_extension e a j s) _
        (approve_extension-IsApproval e a j s v.sound)
        λ r (k, ka, q, live, _, _, asked, stored).
          rw stored (set_loan-kept e i j s l k ka _ live found ended)

  -- A loan of a reached state that is no longer active is left exactly as it is by every request
  -- that succeeds.
  pub finished_stays :
      {st st' : Storage × W} (e : Env) (q : Request) (i : ℕ) (l : Loan)
      → Reach t n st
      → lookup i st.0.loans ≡ some l
      → l.status ≢ LoanStatus.active
      → serve t n e q st ≡ ok st'
      → lookup i st'.0.loans ≡ some l
  finished_stays {st = st} e q i l r found ended h =
      ensured (λ st'. lookup i st'.0.loans ≡ some l) (serve t n e q st)
        (serve-kept e q st.0 st.1 i l (reached-IsValid t n r) found ended) h
