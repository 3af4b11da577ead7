-- ===== src/Lending/Reach.antt =====
-- What holds in every state that the entry points of contracts/lending/src/lib.rs reach.
use mindmint_contracts.Base.{ℕ, ◌≡◌, ◌↔◌, refl, ap, sym, ◌∙◌, ◌+◌, ◌≤◌, some, arith}
use mindmint_contracts.Base.Int.{pos, ◌≤ℤ◌}
use mathlib.Core.Path.{subst}
use mindmint_contracts.Base.Map.{nat_key, lookup}
use mindmint_contracts.Host.Call.{Env, ok, Ensures, Ensures->>=, Ensures-mono, ensured}
use mindmint_contracts.Host.Tokens.{Tokens}
use mindmint_contracts.Lending
use mindmint_contracts.Lending.{
  Loan, LoanOffer, LoanStatus, ExtensionRequest, Storage, Call, Nfts, is_active, set_loan,
  set_offer,
}
use mindmint_contracts.Lending.Sound.{
  IsSound, accrued-IsSound, repaid_iff, liquidated-IsSound, extended-IsSound, new_loan-IsSound,
}
use mindmint_contracts.Lending.Effects.{AllSound, IsLive, after_payment, repay-IsRepayment}
use mindmint_contracts.Lending.Endings.{
  liquidate-IsLiquidation, approve_extension-IsApproval, request_extension-IsAsked,
}
use mindmint_contracts.Lending.Payments.{paid-IsSound}
use mindmint_contracts.Lending.Openings.{
  create_offer-IsOffered, cancel_offer-IsCancelled, accept_offer-IsTaken,
}
use mindmint_contracts.Lending.Offers
use mindmint_contracts.Lending.Loans
use mindmint_contracts.Lending.Entry.{Request, serve}
use mindmint_contracts.Lending.Valid.{
  IsValid, set_offer-IsValid, set_loan-IsValid, close_loan-IsValid, add_loan-IsValid, ask-IsValid,
  counted-IsValid,
}

-- What the entry points reach.
pub data Reach {W : Type 0} (t : Tokens W) (n : Nfts W) : Storage × W → Type 0 where
  start : (w : W) → Reach t n (Lending.empty, w)
  next :
      {st st' : Storage × W} (e : Env) (q : Request)
      → Reach t n st
      → serve t n e q st ≡ ok st'
      → Reach t n st'

empty-IsValid : IsValid Lending.empty
unfolding lookup
empty-IsValid = record {
  sound = λ i l e. absurd (ground arith);
  counted = λ i l e. absurd (ground arith);
  positive = λ i o e. absurd (ground arith);
  allowed = λ i q e. absurd (ground arith);
}

live-IsSound :
    (e : Env) (i : ℕ) (s : Storage) (l la : Loan) → AllSound s → IsLive e i s l la → IsSound la
live-IsSound e i s l la v h = accrued-IsSound e l la (v i l h.found) (rw h.live refl) h.counted

module _ {W : Type 0} (t : Tokens W) (n : Nfts W) where
  serve-IsValid :
      (e : Env) (q : Request) (s : Storage) (w : W)
      → IsValid s
      → Ensures (λ st. IsValid st.0) (serve t n e q (s, w))
  unfolding serve
  serve-IsValid e (Request.create_offer a lent pledged d x terms) s w v =
      Ensures->>= _ _ (Offers.create_offer t n e a lent pledged d x terms (s, w)) _
        (create_offer-IsOffered t n e a lent pledged d x terms s w)
        λ r (i, o, positive, stored).
          subst IsValid (sym stored) (set_offer-IsValid i o _ (counted-IsValid i s v) positive)
  serve-IsValid e (Request.cancel_offer a i) s w v =
      Ensures-mono _ _ (Offers.cancel_offer t n e a i (s, w))
        (cancel_offer-IsCancelled t n e a i s w)
        λ r (o, found, _, _, _, stored).
          subst IsValid (sym stored) (set_offer-IsValid i _ s v (v.positive i o found))
  serve-IsValid e (Request.accept_offer a i) s w v =
      Ensures->>= _ _ (Offers.accept_offer t n e a i (s, w)) _ (accept_offer-IsTaken t n e a i s w)
        λ r (o, found, _, _, id, stored). subst IsValid (sym stored) (
          add_loan-IsValid r.0 _ (set_offer i _ s)
            (set_offer-IsValid i _ s v (v.positive i o found)) id
            (new_loan-IsSound r.0 i o a e.timestamp (v.positive i o found)))
  serve-IsValid e (Request.repay a i x) s w v =
      Ensures-mono _ _ (Loans.repay t n e a i x (s, w)) (repay-IsRepayment t n e a i x s w v.sound)
        λ r (l, la, lp, live, _, _, _, _, paid, stored).
          let sound = live-IsSound e i s l la v.sound live in
          subst IsValid (sym stored) (
            set_loan-IsValid i l (after_payment lp) s v live.found (paid-IsSound x la lp sound paid)
              (ap {A = Loan} (λ k. k.extension_secs) paid.0
                ∙ ap {A = Loan} (λ k. k.extension_secs) live.counted.0)
              (ap {A = Loan} (λ k. k.terms) paid.0 ∙ ap {A = Loan} (λ k. k.terms) live.counted.0))
  serve-IsValid e (Request.liquidate a i) s w v =
      Ensures-mono _ _ (Loans.liquidate t n e a i (s, w))
        (liquidate-IsLiquidation t n e a i s w v.sound)
        λ r (l, la, live, _, _, _, stored).
          let sound = live-IsSound e i s l la v.sound live in
          subst IsValid (sym stored) (
            close_loan-IsValid i l _ s v live.found (
              liquidated-IsSound la sound
                (ap {A = Loan} (λ k. is_active k.status) live.counted.0 ∙ ap is_active live.live)))
  serve-IsValid e (Request.request_extension a i x) s w v =
      Ensures->>= _ _ (Loans.request_extension e a i x s) _ (request_extension-IsAsked e a i x s)
        λ r (l, q, found, within, asked, stored).
          subst IsValid (sym stored) (ask-IsValid i l q s v found (rw asked within))
  serve-IsValid e (Request.approve_extension a i) s w v =
      Ensures->>= _ _ (Loans.approve_extension e a i s) _
        (approve_extension-IsApproval e a i s v.sound)
        λ r (l, la, q, live, _, _, asked, stored).
          let sound = live-IsSound e i s l la v.sound live in
          subst IsValid (sym stored) (
            close_loan-IsValid i l _ s v live.found (
              extended-IsSound la q.requested_extension_secs sound (
                subst
                  (λ (k : Loan).
                    k.extension_secs + q.requested_extension_secs ≤ k.terms.max_extension_secs)
                  (sym live.counted.0) (rw live.found at (v.allowed i q asked)))))

  pub reached-IsValid : {st : Storage × W} → Reach t n st → IsValid st.0
  reached-IsValid (start w) = empty-IsValid
  reached-IsValid (next {st = st} e q r h) =
      ensured (λ st'. IsValid st'.0) (serve t n e q st)
        (serve-IsValid e q st.0 st.1 (reached-IsValid r)) h

  -- In every state that the entry points reach from an empty contract, a stored loan owes no less
  -- than nothing and no more of the principal than was lent, its interest is not negative, interest
  -- is counted up to a time between its start and its due time, the due time is the start plus the
  -- agreed duration plus the extensions granted, these are within the agreed maximum, and the
  -- loan's status is repaid exactly when it owes neither principal nor interest.
  pub reached_loan :
      {st : Storage × W}
      → Reach t n st
      → (i : ℕ) (l : Loan) → lookup i st.0.loans ≡ some l
      → (pos 0 ≤ℤ l.outstanding_principal)
        × (l.outstanding_principal ≤ℤ l.principal)
        × (pos 0 ≤ℤ l.accrued_interest)
        × (l.start_time ≤ l.last_accrual_time)
        × (l.last_accrual_time ≤ l.due_time)
        × (l.due_time ≡ l.start_time + l.terms.duration_secs + l.extension_secs)
        × (l.extension_secs ≤ l.terms.max_extension_secs)
        × (l.status ≡ LoanStatus.repaid
            ↔ (l.outstanding_principal ≡ pos 0) × (l.accrued_interest ≡ pos 0))
  reached_loan r i l found =
      let v = (reached-IsValid r).sound i l found in
      (v.owed, v.lent, v.accrued, v.begun, v.counted, v.term, v.extended, repaid_iff l v.settled)
