-- ===== src/Lending/Openings.antt =====
-- What the operations on an offer of contracts/lending/src/lib.rs do when they succeed.
use mindmint_contracts.Base.{ℕ, ◌≡◌, refl, ap, ◌+◌, true, not, some, get_or, ◌==◌, arith}
use mindmint_contracts.Base.Int.{ℤ, pos, ◌≤ℤ◌, leb_ℤ}
use mindmint_contracts.Base.Map.{nat_key, lookup}
use mindmint_contracts.Host.Call.{
  Address, Env, Ensures, Ensures->>=, Ensures-any, after_auth, after_panic_if, after_unwrap,
}
use mindmint_contracts.Host.Num.{add_u64, add_u64-Ensures}
use mindmint_contracts.Host.Tokens.{Tokens}
use mindmint_contracts.Lending.{
  Asset, LoanTerms, LoanOffer, OfferStatus, Storage, Nfts, is_open, validate_asset, transfer_asset,
  next_offer_id, next_loan_id, set_offer, set_loan,
}
use mindmint_contracts.Lending.Offers.{
  check_loan_asset, new_loan, create_offer, cancel_offer, accept_offer,
}

next_offer_id_lem :
    (s : Storage) → Ensures (λ r. r.1 ≡ record s { offer_count = some r.0 }) (next_offer_id s)
next_offer_id_lem s =
    Ensures->>= _ _ (add_u64 (get_or s.offer_count 0) 1) _ (Ensures-any _) λ id _. refl

next_loan_id_lem :
    (s : Storage)
    → Ensures
        (λ r. (r.0 ≡ get_or s.loan_count 0 + 1) × (r.1 ≡ record s { loan_count = some r.0 }))
        (next_loan_id s)
next_loan_id_lem s =
    Ensures->>= _ _ (add_u64 (get_or s.loan_count 0) 1) _ (add_u64-Ensures _ _ _) λ id r. (r, refl)

is_open-eq : (s : OfferStatus) → is_open s ≡ true → s ≡ OfferStatus.«open»
is_open-eq OfferStatus.«open» h = refl
is_open-eq OfferStatus.cancelled h = absurd (ground arith)
is_open-eq OfferStatus.accepted h = absurd (ground arith)

abbrev pub IsOffered : Storage → Storage → Type 0
IsOffered s s' =
    (i : ℕ) × (o : LoanOffer) × (pos 1 ≤ℤ o.principal)
    × (s' ≡ set_offer i o (record s { offer_count = some i }))

abbrev pub IsCancelled : Env → Address → ℕ → Storage → Storage → Type 0
IsCancelled e lender i s s' =
    (o : LoanOffer) × (lookup i s.offers ≡ some o)
    × (e.has_auth lender ≡ true)
    × (o.lender ≡ lender)
    × (o.status ≡ OfferStatus.«open»)
    × (s' ≡ set_offer i (record o { status = OfferStatus.cancelled }) s)

abbrev pub IsTaken : Env → Address → ℕ → Storage → ℕ → Storage → Type 0
IsTaken e borrower i s id s' =
    (o : LoanOffer) × (lookup i s.offers ≡ some o)
    × (e.has_auth borrower ≡ true)
    × (o.status ≡ OfferStatus.«open»)
    × (id ≡ get_or s.loan_count 0 + 1)
    × (s'
        ≡ set_loan id (new_loan id i o borrower e.timestamp (e.timestamp + o.terms.duration_secs)) (
            set_offer i (record o { status = OfferStatus.accepted })
              (record s { loan_count = some id })))

module _ {W : Type 0} (t : Tokens W) (n : Nfts W) where
  pub create_offer-IsOffered :
      (e : Env) (a : Address) (lent pledged : Asset) (d : Address) (x : ℤ) (terms : LoanTerms)
      (s : Storage) (w : W)
      → Ensures (λ r. IsOffered s r.1) (create_offer t n e a lent pledged d x terms (s, w))
  unfolding create_offer
  create_offer-IsOffered e a lent pledged d x terms s w = after_auth _ e a _ λ auth.
      Ensures->>= _ _ (validate_asset lent) _ (Ensures-any _) λ _ _.
        Ensures->>= _ _ (validate_asset pledged) _ (Ensures-any _) λ _ _.
          after_panic_if _ (terms.duration_secs == 0) _ _ λ lasting.
            after_panic_if _ (leb_ℤ x (pos 0)) _ _ λ positive.
              Ensures->>= _ _ (check_loan_asset lent d x) _ (Ensures-any _) λ _ _.
                Ensures->>= _ _ (next_offer_id s) _ (next_offer_id_lem s) λ (id, s1) stored.
                  Ensures->>= _ _ (transfer_asset t n w lent a e.current_contract) _ (Ensures-any _)
                    λ w1 _. (
                      id,
                      record {
                        offer_id = id;
                        lender = a;
                        loan_asset = lent;
                        collateral_asset = pledged;
                        repayment_token = d;
                        principal = x;
                        terms = terms;
                        status = OfferStatus.«open»;
                        created_time = e.timestamp;
                      },
                      ground arith,
                      ap (set_offer id _) stored,
                    )

  pub cancel_offer-IsCancelled :
      (e : Env) (a : Address) (i : ℕ) (s : Storage) (w : W)
      → Ensures (λ r. IsCancelled e a i s r.0) (cancel_offer t n e a i (s, w))
  unfolding cancel_offer
  cancel_offer-IsCancelled e a i s w = after_auth _ e a _ λ auth.
      after_unwrap _ (lookup i s.offers) _ λ o found.
        after_panic_if _ (not (o.lender == a)) _ _ λ own.
          after_panic_if _ (not (is_open o.status)) _ _ λ opened.
            Ensures->>= _ _ (transfer_asset t n w o.loan_asset e.current_contract o.lender) _
              (Ensures-any _)
              λ w1 _. (o, found, auth, ground arith, is_open-eq o.status (ground arith), refl)

  pub accept_offer-IsTaken :
      (e : Env) (a : Address) (i : ℕ) (s : Storage) (w : W)
      → Ensures (λ r. IsTaken e a i s r.0 r.1) (accept_offer t n e a i (s, w))
  unfolding accept_offer
  accept_offer-IsTaken e a i s w = after_auth _ e a _ λ auth.
      after_unwrap _ (lookup i s.offers) _ λ o found.
        after_panic_if _ (not (is_open o.status)) _ _ λ opened.
          Ensures->>= _ _ (transfer_asset t n w o.collateral_asset a e.current_contract) _
            (Ensures-any _)
            λ w1 _. Ensures->>= _ _ (next_loan_id s) _ (next_loan_id_lem s) λ (id, s1) counted.
              Ensures->>= _ _ (add_u64 e.timestamp o.terms.duration_secs) _ (add_u64-Ensures _ _ _)
                λ due r.
                  Ensures->>= _ _ (transfer_asset t n w1 o.loan_asset e.current_contract a) _
                    (Ensures-any _)
                    λ w2 _. rw r (
                      o,
                      found,
                      auth,
                      is_open-eq o.status (ground arith),
                      counted.0,
                      ap
                          (λ s1.
                            set_loan id
                              (new_loan id i o a e.timestamp (e.timestamp + o.terms.duration_secs))
                              (set_offer i (record o { status = OfferStatus.accepted }) s1))
                          counted.1,
                    )
