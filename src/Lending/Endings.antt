-- ===== src/Lending/Endings.antt =====
-- What `liquidate` and the extension of a loan of contracts/lending/src/lib.rs do when they succeed.
use mindmint_contracts.Base.{ℕ, ◌≡◌, refl, ◌+◌, ◌≤◌, ◌<◌, true, not, some, ltb, leb, ◌==◌, arith}
use mindmint_contracts.Base.Map.{nat_key, lookup, insert, remove}
use mindmint_contracts.Host.Call.{
  Address, Env, Ensures, after_auth, after_panic_if, after_unwrap, Ensures->>=, Ensures-any,
}
use mindmint_contracts.Host.Num.{add_u64, add_u64-Ensures}
use mindmint_contracts.Host.Tokens.{Tokens}
use mindmint_contracts.Lending.{
  Loan, LoanStatus, ExtensionRequest, Storage, Nfts, is_active, transfer_asset, set_loan,
  accrue_interest,
}
use mindmint_contracts.Lending.Interest.{accrue_interest-IsAccrued}
use mindmint_contracts.Lending.Loans.{liquidate, request_extension, approve_extension}
use mindmint_contracts.Lending.Effects.{AllSound, IsLive, active-eq}

module _ {W : Type 0} (t : Tokens W) (n : Nfts W) where
  abbrev pub IsLiquidation : Env → Address → ℕ → Storage → Storage → Type 0
  IsLiquidation e lender i s s' =
      (l : Loan) × (la : Loan) × IsLive e i s l la
      × (e.has_auth lender ≡ true)
      × (l.lender ≡ lender)
      × (l.due_time < e.timestamp)
      × (s' ≡ (
          let s1 = set_loan i (record la { status = LoanStatus.liquidated }) s in
          record s1 { extension_requests = remove i s1.extension_requests }))

  pub liquidate-IsLiquidation :
      (e : Env) (lender : Address) (i : ℕ) (s : Storage) (w : W)
      → AllSound s
      → Ensures (λ r. IsLiquidation e lender i s r.0) (liquidate t n e lender i (s, w))
  unfolding liquidate
  liquidate-IsLiquidation e lender i s w v = after_auth _ e lender _ λ auth.
      after_unwrap _ (lookup i s.loans) _ λ l found.
        after_panic_if _ (not (is_active l.status)) _ _ λ live.
          after_panic_if _ (not (l.lender == lender)) _ _ λ own.
            after_panic_if _ (leb e.timestamp l.due_time) _ _ λ late.
              Ensures->>= _ _ (accrue_interest e l) _
                (accrue_interest-IsAccrued e l (v i l found).owed)
                λ la counted.
                  Ensures->>= _ _
                    (transfer_asset t n w la.collateral_asset e.current_contract la.lender) _
                    (Ensures-any _)
                    λ w1 _. (
                      l,
                      la,
                      record {
                        found = found;
                        live = active-eq l.status (ground arith);
                        counted = counted;
                      },
                      auth,
                      ground arith,
                      ground arith,
                      refl,
                    )

abbrev pub IsApproval : Env → Address → ℕ → Storage → Storage → Type 0
IsApproval e lender i s s' =
    (l : Loan) × (la : Loan) × (q : ExtensionRequest) × IsLive e i s l la
    × (e.has_auth lender ≡ true)
    × (l.lender ≡ lender)
    × (lookup i s.extension_requests ≡ some q)
    × (s' ≡ (
        let s1 =
          set_loan i
            (record la {
              due_time = la.due_time + q.requested_extension_secs;
              extension_secs = la.extension_secs + q.requested_extension_secs;
            })
            s in
        record s1 { extension_requests = remove i s1.extension_requests }))

pub approve_extension-IsApproval :
    (e : Env) (lender : Address) (i : ℕ) (s : Storage)
    → AllSound s
    → Ensures (IsApproval e lender i s) (approve_extension e lender i s)
unfolding approve_extension
approve_extension-IsApproval e lender i s v = after_auth _ e lender _ λ auth.
    after_unwrap _ (lookup i s.loans) _ λ l found.
      after_panic_if _ (not (is_active l.status)) _ _ λ live.
        after_panic_if _ (not (l.lender == lender)) _ _ λ own.
          after_unwrap _ (lookup i s.extension_requests) _ λ q asked.
            after_panic_if _ (not (q.borrower == l.borrower)) _ _ λ same.
              Ensures->>= _ _ (accrue_interest e l) _
                (accrue_interest-IsAccrued e l (v i l found).owed)
                λ la counted.
                  Ensures->>= _ _ (add_u64 la.due_time q.requested_extension_secs) _
                    (add_u64-Ensures _ _ _)
                    λ due r1.
                      Ensures->>= _ _ (add_u64 la.extension_secs q.requested_extension_secs) _
                        (add_u64-Ensures _ _ _)
                        λ secs r2.
                          rw (r1, r2)
                            (
                              l,
                              la,
                              q,
                              record {
                                found = found;
                                live = active-eq l.status (ground arith);
                                counted = counted;
                              },
                              auth,
                              ground arith,
                              asked,
                              refl,
                            )

abbrev pub IsAsked : Env → Address → ℕ → ℕ → Storage → Storage → Type 0
IsAsked e borrower i x s s' =
    (l : Loan) × (q : ExtensionRequest) × (lookup i s.loans ≡ some l)
    × (l.extension_secs + x ≤ l.terms.max_extension_secs)
    × (q.requested_extension_secs ≡ x)
    × (s' ≡ record s { extension_requests = insert i q s.extension_requests })

pub request_extension-IsAsked :
    (e : Env) (borrower : Address) (i x : ℕ) (s : Storage)
    → Ensures (IsAsked e borrower i x s) (request_extension e borrower i x s)
unfolding request_extension
request_extension-IsAsked e borrower i x s = after_auth _ e borrower _ λ auth.
    after_panic_if _ (x == 0) _ _ λ positive. after_unwrap _ (lookup i s.loans) _ λ l found.
      after_panic_if _ (not (is_active l.status)) _ _ λ live.
        after_panic_if _ (not (l.borrower == borrower)) _ _ λ own.
          after_panic_if _ (ltb l.due_time e.timestamp) _ _ λ early.
            Ensures->>= _ _ (add_u64 l.extension_secs x) _ (add_u64-Ensures _ _ _) λ extended r.
              after_panic_if _ (ltb l.terms.max_extension_secs extended) _ _
                λ within. (l, _, found, ground (arith, r), refl, refl)
