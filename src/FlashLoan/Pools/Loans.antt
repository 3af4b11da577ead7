-- ===== src/FlashLoan/Pools/Loans.antt =====
-- A flash loan of contracts/flash_loan/src/lib.rs from its checks to its end.
use mindmint_contracts.Base.{
  ℕ, ◌≡◌, ◌≢◌, Bool, true, false, some, if◌then◌else◌, ◌==◌, arith, inl, inr, Option-cases, List,
}
use mindmint_contracts.Base.Int.{ℤ, pos, negsuc, ◌+ℤ◌, ◌≤ℤ◌, int_laws}
use mindmint_contracts.Base.Map.{nat_key}
use mindmint_contracts.Host.Call.{
  Address, Env, ok, Ensures, Ensures->>=, Ensures-mono, Ensures-any, ensured, ◌>>=◌,
}
use mindmint_contracts.Host.Tokens.{Tokens, IsTokens}
use mindmint_contracts.FlashLoan.{Storage, Callback, set_reentrancy_guard}
use mindmint_contracts.FlashLoan.Pools.{Terms, open_loan, run_loan, flash_loan}
use mindmint_contracts.FlashLoan.Pools.Books.{
  available, fee_due, max_loan, Sets, open_loan-Sets, close_loan-Sets,
}

-- The host lets nobody move a contract's tokens without that contract's authorisation, which it
-- gives for its own calls alone: a callback takes nothing from `this`.
pub record IsCallback {W : Type 0} (t : Tokens W) (k : Callback W) (this : Address) : Type 0 where
  pub keeps :
      (w : W) (contract borrower token : Address) (amount fee : ℤ) (args : List ℕ) (b : Bool)
      (w' : W)
      → k.flash_loan_callback w contract borrower token amount fee args ≡ some (b, w')
      → (d : Address) → t.balance w d this ≤ℤ t.balance w' d this

module _ {W : Type 0} (t : Tokens W) (k : Callback W) (e : Env) where
  abbrev own : Address
  own = e.current_contract

  run_loan-Sets :
      (borrower token : Address) (x : ℤ) (callback : Address) (args : List ℕ) (w : W)
      (terms : Terms) (s : Storage)
      → Ensures
          (λ r.
            Sets s token (available s token +ℤ terms.repayment_amount) r.1
            × (t.balance w token own +ℤ terms.fee ≤ℤ t.balance r.2 token own))
          (run_loan t k e borrower token x callback args w terms s)
  unfolding run_loan set_reentrancy_guard
  run_loan-Sets borrower token x callback args w terms s =
      elim (Option-cases (t.transfer w token own borrower x)) [
        | inl refused ↦ ground arith
        | inr (w1, e1) ↦
            elim (Option-cases
              (k.flash_loan_callback w1 callback borrower token x terms.fee args)) [
                | inl failed ↦ ground arith
                | inr (r, e2) ↦ ground (
                  arith,
                  close_loan-Sets e token x terms
                      (set_reentrancy_guard false (set_reentrancy_guard true s)),
                )
              ]
      ]

  module _ (laws : IsTokens t) (calls : IsCallback t k own) where
    run_loan_keeps :
        (borrower token : Address) (x : ℤ) (callback : Address) (args : List ℕ) (w : W)
        (terms : Terms) (s : Storage) (d : Address)
        → token ≢ d
        → Ensures
            (λ r. t.balance w d own ≤ℤ t.balance r.2 d own)
            (run_loan t k e borrower token x callback args w terms s)
    unfolding run_loan
    run_loan_keeps borrower token x callback args w terms s d ne =
        elim (Option-cases (t.transfer w token own borrower x)) [
          | inl refused ↦ ground arith
          | inr (w1, e1) ↦
              elim (Option-cases
                (k.flash_loan_callback w1 callback borrower token x terms.fee args)) [
                  | inl failed ↦ ground arith
                  | inr (r, e2) ↦
                      let kept : t.balance w d own ≤ℤ t.balance r.1 d own = grind (
                        int_laws,
                        laws.transfer_moves w token own borrower x w1 e1 d own,
                        calls.keeps w1 callback borrower token x terms.fee args r.0 r.1 e2 d,
                      ) in
                      ground (arith, kept)
                ]
        ]

  -- What a loan of `x` that succeeds has done to the books and to the contract's own tokens.
  abbrev pub Lent : Storage × W → Address → ℤ → ℕ × Storage × W → Type 0
  Lent (s, w) token x (_, s', w') =
      (pos 1 ≤ℤ x)
      × (x ≤ℤ available s token)
      × (x ≤ℤ max_loan s token)
      × Sets s token (available s token +ℤ fee_due s x) s'
      × (t.balance w token own +ℤ fee_due s x ≤ℤ t.balance w' token own)

  opened-Lent :
      (borrower token : Address) (n : ℕ) (callback : Address) (args : List ℕ) (s : Storage) (w : W)
      → Ensures (Lent (s, w) token (pos n)) (
          open_loan e borrower token (pos n) callback s >>= λ r.
          run_loan t k e borrower token (pos n) callback args w r.0 r.1)
  opened-Lent borrower token n callback args s w =
      Ensures->>= _ _ (open_loan e borrower token (pos n) callback s) _
        (open_loan-Sets e borrower token n callback s)
        λ r h.
          Ensures-mono _ _ (run_loan t k e borrower token (pos n) callback args w r.0 r.1)
            (run_loan-Sets borrower token (pos n) callback args w r.0 r.1)
            λ q g. (
              h.2,
              h.3,
              h.4,
              λ d. grind (int_laws, g.0 d, h.5 d, h.5 token, h.0, h.1),
              grind (arith, g.1, h.0),
            )

  pub flash_loan-Lent :
      (borrower token : Address) (x : ℤ) (callback : Address) (args : List ℕ) (s : Storage) (w : W)
      → Ensures (Lent (s, w) token x) (flash_loan t k e borrower token x callback args (s, w))
  unfolding flash_loan
  flash_loan-Lent borrower token (pos n) callback args s w =
      ground (arith, opened-Lent borrower token n callback args s w)
  flash_loan-Lent borrower token (negsuc n) callback args s w = unfold open_loan in ground arith

  -- A flash loan that succeeds was of a positive amount, within the pool's limit and its available
  -- liquidity; the contract then holds at least what it held before and the fee, the pool's
  -- available liquidity has grown by exactly the fee, and no other pool's has changed.
  pub loan_repaid :
      (borrower token : Address) (x : ℤ) (callback : Address) (args : List ℕ) (s : Storage) (w : W)
      (id : ℕ) (s' : Storage) (w' : W)
      → flash_loan t k e borrower token x callback args (s, w) ≡ ok (id, s', w')
      → (pos 1 ≤ℤ x)
        × (x ≤ℤ available s token)
        × (x ≤ℤ max_loan s token)
        × ((d : Address)
            → available s' d
              ≡ (if token == d then available s token +ℤ fee_due s x else available s d))
        × (t.balance w token own +ℤ fee_due s x ≤ℤ t.balance w' token own)
  loan_repaid borrower token x callback args s w id s' w' h =
      ensured (Lent (s, w) token x) (flash_loan t k e borrower token x callback args (s, w))
        (flash_loan-Lent borrower token x callback args s w) h

  pub flash_loan_keeps :
      IsTokens t
      → IsCallback t k own
      → (borrower token : Address) (x : ℤ) (callback : Address) (args : List ℕ) (s : Storage)
        (w : W) (d : Address)
      → token ≢ d
      → Ensures
          (λ r. t.balance w d own ≤ℤ t.balance r.2 d own)
          (flash_loan t k e borrower token x callback args (s, w))
  unfolding flash_loan
  flash_loan_keeps laws calls borrower token x callback args s w d ne =
      let kept : Ensures (λ r. t.balance w d own ≤ℤ t.balance r.2 d own)
          (open_loan e borrower token x callback s >>= λ r.
            run_loan t k e borrower token x callback args w r.0 r.1) =
        Ensures->>= (λ _. Unit {0}) _ (open_loan e borrower token x callback s) _
          (Ensures-any (open_loan e borrower token x callback s))
          λ r h. run_loan_keeps laws calls borrower token x callback args w r.0 r.1 d ne in
      ground (arith, kept)
