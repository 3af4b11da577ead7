-- ===== src/FlashLoan/Pools/Solvency.antt =====
-- Whether the contract of contracts/flash_loan/src/lib.rs holds the tokens that its books show as
-- available, request by request.
use mindmint_contracts.Base.{ℕ, ◌≡◌, ◌≢◌, false, some, ◌==◌, arith, inl, inr, Bool-cases, List}
use mindmint_contracts.Base.Int.{ℤ, pos, ◌+ℤ◌, ◌-ℤ◌, ◌≤ℤ◌, int_laws}
use mathlib.Core.Path.{subst}
use mindmint_contracts.Base.Map.{lookup}
use mindmint_contracts.Host.Call.{
  Address, Env, ok, Ensures, Ensures->>=, Ensures-mono, Ensures-all, ensured,
}
use mindmint_contracts.Host.Tokens.{Tokens, IsTokens}
use mindmint_contracts.FlashLoan
use mindmint_contracts.FlashLoan.{Storage, Callback, Call, assert_admin}
use mindmint_contracts.FlashLoan.Pools
use mindmint_contracts.FlashLoan.Pools.{withdraw_fees}
use mindmint_contracts.FlashLoan.Pools.Entry.{Request, serve, TakesNoFees}
use mindmint_contracts.FlashLoan.Pools.Books.{
  available, add_liquidity-Sets, remove_liquidity-Sets, withdraw_fees-Sets,
}
use mindmint_contracts.FlashLoan.Pools.Loans.{IsCallback, Lent, flash_loan-Lent, flash_loan_keeps}

module _ {W : Type 0} (t : Tokens W) (this : Address) where
  -- For every token the contract holds at least what the books show as available.
  abbrev pub IsSolvent : Storage × W → Type 0
  IsSolvent (s, w) = (d : Address) → available s d ≤ℤ t.balance w d this

module _ {W : Type 0} (t : Tokens W) (k : Callback W) (laws : IsTokens t) (e : Env)
    (calls : IsCallback t k e.current_contract)
    (alone : e.has_auth e.current_contract ≡ false) where
  abbrev own : Address
  own = e.current_contract

  add_liquidity-IsSolvent :
      (a token : Address) (x : ℤ) (s : Storage) (w : W)
      → IsSolvent t own (s, w)
      → Ensures (IsSolvent t own) (Pools.add_liquidity t e a token x (s, w))
  add_liquidity-IsSolvent a token x s w v =
      Ensures-mono _ _ (Pools.add_liquidity t e a token x (s, w))
        (add_liquidity-Sets t e a token x s w)
        λ r h d. grind (
          int_laws,
          h.0,
          h.1 d,
          laws.transfer_moves w token a own x r.1 h.2 d own,
          v d,
          v token,
          alone,
        )

  remove_liquidity-IsSolvent :
      (a token : Address) (x : ℤ) (s : Storage) (w : W)
      → IsSolvent t own (s, w)
      → Ensures (IsSolvent t own) (Pools.remove_liquidity t e a token x (s, w))
  remove_liquidity-IsSolvent a token x s w v =
      Ensures-mono _ _ (Pools.remove_liquidity t e a token x (s, w))
        (remove_liquidity-Sets t e a token x s w)
        λ r h d. grind (
          int_laws,
          h.0,
          h.1 d,
          laws.transfer_moves w token own a x r.1 h.2 d own,
          v d,
          v token,
          alone,
        )

  flash_loan-IsSolvent :
      (a token : Address) (x : ℤ) (c : Address) (args : List ℕ) (s : Storage) (w : W)
      → IsSolvent t own (s, w)
      → Ensures (λ r. IsSolvent t own (r.1, r.2)) (Pools.flash_loan t k e a token x c args (s, w))
  flash_loan-IsSolvent a token x c args s w v =
      let m : Call (ℕ × Storage × W) = Pools.flash_loan t k e a token x c args (s, w) in
      Ensures-mono _ _ m
        (Ensures-all (Lent t k e (s, w) token x)
          (λ (o : (d : Address) × (token ≢ d)) r. t.balance w o.0 own ≤ℤ t.balance r.2 o.0 own) m
          (flash_loan-Lent t k e a token x c args s w)
          (λ o. flash_loan_keeps t k e laws calls a token x c args s w o.0 o.1))
        λ r h d. elim (Bool-cases (token == d)) [
          | inl same ↦ grind (int_laws, h.0.3 d, h.0.4, v token, same)
          | inr other ↦
              let kept = h.1 (d, ground arith) in grind (int_laws, h.0.3 d, kept, v d, other)
        ]

  -- One request.
  serve-IsSolvent :
      (q : Request) (s : Storage) (w : W)
      → TakesNoFees q
      → IsSolvent t own (s, w)
      → Ensures (IsSolvent t own) (serve t k e q (s, w))
  unfolding serve
  serve-IsSolvent (Request.initialize a n) s w p v = unfold FlashLoan.initialize in ground (arith)
  serve-IsSolvent (Request.set_fee_bps a n) s w p v = unfold FlashLoan.set_fee_bps in ground (arith)
  serve-IsSolvent (Request.set_max_loan_ratio a n) s w p v =
      unfold FlashLoan.set_max_loan_ratio in ground (arith)
  serve-IsSolvent (Request.pause a) s w p v = unfold FlashLoan.pause in ground (arith)
  serve-IsSolvent (Request.unpause a) s w p v = unfold FlashLoan.unpause in ground (arith)
  serve-IsSolvent (Request.add_liquidity a d x) s w p v = add_liquidity-IsSolvent a d x s w v
  serve-IsSolvent (Request.remove_liquidity a d x) s w p v = remove_liquidity-IsSolvent a d x s w v
  serve-IsSolvent (Request.withdraw_fees a d x) s w p v = absurd p
  serve-IsSolvent (Request.flash_loan a d x c args) s w p v =
      Ensures->>= _ _ (Pools.flash_loan t k e a d x c args (s, w)) _
        (flash_loan-IsSolvent a d x c args s w v) λ r h. h

-- What requests other than withdrawals of fees reach.
pub data Reach {W : Type 0} (t : Tokens W) (k : Callback W) (this : Address)
    : Storage × W → Type 0 where
  start :
      (w : W) → ((d : Address) → pos 0 ≤ℤ t.balance w d this) → Reach t k this (FlashLoan.empty, w)
  next :
      {st st' : Storage × W} (e : Env) (q : Request)
      → Reach t k this st
      → e.current_contract ≡ this
      → e.has_auth this ≡ false
      → TakesNoFees q
      → serve t k e q st ≡ ok st'
      → Reach t k this st'

empty-IsSolvent :
    {W : Type 0} (t : Tokens W) (this : Address) (w : W)
    → ((d : Address) → pos 0 ≤ℤ t.balance w d this)
    → IsSolvent t this (FlashLoan.empty, w)
unfolding lookup
empty-IsSolvent t this w h = h

module _ {W : Type 0} (t : Tokens W) (k : Callback W) (this : Address) (laws : IsTokens t)
    (calls : IsCallback t k this) where
  -- In every state that requests other than withdrawals of fees reach from an empty contract, none
  -- authorised by the contract itself, the contract's own balance of every token is at least the
  -- available liquidity of that token's pool.
  pub reached_solvent :
      {st : Storage × W}
      → Reach t k this st
      → (d : Address) → available st.0 d ≤ℤ t.balance st.1 d this
  reached_solvent (start w h) = empty-IsSolvent t this w h
  reached_solvent (next {st = st} e q r here alone p h) =
      ensured (IsSolvent t this) (serve t k e q st)
        (subst
          (λ a.
            IsCallback t k a
            → e.has_auth a ≡ false
            → IsSolvent t a st
            → Ensures (IsSolvent t a) (serve t k e q st))
          here (λ c l v. serve-IsSolvent t k laws e c l q st.0 st.1 p v) calls alone
          (reached_solvent r))
        h

  -- A withdrawal of fees that succeeds, by an admin other than the contract itself, transfers the
  -- amount from the contract to the admin, so that the contract's balance of the token falls by
  -- exactly the amount, and leaves the available liquidity of every pool as it was: the books'
  -- excess over the balance rises by the amount.
  pub withdraw_fees_shortfall :
      (e : Env) (admin token : Address) (x : ℤ) (s : Storage) (w : W) (s' : Storage) (w' : W)
      → e.current_contract ≡ this
      → admin ≢ this
      → withdraw_fees t e admin token x (s, w) ≡ ok (s', w')
      → (t.transfer w token this admin x ≡ some w')
        × (t.balance w' token this ≡ t.balance w token this -ℤ x)
        × ((d : Address) → available s' d ≡ available s d)
        × (available s' token -ℤ t.balance w' token this
            ≡ available s token -ℤ t.balance w token this +ℤ x)
  withdraw_fees_shortfall e admin token x s w s' w' here other h =
      let (sets, moved, _) =
        ensured _ (withdraw_fees t e admin token x (s, w))
          (withdraw_fees-Sets t e admin token x s w) h in
      let paid : t.transfer w token this admin x ≡ some w' =
        subst (λ c. t.transfer w token c admin x ≡ some w') here moved in
      let fallen : t.balance w' token this ≡ t.balance w token this -ℤ x =
        grind (int_laws, laws.transfer_moves w token this admin x w' paid token this) in
      let kept : (d : Address) → available s' d ≡ available s d = λ d. ground (arith, sets d) in
      (paid, fallen, kept, grind (int_laws, fallen, kept token))
