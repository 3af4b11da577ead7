-- ===== src/FlashLoan/Pools/Books.antt =====
-- What each entry point of contracts/flash_loan/src/lib.rs does to the liquidity on the books.
use mindmint_contracts.Base.{
  ℕ, ◌*◌, ◌/◌, ◌≡◌, Bool, true, false, Option, none, some, if◌then◌else◌, ◌==◌, arith, inl, inr,
  Option-cases,
}
use mindmint_contracts.Base.Int.{ℤ, pos, pos_part, ◌+ℤ◌, ◌-ℤ◌, ◌*ℤ◌, ◌/ℤ◌, ◌≤ℤ◌, *ℤ_pos, /ℤ_pos}
use mindmint_contracts.Base.Map.{nat_key, lookup}
use mindmint_contracts.Base.Map.Laws.{lookup-insert}
use mindmint_contracts.Host.Call.{Address, Env, ok, Ensures}
use mindmint_contracts.Host.Tokens.{Tokens}
use mindmint_contracts.FlashLoan
use mindmint_contracts.FlashLoan.{
  Storage, LiquidityPool, FlashLoanConfig, with_lender, get_or_create_pool, assert_not_paused,
  assert_admin, update_analytics,
}
use mindmint_contracts.FlashLoan.Pools.{
  set_pool, set_record, add_liquidity, remove_liquidity, withdraw_fees, reduce_position, Terms,
  open_loan, close_loan,
}

-- The liquidity that a pool has on its books; none where there is no pool.
abbrev pub available_in : Option LiquidityPool → ℤ
available_in none = pos 0
available_in (some p) = p.available_liquidity

abbrev pub available : Storage → Address → ℤ
available s d = available_in (lookup d s.pools)

-- The fee of a loan: the configured share of the amount, rounded down.
abbrev rate_of : Option FlashLoanConfig → ℕ
rate_of none = 0
rate_of (some c) = c.fee_bps

pub fee_due : Storage → ℤ → ℤ
fee_due s amount = pos (pos_part amount * rate_of s.config / 10_000)

-- One pool's liquidity becomes `v`; the others keep theirs.
abbrev pub Sets : Storage → Address → ℤ → Storage → Type 0
Sets s token v s' = (d : Address) → available s' d ≡ (if token == d then v else available s d)

-- The largest loan: the configured share of what is available.
abbrev ratio_of : Option FlashLoanConfig → ℕ
ratio_of none = 0
ratio_of (some c) = c.max_loan_ratio

pub max_loan : Storage → Address → ℤ
max_loan s token = available s token *ℤ pos (ratio_of s.config) /ℤ pos 10_000

pub set_pool-Sets :
    (token : Address) (p : LiquidityPool) (s : Storage)
    → Sets s token p.available_liquidity (set_pool token p s)
set_pool-Sets token p s d = ground (arith, lookup-insert token d p s.pools)

pub open_loan-Sets :
    (e : Env) (borrower token : Address) (n : ℕ) (callback : Address) (s : Storage)
    → Ensures
        (λ r.
          (r.0.fee ≡ fee_due s (pos n))
          × (r.0.repayment_amount ≡ pos n +ℤ r.0.fee)
          × (pos 1 ≤ℤ pos n)
          × (pos n ≤ℤ available s token)
          × (pos n ≤ℤ max_loan s token)
          × ((d : Address)
              → available r.1 d
                ≡ (if token == d then available s token -ℤ pos n else available s d)))
        (open_loan e borrower token (pos n) callback s)
unfolding open_loan fee_due max_loan
open_loan-Sets e borrower token n callback s = elim (Option-cases s.config) [
  | inl none1 ↦ ground arith
  | inr (c, e1) ↦ elim (Option-cases (lookup token s.pools)) [
    | inl none2 ↦ ground arith
    | inr (p, e2) ↦
        let booked = record p {
          available_liquidity = p.available_liquidity -ℤ pos n;
          total_borrowed = p.total_borrowed +ℤ pos n;
        } in
        ground
          (arith, set_pool-Sets token booked s, *ℤ_pos n c.fee_bps, /ℤ_pos (n * c.fee_bps) 10_000)
  ]
]

pub update_analytics_pools :
    (x f : ℤ) (b : Bool) (s : Storage)
    → Ensures (λ r. (r.pools ≡ s.pools) × (r.config ≡ s.config)) (update_analytics x f b s)
unfolding update_analytics
update_analytics_pools x f true s = ground arith
update_analytics_pools x f false s = ground arith

pub close_loan-Sets :
    (e : Env) (token : Address) (amount : ℤ) (terms : Terms) (s : Storage)
    → Ensures
        (Sets s token (available s token +ℤ terms.repayment_amount))
        (close_loan e token amount terms s)
unfolding close_loan
close_loan-Sets e token amount terms s = elim (Option-cases (lookup token s.pools)) [
  | inl missing ↦ ground arith
  | inr (p, e1) ↦
      let booked = record p {
        available_liquidity = p.available_liquidity +ℤ terms.repayment_amount;
        total_borrowed = p.total_borrowed -ℤ amount;
        fees_collected = p.fees_collected +ℤ terms.fee;
      } in
      elim (Option-cases (lookup terms.loan_id s.flash_loan_records)) [
        | inl missing ↦ ground arith
        | inr (r, e2) ↦
            let closed = record r {
              end_time = e.timestamp;
              status = FlashLoan.FlashLoanStatus.repaid;
            } in
            ground (
              arith,
              set_pool-Sets token booked s,
              update_analytics_pools amount terms.fee true
                  (set_record terms.loan_id closed (set_pool token booked s)),
            )
      ]
]

pub get_or_create_pool_lem :
    (token : Address) (s : Storage)
    → let (p, s1) = get_or_create_pool token s in
      (p.available_liquidity ≡ available s token)
      × (s1.pools ≡ s.pools)
      × (s1.config ≡ s.config)
      × (s1.lender_positions ≡ s.lender_positions)
unfolding get_or_create_pool
get_or_create_pool_lem token s = ground arith

module _ {W : Type 0} (t : Tokens W) where
  -- A call moves `x` into (or out of) the books of one pool as it moves the tokens.
  pub add_liquidity-Sets :
      (e : Env) (lender token : Address) (x : ℤ) (s : Storage) (w : W)
      → Ensures
          (λ r.
            (e.has_auth lender ≡ true)
            × Sets s token (available s token +ℤ x) r.0
            × (t.transfer w token lender e.current_contract x ≡ some r.1))
          (add_liquidity t e lender token x (s, w))
  unfolding add_liquidity
  add_liquidity-Sets e lender token x s w =
      let (p, s1) = get_or_create_pool token s in
      let booked = record p {
        total_liquidity = p.total_liquidity +ℤ x;
        available_liquidity = p.available_liquidity +ℤ x;
        lenders = with_lender lender p.lenders;
      } in
      elim (Option-cases (t.transfer w token lender e.current_contract x)) [
        | inl refused ↦ ground arith
        | inr (w1, e1) ↦
            ground (arith, get_or_create_pool_lem token s, set_pool-Sets token booked s1)
      ]

  pub remove_liquidity-Sets :
      (e : Env) (lender token : Address) (x : ℤ) (s : Storage) (w : W)
      → Ensures
          (λ r.
            (e.has_auth lender ≡ true)
            × Sets s token (available s token -ℤ x) r.0
            × (t.transfer w token e.current_contract lender x ≡ some r.1))
          (remove_liquidity t e lender token x (s, w))
  unfolding remove_liquidity reduce_position
  remove_liquidity-Sets e lender token x s w = elim (Option-cases (lookup token s.pools)) [
    | inl missing ↦ ground arith
    | inr (p, e1) ↦
        let booked = record p {
          total_liquidity = p.total_liquidity -ℤ x;
          available_liquidity = p.available_liquidity -ℤ x;
        } in
        ground (arith, set_pool-Sets token booked s)
  ]

  pub withdraw_fees-Sets :
      (e : Env) (admin token : Address) (x : ℤ) (s : Storage) (w : W)
      → Ensures
          (λ r.
            Sets s token (available s token) r.0
            × (t.transfer w token e.current_contract admin x ≡ some r.1)
            × (assert_admin s admin ≡ ok tt))
          (withdraw_fees t e admin token x (s, w))
  unfolding withdraw_fees
  withdraw_fees-Sets e admin token x s w = elim (Option-cases (lookup token s.pools)) [
    | inl missing ↦ ground arith
    | inr (p, e1) ↦
        let booked = record p {
          fees_collected = p.fees_collected -ℤ x;
          total_liquidity = p.total_liquidity -ℤ x;
        } in
        ground (arith, set_pool-Sets token booked s)
  ]
