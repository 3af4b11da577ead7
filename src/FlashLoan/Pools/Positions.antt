-- ===== src/FlashLoan/Pools/Positions.antt =====
-- What contracts/flash_loan/src/lib.rs remembers of a lender's deposits.
use mindmint_contracts.Base.{◌≡◌, ◌≢◌, some, arith}
use mindmint_contracts.Base.Int.{ℤ, ◌<ℤ◌}
use mindmint_contracts.Base.Map.{pair_key, lookup}
use mindmint_contracts.Base.Map.Laws.{lookup-insert_self}
use mindmint_contracts.Host.Call.{Address, Env, ok, Ensures, ensured}
use mindmint_contracts.Host.Tokens.{Tokens}
use mindmint_contracts.FlashLoan.{Storage, LenderPosition, get_or_create_pool}
use mindmint_contracts.FlashLoan.Pools.{add_liquidity, remove_liquidity}

abbrev deposited : Env → Address → ℤ → LenderPosition
deposited e lender x = record { lender = lender; amount = x; deposit_time = e.timestamp }

module _ {W : Type 0} (t : Tokens W) where
  add_liquidity_position :
      (e : Env) (lender token : Address) (x : ℤ) (s : Storage) (w : W)
      → Ensures
          (λ r. lookup (token, lender) r.0.lender_positions ≡ some (deposited e lender x))
          (add_liquidity t e lender token x (s, w))
  unfolding add_liquidity
  add_liquidity_position e lender token x s w = ground (
    arith,
    lookup-insert_self (token, lender) (deposited e lender x)
        (get_or_create_pool token s).1.lender_positions,
  )

  -- After a deposit of `x` a lender cannot take out more than `x`, in whatever world and call, also
  -- if earlier deposits of the same token have not been taken out: the deposit replaces the
  -- lender's position and is not added to it.
  pub deposit_replaces_position :
      (e e' : Env) (lender token : Address) (x y : ℤ) (s : Storage) (w : W) (s' : Storage)
      (w' w'' : W) (r : Storage × W)
      → add_liquidity t e lender token x (s, w) ≡ ok (s', w')
      → x <ℤ y
      → remove_liquidity t e' lender token y (s', w'') ≢ ok r
  unfolding remove_liquidity
  deposit_replaces_position e e' lender token x y s w s' w' w'' r h more =
      let kept =
        ensured _ (add_liquidity t e lender token x (s, w))
          (add_liquidity_position e lender token x s w) h in
      ground (arith, kept)
