-- ===== src/RewardToken/Transfers.antt =====
-- `transfer` and `transfer_from` of contracts/reward_token/src/lib.rs: who pays, who is paid, what
-- is burnt, and when the books stay balanced.
use mindmint_contracts.Base.{◌≡◌, ◌≢◌, true, ◌==◌, if◌then◌else◌, arith}
use mindmint_contracts.Base.Int.{ℤ, pos, negsuc, ◌+ℤ◌, ◌-ℤ◌, ◌≤ℤ◌, int_laws}
use mindmint_contracts.Base.Map.{nat_key, pair_key, insert}
use mindmint_contracts.Host.Call.{Address, Env, Ensures}
use mindmint_contracts.RewardToken.{
  Storage, Controller, balance, set_balance, allowance, total_supply, transfer, transfer_from,
}
use mindmint_contracts.RewardToken.Balances.{sum, balance-set_balance, sum-set_balance}
use mindmint_contracts.RewardToken.Fees.{
  burn_due, burn_due_nonneg, split_burn_effect, settle_burn_effect,
}

module _ {C : Type 0} (ctl : Controller C) where
  -- The balances that both transfers store, in the order of their writes.
  abbrev pub moved : C → Storage → Address → Address → ℤ → Storage
  moved c s from to x =
      set_balance (set_balance s from (balance s from -ℤ x)) to
        (balance s to +ℤ (x -ℤ burn_due ctl c s.burn_controller x))

  abbrev pub Paid : C → Storage → Address → Address → ℤ → Storage → Type 0
  Paid c s from to x s' =
      (pos 1 ≤ℤ x)
      × (x ≤ℤ balance s from)
      × (s'.admin ≡ s.admin)
      × (total_supply s' ≡ total_supply s -ℤ burn_due ctl c s.burn_controller x)
      × (s'.balances ≡ (moved c s from to x).balances)

  pub transfer-Paid :
      (e : Env) (from to : Address) (x : ℤ) (s : Storage) (c : C)
      → Ensures
          (λ r. (e.has_auth from ≡ true) × (r.0.allowances ≡ s.allowances) × Paid c s from to x r.0)
          (transfer ctl e from to x (s, c))
  unfolding transfer
  transfer-Paid e from to (negsuc n) s c = ground arith
  transfer-Paid e from to (pos n) s c = ground (
    arith,
    split_burn_effect ctl c s n,
    settle_burn_effect ctl c (moved c s from to (pos n)) (burn_due ctl c s.burn_controller (pos n))
        from (burn_due_nonneg ctl c s.burn_controller (pos n)),
  )

  pub transfer_from-Paid :
      (e : Env) (spender from to : Address) (x : ℤ) (s : Storage) (c : C)
      → Ensures
          (λ r.
            (e.has_auth spender ≡ true)
            × (x ≤ℤ allowance s from spender)
            × (r.0.allowances ≡ insert (from, spender) (allowance s from spender -ℤ x) s.allowances)
            × Paid c s from to x r.0)
          (transfer_from ctl e spender from to x (s, c))
  unfolding transfer_from
  transfer_from-Paid e spender from to (negsuc n) s c = ground arith
  transfer_from-Paid e spender from to (pos n) s c =
      let s1 = set_balance s from (balance s from -ℤ pos n) in
      let s2 = moved c s from to (pos n) in
      ground (
        arith,
        split_burn_effect ctl c s1 n,
        settle_burn_effect ctl c
            (record s2 {
              allowances = insert (from, spender) (allowance s from spender -ℤ pos n) s.allowances;
            })
            (burn_due ctl c s.burn_controller (pos n)) from
            (burn_due_nonneg ctl c s.burn_controller (pos n)),
      )

  -- Every balance after the writes of a transfer, also of an account to itself.
  pub Paid-balance :
      (c : C) (s : Storage) (from to : Address) (x : ℤ) (s' : Storage)
      → Paid c s from to x s'
      → (a : Address)
      → balance s' a ≡ (
          if to == a
          then balance s to +ℤ (x -ℤ burn_due ctl c s.burn_controller x)
          else if from == a
          then balance s from -ℤ x
          else balance s a)
  Paid-balance c s from to x s' (_, _, _, _, same) a =
      let s1 = set_balance s from (balance s from -ℤ x) in
      ground (
        arith,
        balance-set_balance s1 to a (balance s to +ℤ (x -ℤ burn_due ctl c s.burn_controller x)),
        balance-set_balance s from a (balance s from -ℤ x),
      )

  -- The sum of the balances falls by what is burnt, if the two accounts differ.
  pub Paid-sum :
      (c : C) (s : Storage) (from to : Address) (x : ℤ) (s' : Storage)
      → Paid c s from to x s'
      → from ≢ to
      → sum s'.balances ≡ sum s.balances -ℤ burn_due ctl c s.burn_controller x
  Paid-sum c s from to x s' (_, _, _, _, same) ne =
      let s1 = set_balance s from (balance s from -ℤ x) in
      grind (
        int_laws,
        sum-set_balance s from (balance s from -ℤ x),
        sum-set_balance s1 to (balance s to +ℤ (x -ℤ burn_due ctl c s.burn_controller x)),
        balance-set_balance s from to (balance s from -ℤ x),
      )

  -- An account that transfers to itself gains the net amount: the sum rises.
  pub Paid-sum_self :
      (c : C) (s : Storage) (a : Address) (x : ℤ) (s' : Storage)
      → Paid c s a a x s'
      → sum s'.balances ≡ sum s.balances +ℤ (x -ℤ burn_due ctl c s.burn_controller x)
  Paid-sum_self c s a x s' (_, _, _, _, same) =
      let s1 = set_balance s a (balance s a -ℤ x) in
      grind (
        int_laws,
        sum-set_balance s a (balance s a -ℤ x),
        sum-set_balance s1 a (balance s a +ℤ (x -ℤ burn_due ctl c s.burn_controller x)),
        balance-set_balance s a a (balance s a -ℤ x),
      )
