-- ===== src/RewardToken/Effects.antt =====
-- What `transfer` and `transfer_from` of contracts/reward_token/src/lib.rs do to every balance, and
-- when `transfer` goes through.
use mindmint_contracts.Base.{◌≡◌, true, none, ◌==◌, if◌then◌else◌, arith, ◌^◌, ◌&&◌}
use mindmint_contracts.Base.Int.{ℤ, pos, ◌+ℤ◌, ◌-ℤ◌, ◌≤ℤ◌, ◌<ℤ◌, int_laws}
use mindmint_contracts.Base.Map.{pair_key}
use mindmint_contracts.Base.Map.Laws.{lookup-insert}
use mindmint_contracts.Host.Call.{Address, Env, ok, ensured}
use mindmint_contracts.Host.Num.{fits_i128_nonneg}
use mindmint_contracts.RewardToken.{
  Storage, Controller, balance, set_balance, allowance, total_supply, transfer, transfer_from,
  split_burn, settle_burn,
}
use mindmint_contracts.RewardToken.Fees.{burn_due}
use mindmint_contracts.RewardToken.Transfers.{Paid-balance, transfer-Paid, transfer_from-Paid}

-- The balance of `a` after `from` has paid `to` the amount `x`, of which `due` is burnt.
abbrev pub paid_balance : Storage → Address → Address → ℤ → ℤ → Address → ℤ
paid_balance s from to x due a =
    if to == a
    then balance s to +ℤ (x -ℤ due)
    else if from == a
    then balance s from -ℤ x
    else balance s a

module _ {C : Type 0} (ctl : Controller C) where
  -- A transfer that succeeds was authorised by the payer and covered by the payer's balance. The
  -- payer loses the amount, the recipient gains it less the burnt part, no other balance and no
  -- allowance changes, and the supply falls by the burnt part. (Where the payer is also the
  -- recipient, the gain is on top of the balance before.)
  pub transfer_effect :
      (e : Env) (from to : Address) (x : ℤ) (s : Storage) (c : C) (s' : Storage) (c' : C)
      → transfer ctl e from to x (s, c) ≡ ok (s', c')
      → let due = burn_due ctl c s.burn_controller x in
        (e.has_auth from ≡ true)
        × (pos 1 ≤ℤ x)
        × (x ≤ℤ balance s from)
        × ((a : Address) → balance s' a ≡ paid_balance s from to x due a)
        × (s'.allowances ≡ s.allowances)
        × (total_supply s' ≡ total_supply s -ℤ due)
  transfer_effect e from to x s c s' c' h =
      let (auth, kept, p) =
        ensured _ (transfer ctl e from to x (s, c)) (transfer-Paid ctl e from to x s c) h in
      (auth, p.0, p.1, Paid-balance ctl c s from to x s' p, kept, p.3)

  -- The same for a transfer on an allowance: the spender authorised it, the allowance and the
  -- balance covered it, and of all allowances only the spender's from that payer falls, by the
  -- amount.
  pub transfer_from_effect :
      (e : Env) (spender from to : Address) (x : ℤ) (s : Storage) (c : C) (s' : Storage) (c' : C)
      → transfer_from ctl e spender from to x (s, c) ≡ ok (s', c')
      → let due = burn_due ctl c s.burn_controller x in
        (e.has_auth spender ≡ true)
        × (pos 1 ≤ℤ x)
        × (x ≤ℤ balance s from)
        × (x ≤ℤ allowance s from spender)
        × ((a : Address) → balance s' a ≡ paid_balance s from to x due a)
        × ((a b : Address)
            → allowance s' a b ≡ (
                if from == a && spender == b
                then allowance s from spender -ℤ x
                else allowance s a b))
        × (total_supply s' ≡ total_supply s -ℤ due)
  transfer_from_effect e spender from to x s c s' c' h =
      let (auth, covered, kept, p) =
        ensured _ (transfer_from ctl e spender from to x (s, c))
          (transfer_from-Paid ctl e spender from to x s c) h in
      (
        auth,
        p.0,
        p.1,
        covered,
        Paid-balance ctl c s from to x s' p,
        λ a b. ground (
          arith,
          kept,
          lookup-insert (from, spender) (a, b) (allowance s from spender -ℤ x) s.allowances,
        ),
        p.3,
      )

  -- With no burn controller, a positive amount that the payer has authorised and holds is
  -- transferred, if it does not take the recipient's balance past the range of an `i128`.
  pub transfer_succeeds :
      (e : Env) (from to : Address) (x : ℤ) (s : Storage) (c : C)
      → s.burn_controller ≡ none
      → e.has_auth from ≡ true
      → pos 1 ≤ℤ x
      → x ≤ℤ balance s from
      → balance s from <ℤ pos (2 ^ 127)
      → pos 0 ≤ℤ balance s to
      → balance s to +ℤ x <ℤ pos (2 ^ 127)
      → transfer ctl e from to x (s, c)
        ≡ ok (set_balance (set_balance s from (balance s from -ℤ x)) to (balance s to +ℤ x), c)
  unfolding transfer split_burn settle_burn
  transfer_succeeds e from to x s c nobody auth positive covered f1 f2 f3 = ground (
    arith,
    fits_i128_nonneg (balance s from -ℤ x) (omega int_laws) (omega int_laws),
    fits_i128_nonneg (balance s to +ℤ x) (omega int_laws) f3,
  )
