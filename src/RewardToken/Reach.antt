-- ===== src/RewardToken/Reach.antt =====
-- The storages that calls of contracts/reward_token/src/lib.rs reach, and their books.
use Prim.Native.String.{String}
use mindmint_contracts.RewardToken.Entry.{Request, serve, IsBetweenTwo}
use mindmint_contracts.Base.{ℕ, ◌≡◌, refl, arith}
use mindmint_contracts.Base.Map.{lookup}
use mindmint_contracts.Base.Map.Laws.{total}
use mindmint_contracts.Base.Int.{ℤ, pos, ◌+ℤ◌, ◌-ℤ◌, ◌≤ℤ◌, int_laws}
use mindmint_contracts.Host.Call.{Address, Env, ok, Ensures, ensured}
use mindmint_contracts.RewardToken
use mindmint_contracts.RewardToken.{
  Storage, Controller, balance, set_balance, total_supply, set_supply, credit, credit_if_positive,
  reward_all, distribute_rewards, mint, transfer, transfer_from, destroy, burn, spend_for_unlock,
  report_burn, is_authorized_minter,
}
use mindmint_contracts.RewardToken.Balances.{sum}
use mindmint_contracts.RewardToken.Fees.{IsController, burn_due}
use mindmint_contracts.RewardToken.Transfers.{Paid-balance, Paid-sum_self, transfer-Paid}
use mindmint_contracts.RewardToken.Supply.{IsBalanced, serve-IsBalanced}

-- What successful requests reach from an initialised contract, when no account transfers to itself.
pub data Reach {C : Type 0} (ctl : Controller C) : Storage × C → Type 0 where
  start :
      {s : Storage} (a : Address) (n y : String) (d : ℕ) (c : C)
      → RewardToken.initialize a n y d RewardToken.empty ≡ ok s
      → Reach ctl (s, c)
  next :
      {st st' : Storage × C} (e : Env) (q : Request)
      → Reach ctl st
      → IsBetweenTwo q
      → serve ctl e q st ≡ ok st'
      → Reach ctl st'

initialize-IsBalanced :
    (a : Address) (n y : String) (d : ℕ)
    → Ensures IsBalanced (RewardToken.initialize a n y d RewardToken.empty)
unfolding RewardToken.initialize total lookup
initialize-IsBalanced a n y d = record {
  supply_matches = refl;
  nonneg = λ o. omega arith;
  has_admin = refl;
}

module _ {C : Type 0} (ctl : Controller C) (laws : IsController ctl) where
  -- In every storage that successful calls reach from a freshly initialised contract, where no call
  -- is a transfer of an account to itself and the burn controller's rate is at most 10000, the total
  -- supply is the sum of all balances and no balance is negative.
  pub reached_balanced :
      {st : Storage × C}
      → Reach ctl st
      → (total_supply st.0 ≡ sum st.0.balances) × ((a : Address) → pos 0 ≤ℤ balance st.0 a)
  reached_balanced r = let b = reached r in (b.supply_matches, b.nonneg)
    where
      reached : {st : Storage × C} → Reach ctl st → IsBalanced st.0
      reached (start a n y d c h) =
          ensured IsBalanced (RewardToken.initialize a n y d RewardToken.empty)
            (initialize-IsBalanced a n y d) h
      reached (next {st = st} e q r p h) =
          ensured (λ x. IsBalanced x.0) (serve ctl e q st)
            (serve-IsBalanced ctl laws e q st.0 st.1 p (reached r)) h

  -- In a reached storage, a transfer of an account to itself that succeeds is of a positive amount;
  -- the account's balance and the sum of the balances rise by the amount less the part that is due
  -- to be burnt, and the total supply falls by that part, so that the sum of the balances then
  -- exceeds the total supply by exactly the amount.
  pub transfer_self_inflates :
      (e : Env) (a : Address) (x : ℤ) {st : Storage × C} (s' : Storage) (c' : C)
      → Reach ctl st
      → transfer ctl e a a x st ≡ ok (s', c')
      → let due = burn_due ctl st.1 st.0.burn_controller x in
        (pos 1 ≤ℤ x)
        × (balance s' a ≡ balance st.0 a +ℤ (x -ℤ due))
        × (sum s'.balances ≡ sum st.0.balances +ℤ (x -ℤ due))
        × (total_supply s' ≡ total_supply st.0 -ℤ due)
        × (sum s'.balances ≡ total_supply s' +ℤ x)
  transfer_self_inflates e a x {st} s' c' r h =
      let b = reached_balanced r in
      let (_, _, p) = ensured _ (transfer ctl e a a x st) (transfer-Paid ctl e a a x st.0 st.1) h in
      let risen = Paid-sum_self ctl st.1 st.0 a x s' p in
      (
        p.0,
        ground (arith, Paid-balance ctl st.1 st.0 a a x s' p a),
        risen,
        p.3,
        grind (int_laws, risen, b.0, p.3),
      )
