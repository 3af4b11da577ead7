-- ===== src/RewardToken/Supply.antt =====
-- The books of contracts/reward_token/src/lib.rs: the total supply against the balances, over every
-- entry point.
use Prim.Native.String.{String}
use mindmint_contracts.RewardToken.Entry.{Request, serve, IsBetweenTwo}
use mindmint_contracts.Base.{◌≡◌, ◌≢◌, true, List, [], ◌∷◌, arith, is_some}
use mindmint_contracts.Base.Int.{ℤ, pos, ◌+ℤ◌, ◌-ℤ◌, ◌≤ℤ◌, int_laws}
use mindmint_contracts.Host.Call.{Address, Env, Ensures, Ensures->>=, Ensures-mono}
use mindmint_contracts.RewardToken
use mindmint_contracts.RewardToken.{
  Storage, Controller, balance, set_balance, total_supply, set_supply, credit, credit_if_positive,
  reward_all, distribute_rewards, mint, transfer, transfer_from, destroy, burn, spend_for_unlock,
  report_burn, is_authorized_minter,
}
use mindmint_contracts.RewardToken.Balances.{sum, balance-set_balance, sum-set_balance}
use mindmint_contracts.RewardToken.Fees.{IsController, burn_due-le}
use mindmint_contracts.RewardToken.Transfers.{
  Paid, Paid-balance, Paid-sum, transfer-Paid, transfer_from-Paid,
}

pub record IsBalanced (s : Storage) : Type 0 where
  pub supply_matches : total_supply s ≡ sum s.balances
  pub nonneg : (a : Address) → pos 0 ≤ℤ balance s a
  pub has_admin : is_some s.admin ≡ true

-- A balance and the supply change by the same amount, up or down.
shift-IsBalanced :
    (s : Storage) (a : Address) (v w : ℤ)
    → pos 0 ≤ℤ v
    → v -ℤ balance s a ≡ w -ℤ total_supply s
    → IsBalanced s
    → IsBalanced (set_supply (set_balance s a v) w)
shift-IsBalanced s a v w h e b = record {
  supply_matches = grind (int_laws, sum-set_balance s a v, b.supply_matches, e);
  nonneg = λ o. ground (arith, balance-set_balance s a o v, b.nonneg o);
  has_admin = b.has_admin;
}

credit-IsBalanced :
    (to : Address) (x : ℤ) (s : Storage)
    → pos 0 ≤ℤ x
    → IsBalanced s
    → Ensures IsBalanced (credit to x s)
unfolding credit
credit-IsBalanced to x s h b = ground (
  arith,
  shift-IsBalanced s to (balance s to +ℤ x) (total_supply s +ℤ x) (grind (int_laws, b.nonneg to))
      (grind int_laws) b,
)

mint-IsBalanced :
    (e : Env) (m to : Address) (x : ℤ) (s : Storage)
    → IsBalanced s
    → Ensures IsBalanced (mint e m to x s)
unfolding mint is_authorized_minter
mint-IsBalanced e m to x s b = ground (arith, credit-IsBalanced to x s)

credit_if_positive-IsBalanced :
    (to : Address) (x : ℤ) (s : Storage)
    → IsBalanced s
    → Ensures IsBalanced (credit_if_positive to x s)
unfolding credit_if_positive
credit_if_positive-IsBalanced to x s b = ground (arith, credit-IsBalanced to x s)

reward_all-IsBalanced :
    (rs : List Address) (xs : List ℤ) (s : Storage)
    → IsBalanced s
    → Ensures IsBalanced (reward_all rs xs s)
unfolding reward_all
reward_all-IsBalanced [] xs s b = b
reward_all-IsBalanced (r ∷ rs) [] s b = tt
reward_all-IsBalanced (r ∷ rs) (x ∷ xs) s b =
    Ensures->>= IsBalanced IsBalanced (credit_if_positive r x s) (reward_all rs xs)
      (credit_if_positive-IsBalanced r x s b) (reward_all-IsBalanced rs xs)

module _ {C : Type 0} (ctl : Controller C) (laws : IsController ctl) where
  Paid-IsBalanced :
      (c : C) (s : Storage) (from to : Address) (x : ℤ) (s' : Storage)
      → from ≢ to
      → Paid ctl c s from to x s'
      → IsBalanced s
      → IsBalanced s'
  Paid-IsBalanced c s from to x s' ne p b = record {
    supply_matches = grind (arith, Paid-sum ctl c s from to x s' p ne, b.supply_matches, p);
    nonneg = λ a. grind (
      int_laws,
      Paid-balance ctl c s from to x s' p a,
      b.nonneg a,
      b.nonneg to,
      burn_due-le ctl laws c s.burn_controller x,
      p,
    );
    has_admin = ground (arith, b.has_admin, p);
  }

  destroy-IsBalanced :
      (c : C) (s : Storage) (from : Address) (x : ℤ) (reason : String)
      → x ≤ℤ balance s from
      → IsBalanced s
      → Ensures (λ r. IsBalanced r.0) (destroy ctl c s from x reason)
  unfolding destroy report_burn
  destroy-IsBalanced c s from x reason h b = ground (
    arith,
    shift-IsBalanced s from (balance s from -ℤ x) (total_supply s -ℤ x) (grind int_laws)
        (grind int_laws) b,
  )

  -- Every request but a transfer of an account to itself keeps the books balanced.
  pub serve-IsBalanced :
      (e : Env) (q : Request) (s : Storage) (c : C)
      → IsBetweenTwo q
      → IsBalanced s
      → Ensures (λ r. IsBalanced r.0) (serve ctl e q (s, c))
  unfolding serve
  serve-IsBalanced e (Request.initialize a n y d) s c p b =
      unfold RewardToken.initialize in ground arith
  serve-IsBalanced e (Request.authorize_minter m) s c p b =
      unfold RewardToken.authorize_minter in ground arith
  serve-IsBalanced e (Request.revoke_minter m) s c p b =
      unfold RewardToken.revoke_minter in ground arith
  serve-IsBalanced e (Request.set_burn_controller a) s c p b =
      unfold RewardToken.set_burn_controller in ground arith
  serve-IsBalanced e (Request.mint m to x) s c p b = ground (arith, mint-IsBalanced e m to x s b)
  serve-IsBalanced e (Request.distribute_rewards rs xs) s c p b =
      unfold RewardToken.distribute_rewards in ground (arith, reward_all-IsBalanced rs xs s b)
  serve-IsBalanced e (Request.approve o q x) s c p b = unfold RewardToken.approve in ground arith
  serve-IsBalanced e (Request.transfer from to x) s c p b =
      Ensures-mono _ _ (transfer ctl e from to x (s, c)) (transfer-Paid ctl e from to x s c)
        λ r h. Paid-IsBalanced c s from to x r.0 p h.2 b
  serve-IsBalanced e (Request.transfer_from q from to x) s c p b =
      Ensures-mono _ _ (transfer_from ctl e q from to x (s, c))
        (transfer_from-Paid ctl e q from to x s c) λ r h. Paid-IsBalanced c s from to x r.0 p h.3 b
  serve-IsBalanced e (Request.spend_for_unlock a x u) s c p b =
      unfold RewardToken.spend_for_unlock in ground (arith, destroy-IsBalanced c s a x "unlock")
  serve-IsBalanced e (Request.burn a x) s c p b =
      unfold RewardToken.burn in ground (arith, destroy-IsBalanced c s a x "vol")
