-- ===== src/RewardToken/Entry.antt =====
-- The entry points of contracts/reward_token/src/lib.rs that change the storage, as one type of
-- requests and one function that serves them.
use Prim.Native.String.{String}
use mindmint_contracts.Base.{ℕ, List, ◌≢◌}
use mindmint_contracts.Base.Int.{ℤ}
use mindmint_contracts.Host.Call.{Address, Env, ok, ◌>>=◌}
use mindmint_contracts.RewardToken
use mindmint_contracts.RewardToken.{Storage, Controller, Call}

pub data Request : Type 0 where
  initialize : Address → String → String → ℕ → Request
  authorize_minter revoke_minter set_burn_controller : Address → Request
  mint : Address → Address → ℤ → Request
  distribute_rewards : List Address → List ℤ → Request
  approve : Address → Address → ℤ → Request
  transfer : Address → Address → ℤ → Request
  transfer_from : Address → Address → Address → ℤ → Request
  spend_for_unlock : Address → ℤ → String → Request
  burn : Address → ℤ → Request

module _ {C : Type 0} (ctl : Controller C) where
  -- A call that leaves the controller alone.
  abbrev beside : C → Call Storage → Call (Storage × C)
  beside c m = m >>= λ s. ok (s, c)

  unfoldable pub serve : Env → Request → Storage × C → Call (Storage × C)
  serve e (initialize a n y d) (s, c) = beside c (RewardToken.initialize a n y d s)
  serve e (authorize_minter m) (s, c) = beside c (RewardToken.authorize_minter e m s)
  serve e (revoke_minter m) (s, c) = beside c (RewardToken.revoke_minter e m s)
  serve e (set_burn_controller a) (s, c) = beside c (RewardToken.set_burn_controller e a s)
  serve e (mint m to x) (s, c) = beside c (RewardToken.mint e m to x s)
  serve e (distribute_rewards rs xs) (s, c) = beside c (RewardToken.distribute_rewards e rs xs s)
  serve e (approve o p x) (s, c) = beside c (RewardToken.approve e o p x s)
  serve e (transfer a b x) st = RewardToken.transfer ctl e a b x st
  serve e (transfer_from p a b x) st = RewardToken.transfer_from ctl e p a b x st
  serve e (spend_for_unlock a x u) st = RewardToken.spend_for_unlock ctl e a x u st
  serve e (burn a x) st = RewardToken.burn ctl e a x st

-- The request moves nothing from an account to that same account.
abbrev pub IsBetweenTwo : Request → Type 0
IsBetweenTwo (transfer a b x) = a ≢ b
IsBetweenTwo (transfer_from p a b x) = a ≢ b
IsBetweenTwo _ = Unit
