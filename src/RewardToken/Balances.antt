-- ===== src/RewardToken/Balances.antt =====
-- How the updates of contracts/reward_token/src/lib.rs change each balance and the sum of all.
use mindmint_contracts.Base.{◌≡◌, ◌==◌, if◌then◌else◌, arith}
use mindmint_contracts.Base.Int.{ℤ, ◌+ℤ◌}
use mindmint_contracts.Base.Map.{Map, nat_key}
use mindmint_contracts.Base.Map.Laws.{lookup-insert, total, total-insert}
use mindmint_contracts.Host.Call.{Address}
use mindmint_contracts.RewardToken.{Storage, balance, set_balance}

-- All balances together.
abbrev pub sum : Map Address ℤ → ℤ
sum m = total (λ v. v) m

pub balance-set_balance :
    (s : Storage) (a b : Address) (v : ℤ)
    → balance (set_balance s a v) b ≡ (if a == b then v else balance s b)
balance-set_balance s a b v = simp lookup-insert (ground arith)

pub sum-set_balance :
    (s : Storage) (a : Address) (v : ℤ)
    → sum (set_balance s a v).balances +ℤ balance s a ≡ sum s.balances +ℤ v
sum-set_balance s a v = ground (arith, total-insert (λ (x : ℤ). x) a v s.balances)
