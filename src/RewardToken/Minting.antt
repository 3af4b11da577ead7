-- ===== src/RewardToken/Minting.antt =====
-- New tokens in contracts/reward_token/src/lib.rs: who can make them, and what a distribution adds.
use Prim.Native.String.{String}
use mindmint_contracts.Base.{
  ◌≡◌, true, List, [], ◌∷◌, ◌==◌, if◌then◌else◌, arith, length, get_or, ◌&&◌,
}
use mindmint_contracts.Base.Int.{ℤ, pos, ◌+ℤ◌, ◌-ℤ◌, ◌≤ℤ◌, ◌<ℤ◌, ltb_ℤ, int_laws, +ℤ_zero}
use mindmint_contracts.Host.Call.{Address, Env, ok, Ensures, Ensures->>=, Ensures-mono, ensured}
use mindmint_contracts.RewardToken
use mindmint_contracts.RewardToken.{
  Storage, Controller, balance, set_balance, total_supply, set_supply, credit, credit_if_positive,
  reward_all, distribute_rewards, transfer, transfer_from, destroy, report_burn,
  is_authorized_minter,
}
use mindmint_contracts.RewardToken.Balances.{balance-set_balance}
use mindmint_contracts.RewardToken.Entry.{Request, serve}
use mindmint_contracts.RewardToken.Fees.{burn_due_nonneg}
use mindmint_contracts.RewardToken.Transfers.{transfer-Paid, transfer_from-Paid}

-- A higher supply was made by an authorised minter who authorised the call.
abbrev Minted : Env → Storage → Storage → Type 0
Minted e s s' =
    total_supply s <ℤ total_supply s'
    → (m : Address) × (e.has_auth m ≡ true) × (is_authorized_minter m s ≡ ok true)

mint_authorised :
    (e : Env) (m to : Address) (x : ℤ) (s : Storage)
    → Ensures
        (λ _. (e.has_auth m ≡ true) × (is_authorized_minter m s ≡ ok true))
        (RewardToken.mint e m to x s)
unfolding RewardToken.mint
mint_authorised e m to x s = ground arith

-- The admin, where there is one.
abbrev admin_of : Storage → Address
admin_of s = get_or s.admin 0

distribute_authorised :
    (e : Env) (rs : List Address) (xs : List ℤ) (s : Storage)
    → Ensures
        (λ _. (e.has_auth (admin_of s) ≡ true) × (is_authorized_minter (admin_of s) s ≡ ok true))
        (distribute_rewards e rs xs s)
unfolding distribute_rewards is_authorized_minter
distribute_authorised e rs xs s = ground arith

-- What a distribution owes one address, and what it owes altogether: the positive amounts.
pub owed_to : Address → List Address → List ℤ → ℤ
owed_to a [] xs = pos 0
owed_to a (r ∷ rs) [] = pos 0
owed_to a (r ∷ rs) (x ∷ xs) = (if ltb_ℤ (pos 0) x && r == a then x else pos 0) +ℤ owed_to a rs xs

pub owed : List ℤ → ℤ
owed [] = pos 0
owed (x ∷ xs) = (if ltb_ℤ (pos 0) x then x else pos 0) +ℤ owed xs

credit_if_positive_paid :
    (r a : Address) (x : ℤ) (s : Storage)
    → Ensures
        (λ s'.
          (balance s' a ≡ balance s a +ℤ (if ltb_ℤ (pos 0) x && r == a then x else pos 0))
          × (total_supply s' ≡ total_supply s +ℤ (if ltb_ℤ (pos 0) x then x else pos 0)))
        (credit_if_positive r x s)
unfolding credit_if_positive credit
credit_if_positive_paid r a x s = ground (
  arith,
  balance-set_balance s r a (balance s r +ℤ x),
  +ℤ_zero (balance s a),
  +ℤ_zero (total_supply s),
)

reward_all_paid :
    (a : Address) (rs : List Address) (xs : List ℤ) (s : Storage)
    → length rs ≡ length xs
    → Ensures
        (λ s'.
          (balance s' a ≡ balance s a +ℤ owed_to a rs xs)
          × (total_supply s' ≡ total_supply s +ℤ owed xs))
        (reward_all rs xs s)
unfolding reward_all owed_to owed
reward_all_paid a [] [] s h = (omega int_laws, omega int_laws)
reward_all_paid a [] (x ∷ xs) s h = absurd (omega arith)
reward_all_paid a (r ∷ rs) [] s h = tt
reward_all_paid a (r ∷ rs) (x ∷ xs) s h =
    Ensures->>= _ _ (credit_if_positive r x s) (reward_all rs xs) (credit_if_positive_paid r a x s)
      λ s1 k.
        Ensures-mono _ _ (reward_all rs xs s1) (reward_all_paid a rs xs s1 (omega arith))
          λ s2 l. (grind (int_laws, k.0, l.0), grind (int_laws, k.1, l.1))

-- A distribution that succeeds has as many amounts as recipients; it raises the balance of every
-- address by the sum of its positive amounts, and the supply by the sum of all positive amounts.
pub distribute_rewards_paid :
    (e : Env) (rs : List Address) (xs : List ℤ) (s s' : Storage)
    → distribute_rewards e rs xs s ≡ ok s'
    → (length rs ≡ length xs)
      × ((a : Address) → balance s' a ≡ balance s a +ℤ owed_to a rs xs)
      × (total_supply s' ≡ total_supply s +ℤ owed xs)
unfolding distribute_rewards
distribute_rewards_paid e rs xs s s' h =
    let same : length rs ≡ length xs = ground arith in
    (
      same,
      λ a. ground (arith, reward_all_paid a rs xs s same),
      ground (arith, reward_all_paid 0 rs xs s same),
    )

module _ {C : Type 0} (ctl : Controller C) where
  destroy-Minted :
      (e : Env) (from : Address) (x : ℤ) (reason : String) (s : Storage) (c : C)
      → pos 1 ≤ℤ x
      → Ensures (λ r. total_supply r.0 ≤ℤ total_supply s) (destroy ctl c s from x reason)
  unfolding destroy report_burn
  destroy-Minted e from x reason s c h = ground (arith, fact)
    where
      fact : total_supply s -ℤ x ≤ℤ total_supply s
      fact = omega int_laws

  -- The supply rises only in a call that an authorised minter has authorised.
  serve-Minted :
      (e : Env) (q : Request) (s : Storage) (c : C)
      → pos 0 ≤ℤ total_supply s
      → Ensures (λ r. Minted e s r.0) (serve ctl e q (s, c))
  unfolding serve
  serve-Minted e (Request.initialize o n y d) s c h = unfold RewardToken.initialize in ground arith
  serve-Minted e (Request.authorize_minter m) s c h =
      unfold RewardToken.authorize_minter in ground arith
  serve-Minted e (Request.revoke_minter m) s c h = unfold RewardToken.revoke_minter in ground arith
  serve-Minted e (Request.set_burn_controller o) s c h =
      unfold RewardToken.set_burn_controller in ground arith
  serve-Minted e (Request.mint m to x) s c h =
      Ensures->>= _ _ (RewardToken.mint e m to x s) _ (mint_authorised e m to x s)
        λ s' k low. (m, k.0, k.1)
  serve-Minted e (Request.distribute_rewards rs xs) s c h =
      Ensures->>= _ _ (distribute_rewards e rs xs s) _ (distribute_authorised e rs xs s)
        λ s' k low. (admin_of s, k.0, k.1)
  serve-Minted e (Request.approve o p x) s c h = unfold RewardToken.approve in ground arith
  serve-Minted e (Request.transfer from to x) s c h =
      Ensures-mono _ _ (transfer ctl e from to x (s, c)) (transfer-Paid ctl e from to x s c)
        λ r k low. absurd (grind (int_laws, burn_due_nonneg ctl c s.burn_controller x, k))
  serve-Minted e (Request.transfer_from p from to x) s c h =
      Ensures-mono _ _ (transfer_from ctl e p from to x (s, c))
        (transfer_from-Paid ctl e p from to x s c)
        λ r k low. absurd (grind (int_laws, burn_due_nonneg ctl c s.burn_controller x, k))
  serve-Minted e (Request.spend_for_unlock o x u) s c h =
      unfold RewardToken.spend_for_unlock in ground (arith, destroy-Minted e o x "unlock" s c)
  serve-Minted e (Request.burn o x) s c h =
      unfold RewardToken.burn in ground (arith, destroy-Minted e o x "vol" s c)

  -- If a request that succeeds raises a supply that is not negative, then an authorised minter (the
  -- admin or an address on the minters' list) authorised the call.
  pub supply_rise_authorised :
      (e : Env) (q : Request) (s : Storage) (c : C) (s' : Storage) (c' : C)
      → serve ctl e q (s, c) ≡ ok (s', c')
      → pos 0 ≤ℤ total_supply s
      → total_supply s <ℤ total_supply s'
      → (m : Address) × (e.has_auth m ≡ true) × (is_authorized_minter m s ≡ ok true)
  supply_rise_authorised e q s c s' c' h k =
      ensured (λ r. Minted e s r.0) (serve ctl e q (s, c)) (serve-Minted e q s c k) h
