-- ===== src/RewardToken/Rights.antt =====
-- Who can lower a balance and who can raise the supply in contracts/reward_token/src/lib.rs.
use Prim.Native.String.{String}
use mindmint_contracts.Base.{◌≡◌, true, List, [], ◌∷◌, arith, ◌⊎◌, inl, inr}
use mindmint_contracts.Base.Int.{ℤ, pos, ◌+ℤ◌, ◌-ℤ◌, ◌≤ℤ◌, ◌<ℤ◌, int_laws}
use mindmint_contracts.Host.Call.{Address, Env, ok, Ensures, Ensures->>=, Ensures-mono, ensured}
use mindmint_contracts.RewardToken
use mindmint_contracts.RewardToken.{
  Storage, Controller, balance, set_balance, allowance, total_supply, set_supply, credit,
  credit_if_positive, reward_all, transfer, transfer_from, destroy, report_burn,
  is_authorized_minter,
}
use mindmint_contracts.RewardToken.Balances.{balance-set_balance}
use mindmint_contracts.RewardToken.Entry.{Request, serve}
use mindmint_contracts.RewardToken.Fees.{IsController, burn_due-le}
use mindmint_contracts.RewardToken.Transfers.{Paid-balance, transfer-Paid, transfer_from-Paid}

-- Nobody has less, and the supply has not fallen.
abbrev Grows : Storage → Storage → Type 0
Grows s s' = (a : Address) → balance s a ≤ℤ balance s' a

credit-Grows : (to : Address) (x : ℤ) (s : Storage) → pos 0 ≤ℤ x → Ensures (Grows s) (credit to x s)
unfolding credit
credit-Grows to x s h = ground (arith, grown)
  where
    grown : (a : Address) → balance s a ≤ℤ balance (set_balance s to (balance s to +ℤ x)) a
    grown a = grind (int_laws, balance-set_balance s to a (balance s to +ℤ x))

credit_if_positive-Grows :
    (to : Address) (x : ℤ) (s : Storage) → Ensures (Grows s) (credit_if_positive to x s)
unfolding credit_if_positive
credit_if_positive-Grows to x s =
    let same : Grows s s = λ a. omega arith in ground (arith, same, credit-Grows to x s)

reward_all-Grows :
    (rs : List Address) (xs : List ℤ) (s : Storage) → Ensures (Grows s) (reward_all rs xs s)
unfolding reward_all
reward_all-Grows [] xs s = λ a. omega arith
reward_all-Grows (r ∷ rs) [] s = tt
reward_all-Grows (r ∷ rs) (x ∷ xs) s =
    Ensures->>= (Grows s) (Grows s) (credit_if_positive r x s) (reward_all rs xs)
      (credit_if_positive-Grows r x s)
      λ s1 h.
        Ensures-mono (Grows s1) (Grows s) (reward_all rs xs s1) (reward_all-Grows rs xs s1)
          λ s2 k a. omega (arith, h a, k a)

mint-Grows :
    (e : Env) (m to : Address) (x : ℤ) (s : Storage)
    → Ensures (Grows s) (RewardToken.mint e m to x s)
unfolding RewardToken.mint is_authorized_minter
mint-Grows e m to x s = ground (arith, credit-Grows to x s)

distribute_rewards-Grows :
    (e : Env) (rs : List Address) (xs : List ℤ) (s : Storage)
    → Ensures (Grows s) (RewardToken.distribute_rewards e rs xs s)
unfolding RewardToken.distribute_rewards
distribute_rewards-Grows e rs xs s = ground (arith, reward_all-Grows rs xs s)

Grows-not_lower : (s s' : Storage) (a : Address) → Grows s s' → ¬ (balance s' a <ℤ balance s a)
Grows-not_lower s s' a h = omega (arith, h a)

-- A lower balance was allowed: by its owner, or by an allowance of at least the difference for
-- someone who authorised the call.
abbrev Debited : Env → Storage → Address → Storage → Type 0
Debited e s a s' =
    balance s' a <ℤ balance s a
    → (e.has_auth a ≡ true)
      ⊎ ((p : Address) × (e.has_auth p ≡ true) × (balance s a -ℤ balance s' a ≤ℤ allowance s a p))

module _ {C : Type 0} (ctl : Controller C) (laws : IsController ctl) where
  transfer-Debited :
      (e : Env) (from to : Address) (x : ℤ) (s : Storage) (c : C) (a : Address)
      → Ensures (λ r. Debited e s a r.0) (transfer ctl e from to x (s, c))
  transfer-Debited e from to x s c a =
      Ensures-mono _ _ (transfer ctl e from to x (s, c)) (transfer-Paid ctl e from to x s c)
        λ r h low. inl (
          grind (
            int_laws,
            Paid-balance ctl c s from to x r.0 h.2 a,
            burn_due-le ctl laws c s.burn_controller x,
            h,
          ))

  transfer_from-Debited :
      (e : Env) (p from to : Address) (x : ℤ) (s : Storage) (c : C) (a : Address)
      → Ensures (λ r. Debited e s a r.0) (transfer_from ctl e p from to x (s, c))
  transfer_from-Debited e p from to x s c a =
      Ensures-mono _ _ (transfer_from ctl e p from to x (s, c))
        (transfer_from-Paid ctl e p from to x s c)
        λ r h low. inr (
          p,
          h.0,
          grind (
            int_laws,
            Paid-balance ctl c s from to x r.0 h.3 a,
            burn_due-le ctl laws c s.burn_controller x,
            h,
          ),
        )

  destroy-Debited :
      (e : Env) (from : Address) (x : ℤ) (reason : String) (s : Storage) (c : C) (a : Address)
      → e.has_auth from ≡ true
      → Ensures (λ r. Debited e s a r.0) (destroy ctl c s from x reason)
  unfolding destroy report_burn
  destroy-Debited e from x reason s c a h = ground (arith, fact)
    where
      fact : Debited e s a (set_balance s from (balance s from -ℤ x))
      fact low = inl (ground (arith, balance-set_balance s from a (balance s from -ℤ x)))

  -- A balance that a request lowers belongs to someone who authorised the call, or to the owner of
  -- an allowance, for someone who did, of at least what it lost.
  serve-Debited :
      (e : Env) (q : Request) (s : Storage) (c : C) (a : Address)
      → Ensures (λ r. Debited e s a r.0) (serve ctl e q (s, c))
  unfolding serve
  serve-Debited e (Request.initialize o n y d) s c a = unfold RewardToken.initialize in ground arith
  serve-Debited e (Request.authorize_minter m) s c a =
      unfold RewardToken.authorize_minter in ground arith
  serve-Debited e (Request.revoke_minter m) s c a = unfold RewardToken.revoke_minter in ground arith
  serve-Debited e (Request.set_burn_controller o) s c a =
      unfold RewardToken.set_burn_controller in ground arith
  serve-Debited e (Request.mint m to x) s c a =
      Ensures->>= (Grows s) _ (RewardToken.mint e m to x s) _ (mint-Grows e m to x s)
        λ s' g low. absurd (Grows-not_lower s s' a g low)
  serve-Debited e (Request.distribute_rewards rs xs) s c a =
      Ensures->>= (Grows s) _ (RewardToken.distribute_rewards e rs xs s) _
        (distribute_rewards-Grows e rs xs s) λ s' g low. absurd (Grows-not_lower s s' a g low)
  serve-Debited e (Request.approve o p x) s c a = unfold RewardToken.approve in ground arith
  serve-Debited e (Request.transfer from to x) s c a = transfer-Debited e from to x s c a
  serve-Debited e (Request.transfer_from p from to x) s c a =
      transfer_from-Debited e p from to x s c a
  serve-Debited e (Request.spend_for_unlock o x u) s c a =
      unfold RewardToken.spend_for_unlock in ground (arith, destroy-Debited e o x "unlock" s c a)
  serve-Debited e (Request.burn o x) s c a =
      unfold RewardToken.burn in ground (arith, destroy-Debited e o x "vol" s c a)

  -- If a request that succeeds lowers a balance, where the burn controller's rate is at most 10000,
  -- then the owner authorised the call, or someone did who had an allowance from the owner of at
  -- least what the balance lost.
  pub debit_authorised :
      (e : Env) (q : Request) (a : Address) (s : Storage) (c : C) (s' : Storage) (c' : C)
      → serve ctl e q (s, c) ≡ ok (s', c')
      → balance s' a <ℤ balance s a
      → (e.has_auth a ≡ true)
        ⊎ ((p : Address) × (e.has_auth p ≡ true) × (balance s a -ℤ balance s' a ≤ℤ allowance s a p))
  debit_authorised e q a s c s' c' h =
      ensured (λ r. Debited e s a r.0) (serve ctl e q (s, c)) (serve-Debited e q s c a) h
