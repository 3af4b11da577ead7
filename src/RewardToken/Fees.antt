-- ===== src/RewardToken/Fees.antt =====
-- The burnt part of a transfer (contracts/reward_token/src/lib.rs) against a description of it.
use Prim.Native.Nat.{◌*◌, ◌/◌}
use mindmint_contracts.Base.{
  ℕ, ◌≤◌, ◌≡◌, Option, none, some, if◌then◌else◌, arith, inl, inr, Option-cases,
}
use mindmint_contracts.Base.Int.{ℤ, pos, negsuc, pos_part, ◌-ℤ◌, ◌≤ℤ◌, -ℤ_zero, *ℤ_pos, /ℤ_pos}
use mindmint_contracts.Host.Call.{Address, Ensures}
use mindmint_contracts.RewardToken.{
  Storage, BurnConfigLocal, Controller, split_burn, settle_burn, report_burn, total_supply,
}

-- The documented range of the controller's rate, in basis points (token_burn's `MAX_BPS`).
pub record IsController {C : Type 0} (ctl : Controller C) : Type 0 where
  pub rate_le :
      (c : C) (a : Address) (cfg : BurnConfigLocal)
      → ctl.get_config c a ≡ some cfg
      → cfg.burn_rate ≤ 10_000

abbrev config_rate : Option BurnConfigLocal → ℕ
config_rate none = 0
config_rate (some cfg) = if cfg.enabled then cfg.burn_rate else 0

module _ {C : Type 0} (ctl : Controller C) where
  -- The rate that applies to a transfer: zero with no controller, or while burning is disabled.
  pub rate_at : C → Option Address → ℕ
  rate_at c none = 0
  rate_at c (some a) = config_rate (ctl.get_config c a)

  -- What a transfer burns: the rate's share of the amount, rounded down.
  pub burn_due : C → Option Address → ℤ → ℤ
  burn_due c o x = pos (pos_part x * rate_at c o / 10_000)

  pub rate_at-le : IsController ctl → (c : C) (o : Option Address) → rate_at c o ≤ 10_000
  unfolding rate_at
  rate_at-le laws c none = omega arith
  rate_at-le laws c (some a) = elim (Option-cases (ctl.get_config c a)) [
    | inl e ↦ rw e (omega arith)
    | inr (cfg, e) ↦ ground (arith, laws.rate_le c a cfg e)
  ]

  pub burn_due-le :
      IsController ctl → (c : C) (o : Option Address) (x : ℤ) → pos 0 ≤ℤ x → burn_due c o x ≤ℤ x
  unfolding burn_due
  burn_due-le laws c o x h = grind (arith, rate_at-le laws c o)

  pub burn_due_nonneg : (c : C) (o : Option Address) (x : ℤ) → pos 0 ≤ℤ burn_due c o x
  unfolding burn_due
  burn_due_nonneg c o x = omega arith

  pub split_burn_effect :
      (c : C) (s : Storage) (n : ℕ)
      → Ensures
          (λ r.
            r
            ≡ (pos n -ℤ burn_due c s.burn_controller (pos n), burn_due c s.burn_controller (pos n)))
          (split_burn ctl c s (pos n))
  unfolding split_burn burn_due rate_at
  split_burn_effect c s n = elim (Option-cases s.burn_controller) [
    | inl e ↦ ground (arith, -ℤ_zero (pos n))
    | inr (a, e) ↦ elim (Option-cases (ctl.get_config c a)) [
      | inl e2 ↦ ground arith
      | inr (cfg, e2) ↦
          ground (arith, *ℤ_pos n cfg.burn_rate, /ℤ_pos (n * cfg.burn_rate) 10_000, -ℤ_zero (pos n))
    ]
  ]

  -- What `settle_burn` leaves alone, and the supply.
  abbrev pub Settled : Storage → ℤ → Storage × C → Type 0
  Settled s burned (s', c') =
      (total_supply s' ≡ total_supply s -ℤ burned)
      × (s'.balances ≡ s.balances)
      × (s'.allowances ≡ s.allowances)
      × (s'.admin ≡ s.admin)

  pub settle_burn_effect :
      (c : C) (s : Storage) (x : ℤ) (source : Address)
      → pos 0 ≤ℤ x
      → Ensures (Settled s x) (settle_burn ctl c s x source)
  unfolding settle_burn report_burn
  settle_burn_effect c s (negsuc n) source h = absurd (omega arith)
  settle_burn_effect c s (pos n) source h = ground (arith, -ℤ_zero (total_supply s))
