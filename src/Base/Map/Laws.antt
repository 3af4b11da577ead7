-- ===== src/Base/Map/Laws.antt =====
-- The laws of storage maps: what is found after each update, and weighted totals over the entries.
use mathlib.Core.Path.{◌≡◌, refl, ap, subst}
use mathlib.Core.Logic.{inl, inr, ◌≢◌}
use mathlib.Core.Bool.{true, false}
use mathlib.Core.Option.{Option, none, some}
use mathlib.Core.List.{[], ◌∷◌}
use native.Mathlib.Omega.{arith}
use package.mindmint_contracts.Base.Tests.{get_or, if◌then◌else◌, Bool-cases}
use package.mindmint_contracts.Base.Int.{ℤ, pos, ◌+ℤ◌, int_laws}
use package.mindmint_contracts.Base.Map.{Key, Map, lookup, insert, remove}

module _ {K : Type 0} ⦃k : Key K⦄ where
  pub beq_refl : (a : K) → k.beq a a ≡ true
  beq_refl a = (k.beq_iff a a).1 refl

  pub beq_ne : (a b : K) → a ≢ b → k.beq a b ≡ false
  beq_ne a b h = elim (Bool-cases (k.beq a b)) [
    | inl e ↦ absurd (h ((k.beq_iff a b).0 e))
    | inr e ↦ e
  ]

module _ {K V : Type 0} ⦃k : Key K⦄ where
  pub lookup-insert :
      (a b : K) (v : V) (m : Map K V)
      → lookup b (insert a v m) ≡ (if k.beq a b then some v else lookup b m)
  unfolding lookup insert
  lookup-insert a b v [] = refl
  lookup-insert a b v ((c, w) ∷ m) =
      grind (arith, lookup-insert a b v m, k.beq_iff c a, k.beq_iff c b, k.beq_iff a b)

  pub lookup-insert_self : (a : K) (v : V) (m : Map K V) → lookup a (insert a v m) ≡ some v
  lookup-insert_self a v m = rw (lookup-insert, beq_refl)

  pub lookup-insert_ne :
      (a b : K) (v : V) (m : Map K V) → a ≢ b → lookup b (insert a v m) ≡ lookup b m
  lookup-insert_ne a b v m h = rw lookup-insert (rw (beq_ne a b h))

  pub lookup-remove :
      (a b : K) (m : Map K V) → lookup b (remove a m) ≡ (if k.beq a b then none else lookup b m)
  unfolding lookup remove
  lookup-remove a b [] = grind arith
  lookup-remove a b ((c, w) ∷ m) =
      grind (arith, lookup-remove a b m, k.beq_iff c a, k.beq_iff c b, k.beq_iff a b)

-- What holds of the new entry and of all others holds of all after an insertion.
pub all-insert :
    {K V : Type 0} ⦃k : Key K⦄ (P : K → V → Type 0) (a : K) (v : V) (m : Map K V)
    → P a v
    → ((b : K) (u : V) → lookup b m ≡ some u → P b u)
    → (b : K) (u : V) → lookup b (insert a v m) ≡ some u
    → P b u
all-insert ⦃k = k⦄ P a v m here others b u h = elim (Bool-cases (k.beq a b)) [
  | inl same ↦
      let found : some v ≡ some u = rw (lookup-insert, same) at h in
      subst (λ c. P c u) ((k.beq_iff a b).0 same) (subst (P a) (ap (λ o. get_or o v) found) here)
  | inr other ↦ others b u (rw (lookup-insert, other) at h)
]

-- What the entries weigh together, and what one weighs when it may be missing.
module _ {K V : Type 0} (f : V → ℤ) where
  unfoldable pub total : Map K V → ℤ
  total [] = pos 0
  total ((_, v) ∷ m) = f v +ℤ total m

abbrev pub weight {ℓ} : {V : Type ℓ} → (V → ℤ) → Option V → ℤ
weight f none = pos 0
weight f (some v) = f v

module _ {K V : Type 0} ⦃k : Key K⦄ (f : V → ℤ) where
  -- An update trades the old weight for the new one.
  pub total-insert :
      (a : K) (v : V) (m : Map K V)
      → total f (insert a v m) +ℤ weight f (lookup a m) ≡ total f m +ℤ f v
  unfolding lookup insert total
  total-insert a v [] = omega int_laws
  total-insert a v ((b, w) ∷ m) = grind (int_laws, total-insert a v m)

-- Totals whose weights also look at the key.
module _ {K V : Type 0} (f : K → V → ℤ) where
  unfoldable pub total_by : Map K V → ℤ
  total_by [] = pos 0
  total_by ((a, v) ∷ m) = f a v +ℤ total_by m

module _ {K V : Type 0} ⦃k : Key K⦄ (f : K → V → ℤ) where
  pub total_by-insert :
      (a : K) (v : V) (m : Map K V)
      → total_by f (insert a v m) +ℤ weight (f a) (lookup a m) ≡ total_by f m +ℤ f a v
  unfolding lookup insert total_by
  total_by-insert a v [] = omega int_laws
  total_by-insert a v ((b, w) ∷ m) = grind (int_laws, total_by-insert a v m, k.beq_iff b a)
