-- ===== src/Base/Map.antt =====
-- Storage maps as association lists, over keys with a Boolean equality. A client keeps the
-- operations shut and works with the laws.
pub mod Laws
use Prim.Native.Nat.{ℕ}
use mathlib.Core.Path.{◌≡◌}
use mathlib.Core.Logic.{◌↔◌}
use mathlib.Core.Bool.{Bool, true, ◌&&◌}
use mathlib.Core.Option.{Option, none, some}
use mathlib.Core.List.{List, [], ◌∷◌}
use native.Mathlib.Omega.{arith}
use package.mindmint_contracts.Base.Tests.{◌==◌, ==_iff, if◌then◌else◌}

pub record Key (K : Type 0) : Type 0 where
  pub beq : K → K → Bool
  pub beq_iff : (a b : K) → (beq a b ≡ true) ↔ (a ≡ b)

instance abbrev pub nat_key : Key ℕ
nat_key = record { beq = ◌==◌; beq_iff = ==_iff }

abbrev pub pair_beq : ℕ × ℕ → ℕ × ℕ → Bool
pair_beq a b = a.0 == b.0 && a.1 == b.1

pub pair_beq_iff : (a b : ℕ × ℕ) → (pair_beq a b ≡ true) ↔ (a ≡ b)
pair_beq_iff (a, b) (c, d) = ground arith

instance abbrev pub pair_key : Key (ℕ × ℕ)
pair_key = record { beq = pair_beq; beq_iff = pair_beq_iff }

abbrev pub triple_beq : ℕ × ℕ × ℕ → ℕ × ℕ × ℕ → Bool
triple_beq a b = a.0 == b.0 && a.1 == b.1 && a.2 == b.2

pub triple_beq_iff : (a b : ℕ × ℕ × ℕ) → (triple_beq a b ≡ true) ↔ (a ≡ b)
triple_beq_iff (a, b, c) (d, f, g) = ground arith

instance abbrev pub triple_key : Key (ℕ × ℕ × ℕ)
triple_key = record { beq = triple_beq; beq_iff = triple_beq_iff }

abbrev pub Map : Type 0 → Type 0 → Type 0
Map K V = List (K × V)

module _ {K V : Type 0} ⦃k : Key K⦄ where
  unfoldable pub lookup : K → Map K V → Option V
  lookup a [] = none
  lookup a ((b, v) ∷ m) = if k.beq b a then some v else lookup a m

  unfoldable pub insert : K → V → Map K V → Map K V
  insert a v [] = (a, v) ∷ []
  insert a v ((b, w) ∷ m) = if k.beq b a then (a, v) ∷ m else (b, w) ∷ insert a v m

  unfoldable pub remove : K → Map K V → Map K V
  remove a [] = []
  remove a ((b, w) ∷ m) = if k.beq b a then remove a m else (b, w) ∷ remove a m
