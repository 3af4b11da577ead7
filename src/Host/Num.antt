-- ===== src/Host/Num.antt =====
-- Checked machine integers: an `i128` is an integer, a `u32` or `u64` a number, and an operation
-- whose result does not fit traps.
use mindmint_contracts.Base.{
  ◌≡◌, ◌<◌, true, arith, ℕ, ◌+◌, ◌-◌, ◌*◌, ◌/◌, ◌==◌, ◌^◌, Bool, ◌&&◌, ltb, leb, if◌then◌else◌,
}
use mindmint_contracts.Base.Int.{
  ◌≤ℤ◌, ◌<ℤ◌, ℤ, pos, ◌+ℤ◌, ◌-ℤ◌, ◌*ℤ◌, ◌/ℤ◌, eqb_ℤ, pos_part, neg_part,
}
use mindmint_contracts.Host.Call.{Result, ok, trap, Trap, Ensures}

unfoldable pub fits_i128 : ℤ → Bool
fits_i128 a = ltb (pos_part a) (2 ^ 127) && leb (neg_part a) (2 ^ 127)

abbrev pub checked : {E : Type 0} → ℤ → Result E ℤ
checked a = if fits_i128 a then ok a else trap Trap.overflow

abbrev pub add_i128 : {E : Type 0} → ℤ → ℤ → Result E ℤ
add_i128 a b = checked (a +ℤ b)

abbrev pub sub_i128 : {E : Type 0} → ℤ → ℤ → Result E ℤ
sub_i128 a b = checked (a -ℤ b)

abbrev pub mul_i128 : {E : Type 0} → ℤ → ℤ → Result E ℤ
mul_i128 a b = checked (a *ℤ b)

abbrev pub div_i128 : {E : Type 0} → ℤ → ℤ → Result E ℤ
div_i128 a b = if eqb_ℤ b (pos 0) then trap Trap.divided_by_zero else checked (a /ℤ b)

unfoldable pub fits_u64 : ℕ → Bool
fits_u64 a = ltb a (2 ^ 64)

abbrev pub add_u64 : {E : Type 0} → ℕ → ℕ → Result E ℕ
add_u64 a b = if fits_u64 (a + b) then ok (a + b) else trap Trap.overflow

unfoldable pub fits_u32 : ℕ → Bool
fits_u32 a = ltb a (2 ^ 32)

abbrev pub add_u32 : {E : Type 0} → ℕ → ℕ → Result E ℕ
add_u32 a b = if fits_u32 (a + b) then ok (a + b) else trap Trap.overflow

abbrev pub mul_u64 : {E : Type 0} → ℕ → ℕ → Result E ℕ
mul_u64 a b = if fits_u64 (a * b) then ok (a * b) else trap Trap.overflow

abbrev pub div_u64 : {E : Type 0} → ℕ → ℕ → Result E ℕ
div_u64 a b = if b == 0 then trap Trap.divided_by_zero else ok (a / b)

abbrev pub sub_u64 : {E : Type 0} → ℕ → ℕ → Result E ℕ
sub_u64 a b = if leb b a then ok (a - b) else trap Trap.overflow

pub fits_i128_nonneg : (a : ℤ) → pos 0 ≤ℤ a → a <ℤ pos (2 ^ 127) → fits_i128 a ≡ true
unfolding fits_i128
fits_i128_nonneg a h k = ground arith

pub fits_u64_lt : (a : ℕ) → a < 2 ^ 64 → fits_u64 a ≡ true
unfolding fits_u64
fits_u64_lt a h = ground arith

-- What a checked operation gives when it does not trap.
pub checked-Ensures : (E : Type 0) (a : ℤ) → Ensures {E = E} (λ r. r ≡ a) (checked a)
checked-Ensures E a = ground arith

pub div_i128-Ensures :
    (E : Type 0) (a : ℤ) (b : ℕ)
    → 0 < b
    → Ensures {E = E} (λ r. r ≡ a /ℤ pos b) (div_i128 a (pos b))
div_i128-Ensures E a b h = ground arith

pub add_u64-Ensures : (E : Type 0) (a b : ℕ) → Ensures {E = E} (λ r. r ≡ a + b) (add_u64 a b)
add_u64-Ensures E a b = ground arith

pub mul_u64-Ensures : (E : Type 0) (a b : ℕ) → Ensures {E = E} (λ r. r ≡ a * b) (mul_u64 a b)
mul_u64-Ensures E a b = ground arith

pub sub_u64-Ensures : (E : Type 0) (a b : ℕ) → Ensures {E = E} (λ r. r ≡ a - b) (sub_u64 a b)
sub_u64-Ensures E a b = ground arith

pub add_u32-Ensures : (E : Type 0) (a b : ℕ) → Ensures {E = E} (λ r. r ≡ a + b) (add_u32 a b)
add_u32-Ensures E a b = ground arith
