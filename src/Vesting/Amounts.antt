-- ===== src/Vesting/Amounts.antt =====
-- The vested amount of contracts/vesting_schedule/src/lib.rs over time.
use mindmint_contracts.Base.{
  ℕ, ◌≡◌, refl, ap, ◌+◌, ◌-◌, ◌*◌, ◌/◌, ◌≤◌, ◌<◌, leb, ltb, inl, inr, arith, Bool-cases,
  if◌then◌else◌,
}
use mindmint_contracts.Base.Int.{
  ℤ, pos, pos_part, neg_part, ◌*ℤ◌, ◌/ℤ◌, ◌≤ℤ◌, int_laws, eq-pos_part, *ℤ_pos, /ℤ_pos,
}
use mathlib.Core.Path.{subst, sym, ◌∙◌}
use native.Mathlib.Nat.{
  mul-le-mul_left, div-mul-le_self, div-le_of_le-mul, le-div_iff_mul-le, le_trans, mul_comm,
}
use mindmint_contracts.Host.Call.{ok, Ensures, Ensures->>=, Ensures-mono, ensured}
use mindmint_contracts.Host.Num.{
  add_u64, sub_u64, mul_i128, div_i128, checked-Ensures, div_i128-Ensures, add_u64-Ensures,
  sub_u64-Ensures,
}
use mindmint_contracts.Vesting.{VestingSchedule, calculate_vested_amount}

-- A positive amount, and a cliff before the end.
abbrev pub IsWellFormed : VestingSchedule → Type 0
IsWellFormed s = (pos 1 ≤ℤ s.total_amount) × s.cliff_duration < s.vesting_duration

-- The share that is vested between the cliff and the end, rounded down.
abbrev share : VestingSchedule → ℕ → ℕ
share s now =
    pos_part s.total_amount
    * (now - s.start_time - s.cliff_duration)
    / (s.vesting_duration - s.cliff_duration)

-- The vested amount, for amounts and times of any size.
abbrev pub vested : VestingSchedule → ℕ → ℕ
vested s now =
    if ltb now (s.start_time + s.cliff_duration)
    then 0
    else if leb (s.start_time + s.vesting_duration) now
    then pos_part s.total_amount
    else share s now

pub calculate_vested_amount-Ensures :
    (now : ℕ) (s : VestingSchedule)
    → IsWellFormed s
    → Ensures (λ v. v ≡ pos (vested s now)) (calculate_vested_amount now s)
unfolding calculate_vested_amount
calculate_vested_amount-Ensures now s (positive, cliff) =
    let exact : s.total_amount ≡ pos (pos_part s.total_amount) =
      eq-pos_part s.total_amount (omega (int_laws, positive)) in
    Ensures->>= _ _ (add_u64 s.start_time s.cliff_duration) _
      (add_u64-Ensures _ s.start_time s.cliff_duration)
      λ cliff_end r1. rw r1 (elim (Bool-cases (ltb now (s.start_time + s.cliff_duration))) [
        | inl early ↦ rw early refl
        | inr begun ↦ rw begun (
            Ensures->>= _ _ (add_u64 s.start_time s.vesting_duration) _
              (add_u64-Ensures _ s.start_time s.vesting_duration)
              λ end r2. rw r2 (elim (Bool-cases (leb (s.start_time + s.vesting_duration) now)) [
                | inl over ↦ rw over exact
                | inr going ↦ rw going (
                    Ensures->>= _ _ (sub_u64 now s.start_time) _
                      (sub_u64-Ensures _ now s.start_time)
                      λ since r3.
                        Ensures->>= _ _ (sub_u64 since s.cliff_duration) _
                          (sub_u64-Ensures _ since s.cliff_duration)
                          λ elapsed r4.
                            Ensures->>= _ _ (sub_u64 s.vesting_duration s.cliff_duration) _
                              (sub_u64-Ensures _ s.vesting_duration s.cliff_duration)
                              λ period r5.
                                Ensures->>= _ _ (mul_i128 s.total_amount (pos elapsed)) _
                                  (checked-Ensures _ (s.total_amount *ℤ pos elapsed))
                                  λ scaled r6.
                                    Ensures-mono _ _ (div_i128 scaled (pos period))
                                      (div_i128-Ensures _ scaled period (ground (arith, r5)))
                                      λ v r7.
                                        r7
                                        ∙ rw (r6, r5, r4, r3)
                                            (subst
                                              (λ m.
                                                (m *ℤ pos (now - s.start_time - s.cliff_duration))
                                                  /ℤ pos (s.vesting_duration - s.cliff_duration)
                                                ≡ pos (share s now))
                                              (sym exact) (rw (*ℤ_pos, /ℤ_pos) refl)))
              ]))
      ])

share_bound :
    (s : VestingSchedule) (now : ℕ)
    → s.cliff_duration < s.vesting_duration
    → now ≤ s.start_time + s.vesting_duration
    → share s now ≤ pos_part s.total_amount
share_bound s now cliff h = div-le_of_le-mul (s.vesting_duration - s.cliff_duration) (
    subst (λ m. pos_part s.total_amount * (now - s.start_time - s.cliff_duration) ≤ m)
      (mul_comm (pos_part s.total_amount) (s.vesting_duration - s.cliff_duration))
      (mul-le-mul_left (pos_part s.total_amount) (omega arith)))

share_mono :
    (s : VestingSchedule) (now later : ℕ)
    → s.cliff_duration < s.vesting_duration
    → now ≤ later
    → share s now ≤ share s later
share_mono s now later cliff h =
    let lasting : 0 < s.vesting_duration - s.cliff_duration = omega arith in
    (le-div_iff_mul-le lasting).1 (
      le_trans (div-mul-le_self _ (s.vesting_duration - s.cliff_duration))
        (mul-le-mul_left (pos_part s.total_amount) (omega arith)))

pub vested_bound :
    (s : VestingSchedule) (now : ℕ)
    → s.cliff_duration < s.vesting_duration
    → vested s now ≤ pos_part s.total_amount
vested_bound s now cliff = grind (arith, share_bound s now cliff)

pub vested_mono :
    (s : VestingSchedule) (now later : ℕ)
    → s.cliff_duration < s.vesting_duration
    → now ≤ later
    → vested s now ≤ vested s later
vested_mono s now later cliff h =
    grind (arith, share_bound s now cliff, share_mono s now later cliff h)

pub vested_le_total :
    (s : VestingSchedule) (now : ℕ) → IsWellFormed s → pos (vested s now) ≤ℤ s.total_amount
vested_le_total s now formed =
    omega
      (arith, vested_bound s now formed.1, ap neg_part (eq-pos_part s.total_amount (omega arith)))

-- For a schedule with a positive amount and a cliff before its end, the vested amount is, whenever
-- the contract computes it, not negative, at most the total amount, and never lower than at an
-- earlier time.
pub vested_grows :
    (s : VestingSchedule) (now later : ℕ) (v v' : ℤ)
    → IsWellFormed s
    → now ≤ later
    → calculate_vested_amount now s ≡ ok v
    → calculate_vested_amount later s ≡ ok v'
    → (pos 0 ≤ℤ v) × (v ≤ℤ v') × (v' ≤ℤ s.total_amount)
vested_grows s now later v v' formed h first second =
    let a =
      ensured _ (calculate_vested_amount now s) (calculate_vested_amount-Ensures now s formed)
        first in
    let b =
      ensured _ (calculate_vested_amount later s) (calculate_vested_amount-Ensures later s formed)
        second in
    rw (a, b)
      (
        omega arith,
        omega (arith, vested_mono s now later formed.1 h),
        vested_le_total s later formed,
      )
