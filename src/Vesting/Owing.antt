-- ===== src/Vesting/Owing.antt =====
-- What the contract of contracts/vesting_schedule/src/lib.rs owes, and what every schedule keeps.
use mindmint_contracts.Base.{
  ℕ, ◌≡◌, ap, sym, ◌∙◌, ◌≤◌, Bool, false, Option, some, if◌then◌else◌, inl, inr, arith,
  Option-cases, get_or,
}
use mindmint_contracts.Base.Int.{ℤ, pos, ◌+ℤ◌, ◌-ℤ◌, ◌≤ℤ◌, int_laws}
use mindmint_contracts.Base.Map.{nat_key, lookup, insert}
use mindmint_contracts.Base.Map.Laws.{total, weight, total-insert, all-insert}
use mindmint_contracts.Host.Call.{Address, Env, ok, Ensures, Ensures-mono, ensured}
use mindmint_contracts.Host.Tokens.{Tokens, IsTokens}
use mindmint_contracts.Vesting.{VestingSchedule, Storage, calculate_vested_amount}
use mindmint_contracts.Vesting.Amounts.{
  IsWellFormed, vested, vested_mono, vested_bound, calculate_vested_amount-Ensures,
}
use mindmint_contracts.Vesting.Schedules.{
  create_schedule, release, revoke_schedule, modify_schedule,
}
use mindmint_contracts.Vesting.Payouts.{release-IsReleased, revoke_schedule-IsRevoked}
use mindmint_contracts.Vesting.Effects.{
  SameRoles, create_schedule-IsCreated, modify_schedule-IsModified,
}

-- What a schedule still owes: nothing once it is revoked.
abbrev pub owed_by : VestingSchedule → ℤ
owed_by c = if c.revoked then pos 0 else c.total_amount -ℤ c.released_amount

abbrev pub owed : Storage → ℤ
owed s = total owed_by s.schedules

-- What was released is not negative and, until the schedule is revoked, at most what is vested.
abbrev pub IsSound : ℕ → VestingSchedule → Type 0
IsSound now c =
    IsWellFormed c
    × (pos 0 ≤ℤ c.released_amount)
    × (c.revoked ≡ false → c.released_amount ≤ℤ pos (vested c now))

abbrev pub AreSound : ℕ → Storage → Type 0
AreSound now s = (i : ℕ) (c : VestingSchedule) → lookup i s.schedules ≡ some c → IsSound now c

module _ {W : Type 0} (t : Tokens W) (this : Address) where
  abbrev pub IsBacked : ℕ → Storage × W → Type 0
  IsBacked now (s, w) =
      ((a : Address) × (s.admin ≡ some a))
      × ((d : Address) → s.token ≡ some d → owed s ≤ℤ t.balance w d this)
      × AreSound now s

pub IsSound-later :
    (now later : ℕ) (c : VestingSchedule) → now ≤ later → IsSound now c → IsSound later c
IsSound-later now later c h (formed, nonneg, kept) =
    (formed, nonneg, λ live. omega (arith, kept live, vested_mono c now later formed.1 h))

owed_by_nonneg : (now : ℕ) (c : VestingSchedule) → IsSound now c → pos 0 ≤ℤ owed_by c
owed_by_nonneg now c (formed, nonneg, kept) = grind (int_laws, kept, vested_bound c now formed.1)

owed-at_nonneg :
    (now i : ℕ) (s : Storage) → AreSound now s → pos 0 ≤ℤ weight owed_by (lookup i s.schedules)
owed-at_nonneg now i s sound = elim (Option-cases (lookup i s.schedules)) [
  | inl missing ↦ rw missing (ground arith)
  | inr (c, found) ↦ rw found (owed_by_nonneg now c (sound i c found))
]

-- The exact amount that a call computes.
pub exact :
    (now : ℕ) (c : VestingSchedule) (v : ℤ)
    → IsWellFormed c
    → calculate_vested_amount now c ≡ ok v
    → v ≡ pos (vested c now)
exact now c v formed h =
    ensured (λ x. x ≡ pos (vested c now)) (calculate_vested_amount now c)
      (calculate_vested_amount-Ensures now c formed) h

module _ {W : Type 0} (t : Tokens W) (laws : IsTokens t) (e : Env)
    (alone : e.has_auth e.current_contract ≡ false) where
  abbrev own : Address
  own = e.current_contract

  abbrev now : ℕ
  now = e.timestamp

  token_of : {o : Option Address} {token d : Address} → o ≡ some token → o ≡ some d → token ≡ d
  token_of {d = d} known h = ap (λ o. get_or o d) (sym known ∙ h)

  -- One schedule is written, and the balance follows what is owed.
  written :
      (s s' : Storage) (w w' : W) (i : ℕ) (c : VestingSchedule)
      → IsBacked t own now (s, w)
      → SameRoles s s'
      → s'.schedules ≡ insert i c s.schedules
      → IsSound now c
      → ((d : Address)
          → s.token ≡ some d
          → owed_by c +ℤ t.balance w d own
            ≤ℤ weight owed_by (lookup i s.schedules) +ℤ t.balance w' d own)
      → IsBacked t own now (s', w')
  written s s' w w' i c ((a, set), backed, sound) (same_admin, same_token) stored fine paid = (
    (a, same_admin ∙ set),
    λ d h. rw stored (
        grind (
          int_laws,
          total-insert owed_by i c s.schedules,
          backed d (sym same_token ∙ h),
          paid d (sym same_token ∙ h),
        )),
    rw stored (all-insert (λ _ u. IsSound now u) i c s.schedules fine sound),
  )

  pub create_schedule-IsBacked :
      (b : Address) (x : ℤ) (start cliff duration : ℕ) (revocable : Bool) (s : Storage) (w : W)
      → IsBacked t own now (s, w)
      → Ensures
          (λ r. IsBacked t own now (r.1, r.2))
          (create_schedule t e b x start cliff duration revocable (s, w))
  create_schedule-IsBacked b x start cliff duration revocable s w v =
      Ensures-mono _ _ (create_schedule t e b x start cliff duration revocable (s, w))
        (create_schedule-IsCreated t e b x start cliff duration revocable s w)
        λ r (i, c, a, token, (set, signed), formed, fresh, live, same, stored, known, paid).
          written s r.1 w r.2 i c v same stored
            (formed, ground (arith, fresh), λ h. rw fresh (omega arith))
            λ d h. grind (
              int_laws,
              token_of known h,
              signed,
              alone,
              fresh,
              live,
              owed-at_nonneg now i s v.2,
              laws.transfer_moves w token a own c.total_amount r.2 paid d own,
            )

  pub release-IsBacked :
      (i : ℕ) (s : Storage) (w : W)
      → IsBacked t own now (s, w)
      → Ensures (λ r. IsBacked t own now (r.1, r.2)) (release t e i (s, w))
  release-IsBacked i s w v =
      Ensures-mono _ _ (release t e i (s, w)) (release-IsReleased t e i s w)
        λ r
            (
              c,
              (
                (found, live),
                signed,
                running,
                same,
                (x, token, computed, due, positive, stored, known, paid),
              ),
            ).
          let sound = v.2 i c found in
          let total : x ≡ pos (vested c now) = exact now c x sound.0 computed in
          written s r.1 w r.2 i _ v same stored
            (sound.0, rw total (omega arith), λ h. rw total (omega arith))
            λ d h. rw found (
              grind (
                int_laws,
                token_of known h,
                signed,
                alone,
                live,
                due,
                laws.transfer_moves w token own c.beneficiary r.0 r.2 paid d own,
              ))

  pub revoke_schedule-IsBacked :
      (i : ℕ) (s : Storage) (w : W)
      → IsBacked t own now (s, w)
      → Ensures (λ r. IsBacked t own now (r.1, r.2)) (revoke_schedule t e i (s, w))
  revoke_schedule-IsBacked i s w v =
      Ensures-mono _ _ (revoke_schedule t e i (s, w)) (revoke_schedule-IsRevoked t e i s w)
        λ r (c, ((found, live), may, same, (a, x, (set, signed), computed, rest, stored, moved))).
          let sound = v.2 i c found in
          let total : x ≡ pos (vested c now) = exact now c x sound.0 computed in
          written s r.1 w r.2 i _ v same stored (sound.0, sound.1, λ h. absurd (ground (arith, h)))
            λ d h. rw found (elim moved [
              | inl (nothing, kept) ↦ rw kept (omega (int_laws, owed_by_nonneg now c sound))
              | inr (token, known, paid) ↦ grind (
                int_laws,
                token_of known h,
                signed,
                alone,
                live,
                rest,
                sound.2 live,
                total,
                laws.transfer_moves w token own a r.0 r.2 paid d own,
              )
            ])

  pub modify_schedule-IsBacked :
      (i x y : ℕ) (s : Storage) (w : W)
      → IsBacked t own now (s, w)
      → Ensures (λ s'. IsBacked t own now (s', w)) (modify_schedule e i x y s)
  modify_schedule-IsBacked i x y s w v =
      Ensures-mono _ _ (modify_schedule e i x y s) (modify_schedule-IsModified e i x y s)
        λ s' (c, ((found, live), admin, same, (c', p, q, timed, before, after, kept, stored))).
          let sound = v.2 i c found in
          let (same_total, same_released, same_revoked, formed) = timed in
          let first : p ≡ pos (vested c now) = exact now c p sound.0 before in
          let second : q ≡ pos (vested c' now) = exact now c' q (formed sound.0) after in
          written s s' w w i _ v same stored
            (
              formed sound.0,
              rw same_released sound.1,
              λ h. rw same_released (grind (arith, sound.2 live, first, second, kept)),
            )
            λ d h. rw found (grind (int_laws, same_total, same_released, same_revoked))
