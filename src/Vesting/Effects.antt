-- ===== src/Vesting/Effects.antt =====
-- What the calls of contracts/vesting_schedule/src/lib.rs do when they succeed.
use Prim.Native.String.{String}
use mindmint_contracts.Base.{
  ℕ, ◌≡◌, refl, sym, ◌∙◌, Bool, true, false, some, none, length, suc, leb, ltb, ◌==◌, get_or, inl,
  inr, arith, Bool-cases,
}
use mindmint_contracts.Base.Int.{ℤ, pos, ◌≤ℤ◌, leb_ℤ, ltb_ℤ}
use mindmint_contracts.Base.Map.{nat_key, lookup, insert}
use mindmint_contracts.Host.Call.{
  Address, Env, ok, Ensures, Ensures->>=, Ensures-mono, Ensures-any, Result-Ensures, after_auth,
  after_panic_if, after_expect, after_unwrap, after_invoke,
}
use mindmint_contracts.Host.Num.{add_u64, mul_u64}
use mindmint_contracts.Host.Tokens.{Tokens}
use mindmint_contracts.Vesting.{
  EventType, VestingSchedule, Storage, require_admin, is_paused, free_key, get_next_schedule_id,
  calculate_vested_amount, record_history,
}
use mindmint_contracts.Vesting.Amounts.{IsWellFormed}
use mindmint_contracts.Vesting.Schedules.{
  list_schedule, create_schedule, change_cliff, change_duration, modify_schedule,
}

-- Neither the admin nor the token changes.
abbrev pub SameRoles : Storage → Storage → Type 0
SameRoles s s' = (s'.admin ≡ s.admin) × (s'.token ≡ s.token)

pub record_history-SameRoles :
    (e : Env) (id : ℕ) (kind : EventType) (x : ℤ) (text : String) (s : Storage)
    → Ensures
        (λ s'. SameRoles s s' × (s'.schedules ≡ s.schedules))
        (record_history e id kind x text s)
unfolding record_history
record_history-SameRoles e id kind x text s =
    Ensures->>= _ _ (mul_u64 id 1000) _ (Ensures-any _) λ base _.
      Ensures->>= _ _ (free_key (suc (length s.vesting_history)) base 0 s.vesting_history) _
        (Ensures-any _) λ key _. ((refl, refl), refl)

get_next_schedule_id-SameRoles :
    (s : Storage)
    → Ensures (λ r. SameRoles s r.1 × (r.1.schedules ≡ s.schedules)) (get_next_schedule_id s)
unfolding get_next_schedule_id
get_next_schedule_id-SameRoles s =
    Ensures->>= _ _ (add_u64 (get_or s.next_schedule_id 0) 1) _ (Ensures-any _)
      λ next _. ((refl, refl), refl)

-- The admin has authorised the call.
abbrev pub IsAdmin : Env → Storage → Address → Type 0
IsAdmin e s a = (s.admin ≡ some a) × (e.has_auth a ≡ true)

pub require_admin-IsAdmin : (e : Env) (s : Storage) → Ensures (IsAdmin e s) (require_admin e s)
require_admin-IsAdmin e s =
    after_unwrap _ s.admin _ λ a set. after_auth _ e a _ λ signed. (set, signed)

-- A change of the cliff or of the duration keeps the amounts, and a well-formed schedule so.
abbrev pub IsRetimed : VestingSchedule → VestingSchedule → Type 0
IsRetimed c c' =
    (c'.total_amount ≡ c.total_amount)
    × (c'.released_amount ≡ c.released_amount)
    × (c'.revoked ≡ c.revoked)
    × (IsWellFormed c → IsWellFormed c')

change_cliff-IsRetimed : (x : ℕ) (c : VestingSchedule) → Ensures (IsRetimed c) (change_cliff x c)
change_cliff-IsRetimed x c = elim (Bool-cases (ltb 0 x)) [
  | inl new ↦ rw new (
      after_panic_if _ (leb c.vesting_duration x) _ _
        λ shorter. (refl, refl, refl, λ h. (h.0, ground arith)))
  | inr kept ↦ rw kept (refl, refl, refl, λ h. h)
]

change_duration-IsRetimed :
    (x : ℕ) (c : VestingSchedule) → Ensures (IsRetimed c) (change_duration x c)
change_duration-IsRetimed x c = elim (Bool-cases (ltb 0 x)) [
  | inl new ↦ rw new (
      after_panic_if _ (leb x c.cliff_duration) _ _
        λ longer. (refl, refl, refl, λ h. (h.0, ground arith)))
  | inr kept ↦ rw kept (refl, refl, refl, λ h. h)
]

-- A schedule that is not revoked, found in the storage.
abbrev pub IsOpen : Storage → ℕ → VestingSchedule → Type 0
IsOpen s i c = (lookup i s.schedules ≡ some c) × (c.revoked ≡ false)

abbrev pub IsModified : Env → ℕ → Storage → Storage → VestingSchedule → Type 0
IsModified e i s s' c =
    IsOpen s i c
    × ((a : Address) × IsAdmin e s a)
    × SameRoles s s'
    × ((c' : VestingSchedule) × (v : ℤ) × (v' : ℤ) × IsRetimed c c'
        × (calculate_vested_amount e.timestamp c ≡ ok v)
        × (calculate_vested_amount e.timestamp c' ≡ ok v')
        × (v ≤ℤ v')
        × (s'.schedules ≡ insert i (record c' { modified_at = some e.timestamp }) s.schedules))

pub modify_schedule-IsModified :
    (e : Env) (i x y : ℕ) (s : Storage)
    → Ensures (λ s'. (c : VestingSchedule) × IsModified e i s s' c) (modify_schedule e i x y s)
unfolding modify_schedule
modify_schedule-IsModified e i x y s =
    Ensures->>= _ _ (require_admin e s) _ (require_admin-IsAdmin e s) λ a admin.
      after_panic_if _ (is_paused s) _ _ λ running.
        after_expect _ (lookup i s.schedules) _ _ λ c found. after_panic_if _ c.revoked _ _ λ live.
          Ensures->>= _ _ (calculate_vested_amount e.timestamp c) _ (Result-Ensures _) λ v r1.
            Ensures->>= _ _ (change_cliff x c) _ (change_cliff-IsRetimed x c) λ c1 k1.
              Ensures->>= _ _ (change_duration y c1) _ (change_duration-IsRetimed y c1) λ c2 k2.
                Ensures->>= _ _ (calculate_vested_amount e.timestamp c2) _ (Result-Ensures _)
                  λ v' r2. after_panic_if _ (ltb_ℤ v' v) _ _ λ kept.
                    Ensures-mono _ _ (record_history e i _ _ _ _)
                      (record_history-SameRoles e i _ _ _ _)
                      λ s' (same, stored). (
                        c,
                        (
                          (found, live),
                          (a, admin),
                          same,
                          (
                            c2,
                            v,
                            v',
                            (k2.0 ∙ k1.0, k2.1 ∙ k1.1, k2.2 ∙ k1.2, λ h. k2.3 (k1.3 h)),
                            r1,
                            r2,
                            ground arith,
                            stored,
                          ),
                        ),
                      )

module _ {W : Type 0} (t : Tokens W) where
  abbrev pub IsCreated : Env → Storage × W → Storage × W → Type 0
  IsCreated e st st' =
      (i : ℕ) × (c : VestingSchedule) × (a : Address) × (token : Address) × IsAdmin e st.0 a
      × IsWellFormed c
      × (c.released_amount ≡ pos 0)
      × (c.revoked ≡ false)
      × SameRoles st.0 st'.0
      × (st'.0.schedules ≡ insert i c st.0.schedules)
      × (st.0.token ≡ some token)
      × (t.transfer st.1 token a e.current_contract c.total_amount ≡ some st'.1)

  pub create_schedule-IsCreated :
      (e : Env) (b : Address) (x : ℤ) (start cliff duration : ℕ) (revocable : Bool) (s : Storage)
      (w : W)
      → Ensures
          (λ r. IsCreated e (s, w) (r.1, r.2))
          (create_schedule t e b x start cliff duration revocable (s, w))
  unfolding create_schedule list_schedule
  create_schedule-IsCreated e b x start cliff duration revocable s w =
      Ensures->>= _ _ (require_admin e s) _ (require_admin-IsAdmin e s) λ a admin.
        after_panic_if _ (is_paused s) _ _ λ running.
          after_panic_if _ (leb_ℤ x (pos 0)) _ _ λ positive.
            after_panic_if _ (duration == 0) _ _ λ lasting.
              after_panic_if _ (leb duration cliff) _ _ λ shorter.
                Ensures->>= _ _ (get_next_schedule_id s) _ (get_next_schedule_id-SameRoles s)
                  λ (i, s1) (same, kept).
                    Ensures->>= _ _ (record_history e i _ _ _ _) _
                      (record_history-SameRoles e i _ _ _ _)
                      λ s3 (same', stored). after_unwrap _ s3.token _ λ token set.
                        after_invoke _ (t.transfer w token a e.current_contract x) _ λ w1 paid.
                          let c : VestingSchedule = record {
                            schedule_id = i;
                            beneficiary = b;
                            total_amount = x;
                            released_amount = pos 0;
                            start_time = start;
                            cliff_duration = cliff;
                            vesting_duration = duration;
                            revocable = revocable;
                            revoked = false;
                            created_at = e.timestamp;
                            modified_at = none;
                          } in
                          (
                            i,
                            c,
                            a,
                            token,
                            admin,
                            (ground arith, ground arith),
                            refl,
                            refl,
                            (same'.0 ∙ same.0, same'.1 ∙ same.1),
                            stored ∙ rw kept refl,
                            sym same.1 ∙ sym same'.1 ∙ set,
                            paid,
                          )
