-- ===== src/Vesting/Payouts.antt =====
-- What a release and a revocation of contracts/vesting_schedule/src/lib.rs do when they succeed.
use mindmint_contracts.Base.{
  ℕ, ◌≡◌, ◌⊎◌, refl, ◌∙◌, true, false, not, some, inl, inr, arith, Bool-cases,
}
use mindmint_contracts.Base.Int.{ℤ, pos, ◌+ℤ◌, ◌-ℤ◌, ◌≤ℤ◌, leb_ℤ, ltb_ℤ, int_laws}
use mindmint_contracts.Base.Map.{nat_key, lookup, insert}
use mindmint_contracts.Host.Call.{
  Address, Env, ok, invoke, Ensures, Ensures->>=, Ensures-mono, Result-Ensures, invoke-Ensures,
  after_auth, after_panic_if, after_expect, after_unwrap, after_invoke,
}
use mindmint_contracts.Host.Num.{add_i128, sub_i128, checked-Ensures}
use mindmint_contracts.Host.Tokens.{Tokens}
use mindmint_contracts.Vesting.{
  VestingSchedule, Storage, require_admin, is_paused, calculate_vested_amount, record_history,
}
use mindmint_contracts.Vesting.Schedules.{release, return_unvested, revoke_schedule}
use mindmint_contracts.Vesting.Effects.{
  SameRoles, IsAdmin, IsOpen, record_history-SameRoles, require_admin-IsAdmin,
}

module _ {W : Type 0} (t : Tokens W) where
  abbrev pub IsReleased : Env → ℕ → Storage × W → ℤ → Storage × W → VestingSchedule → Type 0
  IsReleased e i st r st' c =
      IsOpen st.0 i c
      × (e.has_auth c.beneficiary ≡ true)
      × (is_paused st.0 ≡ false)
      × SameRoles st.0 st'.0
      × ((v : ℤ) × (token : Address) × (calculate_vested_amount e.timestamp c ≡ ok v)
          × (r ≡ v -ℤ c.released_amount)
          × (pos 1 ≤ℤ r)
          × (st'.0.schedules ≡ insert i (record c { released_amount = v }) st.0.schedules)
          × (st.0.token ≡ some token)
          × (t.transfer st.1 token e.current_contract c.beneficiary r ≡ some st'.1))

  pub release-IsReleased :
      (e : Env) (i : ℕ) (s : Storage) (w : W)
      → Ensures
          (λ r. (c : VestingSchedule) × IsReleased e i (s, w) r.0 (r.1, r.2) c)
          (release t e i (s, w))
  unfolding release
  release-IsReleased e i s w = after_expect _ (lookup i s.schedules) _ _ λ c found.
      after_auth _ e c.beneficiary _ λ signed. after_panic_if _ (is_paused s) _ _ λ running.
        after_panic_if _ c.revoked _ _ λ live.
          Ensures->>= _ _ (calculate_vested_amount e.timestamp c) _ (Result-Ensures _) λ v r1.
            Ensures->>= _ _ (sub_i128 v c.released_amount) _
              (checked-Ensures _ (v -ℤ c.released_amount))
              λ x r2. after_panic_if _ (leb_ℤ x (pos 0)) _ _ λ positive.
                Ensures->>= _ _ (add_i128 c.released_amount x) _
                  (checked-Ensures _ (c.released_amount +ℤ x))
                  λ y r3. after_unwrap _ s.token _ λ token set.
                    after_invoke _ (t.transfer w token e.current_contract c.beneficiary x) _
                      λ w1 paid.
                        let all : y ≡ v = r3 ∙ rw r2 (omega int_laws) in
                        Ensures->>= _ _ (record_history e i _ _ _ _) _
                          (record_history-SameRoles e i _ _ _ _)
                          λ s2 (same, stored). (
                            c,
                            (
                              (found, live),
                              signed,
                              running,
                              same,
                              (v, token, r1, r2, ground arith, stored ∙ rw all refl, set, paid),
                            ),
                          )

  abbrev pub IsRevoked : Env → ℕ → Storage × W → ℤ → Storage × W → VestingSchedule → Type 0
  IsRevoked e i st r st' c =
      IsOpen st.0 i c
      × (c.revocable ≡ true)
      × SameRoles st.0 st'.0
      × ((a : Address) × (v : ℤ) × IsAdmin e st.0 a
          × (calculate_vested_amount e.timestamp c ≡ ok v)
          × (r ≡ c.total_amount -ℤ v)
          × (st'.0.schedules ≡ insert i (record c { revoked = true }) st.0.schedules)
          × ((r ≤ℤ pos 0 × (st'.1 ≡ st.1))
              ⊎ ((token : Address) × (st.0.token ≡ some token)
                  × (t.transfer st.1 token e.current_contract a r ≡ some st'.1))))

  return_unvested-moves :
      (e : Env) (a : Address) (x : ℤ) (s : Storage) (w : W)
      → Ensures
          (λ w'.
            (x ≤ℤ pos 0 × (w' ≡ w))
            ⊎ ((token : Address) × (s.token ≡ some token)
                × (t.transfer w token e.current_contract a x ≡ some w')))
          (return_unvested t e a x (s, w))
  unfolding return_unvested
  return_unvested-moves e a x s w = elim (Bool-cases (ltb_ℤ (pos 0) x)) [
    | inr none_left ↦ rw none_left (inl (ground arith, refl))
    | inl left ↦ rw left (
        after_unwrap _ s.token _ λ token set.
          Ensures-mono _ _ (invoke (t.transfer w token e.current_contract a x))
            (invoke-Ensures _ (t.transfer w token e.current_contract a x))
            λ w' paid. inr (token, set, paid))
  ]

  pub revoke_schedule-IsRevoked :
      (e : Env) (i : ℕ) (s : Storage) (w : W)
      → Ensures
          (λ r. (c : VestingSchedule) × IsRevoked e i (s, w) r.0 (r.1, r.2) c)
          (revoke_schedule t e i (s, w))
  unfolding revoke_schedule
  revoke_schedule-IsRevoked e i s w =
      Ensures->>= _ _ (require_admin e s) _ (require_admin-IsAdmin e s) λ a admin.
        after_expect _ (lookup i s.schedules) _ _ λ c found.
          after_panic_if _ (not c.revocable) _ _ λ may. after_panic_if _ c.revoked _ _ λ live.
            Ensures->>= _ _ (calculate_vested_amount e.timestamp c) _ (Result-Ensures _) λ v r1.
              Ensures->>= _ _ (sub_i128 c.total_amount v) _
                (checked-Ensures _ (c.total_amount -ℤ v))
                λ x r2.
                  Ensures->>= _ _ (return_unvested t e a x _) _ (return_unvested-moves e a x _ w)
                    λ w1 moved.
                      Ensures->>= _ _ (record_history e i _ _ _ _) _
                        (record_history-SameRoles e i _ _ _ _)
                        λ s2 (same, stored). (
                          c,
                          ((found, live), ground arith, same, (a, v, admin, r1, r2, stored, moved)),
                        )
