-- ===== src/Vesting/Promises.antt =====
-- What a release and a revocation of contracts/vesting_schedule/src/lib.rs do, and what a schedule
-- refuses once it is revoked.
use mindmint_contracts.Base.{
  ℕ, ◌≡◌, ◌≢◌, ◌⊎◌, refl, ap, sym, ◌∙◌, Option, none, some, true, false, get_or, arith,
}
use mindmint_contracts.Base.Int.{ℤ, pos, ◌-ℤ◌, ◌≤ℤ◌}
use mathlib.Core.Path.{subst}
use mindmint_contracts.Base.Map.{nat_key, lookup}
use mindmint_contracts.Base.Map.Laws.{lookup-insert_self, lookup-insert_ne}
use mindmint_contracts.Host.Call.{Address, Env, ok, Ensures, Ensures->>=, ensured}
use mindmint_contracts.Host.Tokens.{Tokens, IsTokens}
use mindmint_contracts.Vesting.{VestingSchedule, Storage, is_paused}
use mindmint_contracts.Vesting.Amounts.{vested}
use mindmint_contracts.Vesting.Schedules.{release, revoke_schedule, modify_schedule}
use mindmint_contracts.Vesting.Payouts.{
  IsReleased, IsRevoked, release-IsReleased, revoke_schedule-IsRevoked,
}
use mindmint_contracts.Vesting.Effects.{IsOpen, modify_schedule-IsModified}
use mindmint_contracts.Vesting.Owing.{exact}
use mindmint_contracts.Vesting.Reach.{Reach, reached-IsBacked}
use mindmint_contracts.Vesting.Entry.{Request, serve}

-- The schedule that a request releases, revokes or modifies.
abbrev pub about : Request → Option ℕ
about (Request.release i) = some i
about (Request.revoke_schedule i) = some i
about (Request.modify_schedule i x y) = some i
about _ = none

-- The storage has the schedule `i`, not revoked.
abbrev IsLive : ℕ → Storage → Type 0
IsLive i s = (c : VestingSchedule) × IsOpen s i c

module _ {W : Type 0} (t : Tokens W) where
  serve-IsLive :
      (e : Env) (q : Request) (i : ℕ) (s : Storage) (w : W)
      → about q ≡ some i
      → Ensures (λ _. IsLive i s) (serve t e q (s, w))
  unfolding serve
  serve-IsLive e (Request.initialize a d) i s w h = absurd (ground (arith, h))
  serve-IsLive e (Request.create_schedule b x start cliff duration revocable) i s w h =
      absurd (ground (arith, h))
  serve-IsLive e Request.pause i s w h = absurd (ground (arith, h))
  serve-IsLive e Request.unpause i s w h = absurd (ground (arith, h))
  serve-IsLive e (Request.release j) i s w h =
      subst (λ o. Ensures (λ _. IsLive (get_or o i) s) (serve t e (Request.release j) (s, w))) h
        (Ensures->>= _ _ (release t e j (s, w)) _ (release-IsReleased t e j s w)
          λ r (c, done). (c, done.0))
  serve-IsLive e (Request.revoke_schedule j) i s w h =
      subst
        (λ o. Ensures (λ _. IsLive (get_or o i) s) (serve t e (Request.revoke_schedule j) (s, w))) h
        (Ensures->>= _ _ (revoke_schedule t e j (s, w)) _ (revoke_schedule-IsRevoked t e j s w)
          λ r (c, done). (c, done.0))
  serve-IsLive e (Request.modify_schedule j x y) i s w h =
      subst
        (λ o.
          Ensures (λ _. IsLive (get_or o i) s) (serve t e (Request.modify_schedule j x y) (s, w)))
        h
        (Ensures->>= _ _ (modify_schedule e j x y s) _ (modify_schedule-IsModified e j x y s)
          λ r (c, done). (c, done.0))

  revoked_refuses :
      (e : Env) (q : Request) (i : ℕ) (s : Storage) (w : W) (c : VestingSchedule) (st : Storage × W)
      → about q ≡ some i
      → lookup i s.schedules ≡ some c
      → c.revoked ≡ true
      → serve t e q (s, w) ≢ ok st
  revoked_refuses e q i s w c st on found gone h =
      let (d, (found', live)) =
        ensured (λ _. IsLive i s) (serve t e q (s, w)) (serve-IsLive e q i s w on) h in
      let same = ap (λ o. get_or o c) (sym found ∙ found') in
      absurd (ground (arith, sym gone ∙ ap (λ x. x.revoked) same ∙ live))

module _ {W : Type 0} (t : Tokens W) (this : Address) (laws : IsTokens t) where
  -- In a state that the entry points reach, a release that succeeds is authorised by the
  -- beneficiary of a schedule that is not revoked, while the contract is not paused, and transfers
  -- to the beneficiary exactly the vested amount less what was released before, at least one unit;
  -- afterwards the schedule has released all that is vested, and no other schedule changes.
  pub release_effect :
      {now : ℕ} (s : Storage) (w : W) (e : Env) (i : ℕ) (x : ℤ) (s' : Storage) (w' : W)
      → Reach t this now (s, w)
      → release t e i (s, w) ≡ ok (x, s', w')
      → (c : VestingSchedule) × (token : Address) × ((lookup i s.schedules ≡ some c)
          × (c.revoked ≡ false)
          × (e.has_auth c.beneficiary ≡ true)
          × (is_paused s ≡ false)
          × (x ≡ pos (vested c e.timestamp) -ℤ c.released_amount)
          × (pos 1 ≤ℤ x)
          × (s.token ≡ some token)
          × (t.transfer w token e.current_contract c.beneficiary x ≡ some w')
          × (lookup i s'.schedules
              ≡ some (record c { released_amount = pos (vested c e.timestamp) }))
          × ((j : ℕ) → i ≢ j → lookup j s'.schedules ≡ lookup j s.schedules))
  release_effect s w e i x s' w' r h =
      let (
        c,
        (
          (found, live),
          signed,
          running,
          same,
          (v, token, computed, due, positive, stored, known, paid),
        ),
      ) =
        ensured (λ r. (c : VestingSchedule) × IsReleased t e i (s, w) r.0 (r.1, r.2) c)
          (release t e i (s, w)) (release-IsReleased t e i s w) h in
      let all : v ≡ pos (vested c e.timestamp) =
        exact e.timestamp c v ((reached-IsBacked t this laws r).2 i c found).0 computed in
      (
        c,
        token,
        (
          found,
          live,
          signed,
          running,
          rw (sym all) due,
          positive,
          known,
          paid,
          rw (stored, lookup-insert_self, all) refl,
          λ j other.
              rw stored (lookup-insert_ne i j (record c { released_amount = v }) s.schedules other),
        ),
      )

  -- In a state that the entry points reach, a revocation that succeeds leaves what was vested and
  -- not yet released to nobody: it returns to the admin the total amount less the vested amount
  -- when that is positive, and nothing else, and afterwards no request about the schedule succeeds,
  -- whoever makes it and whenever, a release by the beneficiary included.
  pub revoked_strands :
      {now : ℕ} (s : Storage) (w : W) (e : Env) (i : ℕ) (x : ℤ) (s' : Storage) (w' : W)
      → Reach t this now (s, w)
      → revoke_schedule t e i (s, w) ≡ ok (x, s', w')
      → (c : VestingSchedule) × (a : Address) × ((lookup i s.schedules ≡ some c)
          × (c.revocable ≡ true)
          × (s.admin ≡ some a)
          × (e.has_auth a ≡ true)
          × (x ≡ c.total_amount -ℤ pos (vested c e.timestamp))
          × ((x ≤ℤ pos 0 × (w' ≡ w))
              ⊎ ((token : Address) × (s.token ≡ some token)
                  × (t.transfer w token e.current_contract a x ≡ some w')))
          × ((e' : Env) (q : Request) (w'' : W) (st : Storage × W)
              → about q ≡ some i
              → serve t e' q (s', w'') ≢ ok st))
  revoked_strands s w e i x s' w' r h =
      let (c, ((found, live), may, same, (a, v, (set, signed), computed, rest, stored, moved))) =
        ensured (λ r. (c : VestingSchedule) × IsRevoked t e i (s, w) r.0 (r.1, r.2) c)
          (revoke_schedule t e i (s, w)) (revoke_schedule-IsRevoked t e i s w) h in
      let all : v ≡ pos (vested c e.timestamp) =
        exact e.timestamp c v ((reached-IsBacked t this laws r).2 i c found).0 computed in
      let gone = record c { revoked = true } in
      let kept : lookup i s'.schedules ≡ some gone =
        rw stored (lookup-insert_self i gone s.schedules) in
      (
        c,
        a,
        (
          found,
          may,
          set,
          signed,
          rw (sym all) rest,
          moved,
          λ e' q w'' st on. revoked_refuses t e' q i s' w'' gone st on kept refl,
        ),
      )
