-- ===== src/Vesting/Reach.antt =====
-- The states that the entry points of contracts/vesting_schedule/src/lib.rs reach, in calls whose
-- times do not fall.
use mindmint_contracts.Base.{ℕ, ◌≡◌, refl, sym, ◌∙◌, ◌≤◌, false, not, some, arith}
use mindmint_contracts.Base.Int.{pos, ◌≤ℤ◌}
use mathlib.Core.Path.{subst}
use mindmint_contracts.Base.Map.{nat_key, lookup}
use mindmint_contracts.Base.Map.Laws.{total}
use mindmint_contracts.Host.Call.{
  Address, Env, ok, Ensures, Ensures->>=, ensured, after_auth, after_panic_if,
}
use mindmint_contracts.Host.Tokens.{Tokens, IsTokens}
use mindmint_contracts.Vesting
use mindmint_contracts.Vesting.{Error, VestingSchedule, Storage, is_paused, require_admin}
use mindmint_contracts.Vesting.Amounts.{vested, vested_le_total}
use mindmint_contracts.Vesting.Schedules
use mindmint_contracts.Vesting.Effects.{require_admin-IsAdmin}
use mindmint_contracts.Vesting.Owing.{
  owed, IsBacked, IsSound-later, create_schedule-IsBacked, release-IsBacked,
  revoke_schedule-IsBacked, modify_schedule-IsBacked,
}
use mindmint_contracts.Vesting.Entry.{Request, serve}

-- A storage that differs in neither the roles nor the schedules.
abbrev IsSame : Storage → Storage → Type 0
IsSame s s' = (s'.admin ≡ s.admin) × (s'.token ≡ s.token) × (s'.schedules ≡ s.schedules)

pause-IsSame : (e : Env) (s : Storage) → Ensures (IsSame s) (Vesting.pause e s)
unfolding Vesting.pause
pause-IsSame e s =
    Ensures->>= _ _ (require_admin e s) _ (require_admin-IsAdmin e s)
      λ a admin. after_panic_if _ (is_paused s) _ _ λ running. (refl, refl, refl)

unpause-IsSame : (e : Env) (s : Storage) → Ensures (IsSame s) (Vesting.unpause e s)
unfolding Vesting.unpause
unpause-IsSame e s =
    Ensures->>= _ _ (require_admin e s) _ (require_admin-IsAdmin e s)
      λ a admin. after_panic_if _ (not (is_paused s)) _ _ λ halted. (refl, refl, refl)

same-IsBacked :
    {W : Type 0} (t : Tokens W) (this : Address) (now : ℕ) (s s' : Storage) (w : W)
    → IsBacked t this now (s, w)
    → IsSame s s'
    → IsBacked t this now (s', w)
same-IsBacked t this now s s' w ((a, set), backed, sound) (admin, token, schedules) =
    ((a, admin ∙ set), λ d h. rw schedules (backed d (sym token ∙ h)), rw schedules sound)

IsBacked-later :
    {W : Type 0} (t : Tokens W) (this : Address) (now later : ℕ) (s : Storage) (w : W)
    → now ≤ later
    → IsBacked t this now (s, w)
    → IsBacked t this later (s, w)
IsBacked-later t this now later s w h (set, backed, sound) =
    (set, backed, λ i c found. IsSound-later now later c h (sound i c found))

module _ {W : Type 0} (t : Tokens W) (laws : IsTokens t) (e : Env)
    (alone : e.has_auth e.current_contract ≡ false) where
  abbrev own : Address
  own = e.current_contract

  serve-IsBacked :
      (q : Request) (s : Storage) (w : W)
      → IsBacked t own e.timestamp (s, w)
      → Ensures (IsBacked t own e.timestamp) (serve t e q (s, w))
  unfolding serve
  serve-IsBacked (Request.initialize a d) s w v =
      let set = v.0.1 in unfold Vesting.initialize in rw set tt
  serve-IsBacked (Request.create_schedule b x start cliff duration revocable) s w v =
      Ensures->>= _ _ (Schedules.create_schedule t e b x start cliff duration revocable (s, w)) _
        (create_schedule-IsBacked t laws e alone b x start cliff duration revocable s w v) λ r k. k
  serve-IsBacked (Request.release i) s w v =
      Ensures->>= _ _ (Schedules.release t e i (s, w)) _ (release-IsBacked t laws e alone i s w v)
        λ r k. k
  serve-IsBacked (Request.revoke_schedule i) s w v =
      Ensures->>= _ _ (Schedules.revoke_schedule t e i (s, w)) _
        (revoke_schedule-IsBacked t laws e alone i s w v) λ r k. k
  serve-IsBacked (Request.modify_schedule i x y) s w v =
      Ensures->>= _ _ (Schedules.modify_schedule e i x y s) _
        (modify_schedule-IsBacked t laws e alone i x y s w v) λ r k. k
  serve-IsBacked Request.pause s w v =
      Ensures->>= _ _ (Vesting.pause e s) _ (pause-IsSame e s)
        λ r k. same-IsBacked t own e.timestamp s r w v k
  serve-IsBacked Request.unpause s w v =
      Ensures->>= _ _ (Vesting.unpause e s) _ (unpause-IsSame e s)
        λ r k. same-IsBacked t own e.timestamp s r w v k

-- What the entry points reach from the initialisation of an empty contract.
pub data Reach {W : Type 0} (t : Tokens W) (this : Address) : ℕ → Storage × W → Type 0 where
  start :
      (e : Env) (a token : Address) (s : Storage) (w : W)
      → ((d : Address) → pos 0 ≤ℤ t.balance w d this)
      → Vesting.initialize e a token Vesting.empty ≡ ok s
      → Reach t this e.timestamp (s, w)
  next :
      {now : ℕ} {st st' : Storage × W} (e : Env) (q : Request)
      → Reach t this now st
      → now ≤ e.timestamp
      → e.current_contract ≡ this
      → e.has_auth this ≡ false
      → serve t e q st ≡ ok st'
      → Reach t this e.timestamp st'

initialize-IsBacked :
    {W : Type 0} (t : Tokens W) (this : Address) (e : Env) (a token : Address) (w : W)
    → ((d : Address) → pos 0 ≤ℤ t.balance w d this)
    → Ensures (λ s. IsBacked t this e.timestamp (s, w)) (Vesting.initialize e a token Vesting.empty)
unfolding Vesting.initialize total lookup
initialize-IsBacked t this e a token w h =
    after_auth _ e a _
      λ signed. ((a, refl), λ d k. h d, λ i c found. absurd (ground (arith, found)))

module _ {W : Type 0} (t : Tokens W) (this : Address) (laws : IsTokens t) where
  pub reached-IsBacked : {now : ℕ} {st : Storage × W} → Reach t this now st → IsBacked t this now st
  reached-IsBacked (start e a token s w h made) =
      ensured (λ r. IsBacked t this e.timestamp (r, w)) (Vesting.initialize e a token Vesting.empty)
        (initialize-IsBacked t this e a token w h) made
  reached-IsBacked (next {now = now} {st = st} e q r le here alone h) =
      ensured (IsBacked t this e.timestamp) (serve t e q st)
        (subst
          (λ a.
            e.has_auth a ≡ false
            → IsBacked t a e.timestamp st
            → Ensures (IsBacked t a e.timestamp) (serve t e q st))
          here (λ l v. serve-IsBacked t laws e l q st.0 st.1 v) alone
          (IsBacked-later t this now e.timestamp st.0 st.1 le (reached-IsBacked r)))
        h

  -- In every state that the entry points reach from the initialisation of an empty contract, in
  -- calls at times that do not fall and none of which the contract itself authorises, the
  -- contract's balance of its token is at least what all schedules that are not revoked have still
  -- to release.
  pub reached_backed :
      {now : ℕ} {s : Storage} {w : W} (d : Address)
      → Reach t this now (s, w)
      → s.token ≡ some d
      → owed s ≤ℤ t.balance w d this
  reached_backed d r known = (reached-IsBacked r).1 d known

  -- In such a state every schedule that is not revoked has released at least nothing, at most what
  -- is vested at the time of the last call, and never more than its total amount.
  pub reached_released :
      {now : ℕ} {s : Storage} {w : W} (i : ℕ) (c : VestingSchedule)
      → Reach t this now (s, w)
      → lookup i s.schedules ≡ some c
      → c.revoked ≡ false
      → (pos 0 ≤ℤ c.released_amount)
        × (c.released_amount ≤ℤ pos (vested c now))
        × (pos (vested c now) ≤ℤ c.total_amount)
  reached_released {now = now} i c r found live =
      let (formed, nonneg, kept) = (reached-IsBacked r).2 i c found in
      (nonneg, kept live, vested_le_total c now formed)
