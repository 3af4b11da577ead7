-- ===== src/TimeLockVault/Coverage.antt =====
-- Whether the contract of contracts/timelock_vault/src/lib.rs holds the tokens that its vaults have
-- locked, request by request.
use mindmint_contracts.Base.{ℕ, Bool, true, refl, ◌≡◌, false, arith}
use mindmint_contracts.Base.Int.{ℤ, pos, ◌≤ℤ◌, int_laws}
use mathlib.Core.Path.{subst}
use mindmint_contracts.Base.Map.{pair_key}
use mindmint_contracts.Base.Map.Laws.{total_by}
use mindmint_contracts.Host.Call.{
  Address, Env, ok, ◌>>=◌, Ensures, Ensures->>=, Ensures-mono, ensured,
}
use mindmint_contracts.Host.Tokens.{Tokens, IsTokens}
use mindmint_contracts.TimeLockVault
use mindmint_contracts.TimeLockVault.{
  Storage, Call, VaultStatus, vault_of, set_vault, later, no_deposit,
}
use mindmint_contracts.TimeLockVault.Custody.{
  locked, deposited, set_vault-locked, deposit-moves, withdraw-moves, set_condition-sets,
  emergency_unlock-sets,
}
use mindmint_contracts.TimeLockVault.Entry.{Request, serve}

module _ {W : Type 0} (t : Tokens W) (this : Address) where
  -- For every token the contract holds at least what the vaults have locked.
  abbrev pub IsCovered : Storage × W → Type 0
  IsCovered (s, w) = (d : Address) → locked s d ≤ℤ t.balance w d this

-- A new condition of a vault leaves what is locked as it is.
set_condition-locked :
    (b d o : Address) (v : VaultStatus) (s : Storage)
    → v.locked_amount ≡ (vault_of s b d).locked_amount
    → locked (set_vault b d v s) o ≡ locked s o
set_condition-locked b d o v s h = grind (int_laws, set_vault-locked b d o v s, h)

module _ {W : Type 0} (t : Tokens W) (laws : IsTokens t) (e : Env)
    (alone : e.has_auth e.current_contract ≡ false) where
  abbrev own : Address
  own = e.current_contract

  deposit-IsCovered :
      (a token : Address) (x : ℤ) (b : Address) (u : ℕ) (s : Storage) (w : W)
      → IsCovered t own (s, w)
      → Ensures (IsCovered t own) (TimeLockVault.deposit t e a token x b u (s, w))
  deposit-IsCovered a token x b u s w v =
      Ensures-mono _ _ (TimeLockVault.deposit t e a token x b u (s, w))
        (deposit-moves t e a token x b u s w)
        λ r (auth, positive, moved, stored) d. grind (
          int_laws,
          auth,
          stored,
          set_vault-locked b token d (deposited s b token x u) s,
          laws.transfer_moves w token a own x r.1 moved d own,
          v d,
          alone,
        )

  withdraw-IsCovered :
      (b token : Address) (s : Storage) (w : W)
      → IsCovered t own (s, w)
      → Ensures (IsCovered t own) (TimeLockVault.withdraw t e b token (s, w))
  withdraw-IsCovered b token s w v =
      Ensures-mono _ _ (TimeLockVault.withdraw t e b token (s, w)) (withdraw-moves t e b token s w)
        λ r (auth, positive, unlocked, moved, stored) d. grind (
          int_laws,
          auth,
          stored,
          set_vault-locked b token d (record (vault_of s b token) { locked_amount = pos 0 }) s,
          laws.transfer_moves w token own b (vault_of s b token).locked_amount r.1 moved d own,
          v d,
          alone,
        )

  condition-IsCovered :
      (b d : Address) (m : Bool) (s : Storage) (w : W) (call : Call Storage)
      → IsCovered t own (s, w)
      → Ensures (λ s'. s' ≡ set_vault b d (record (vault_of s b d) { is_condition_met = m }) s) call
      → Ensures (IsCovered t own) (call >>= λ s'. ok (s', w))
  condition-IsCovered b d m s w call v h =
      Ensures->>= _ (IsCovered t own) call (λ s'. ok (s', w)) h
        λ s' stored o. rw stored (
          rw (set_condition-locked b d o (record (vault_of s b d) { is_condition_met = m }) s refl)
            (v o))

  serve-IsCovered :
      (q : Request) (s : Storage) (w : W)
      → IsCovered t own (s, w)
      → Ensures (IsCovered t own) (serve t e q (s, w))
  unfolding serve
  serve-IsCovered (Request.initialize a) s w v = unfold TimeLockVault.initialize in ground arith
  serve-IsCovered (Request.deposit a d x b u) s w v = deposit-IsCovered a d x b u s w v
  serve-IsCovered (Request.withdraw b d) s w v = withdraw-IsCovered b d s w v
  serve-IsCovered (Request.emergency_unlock b d) s w v =
      condition-IsCovered b d true s w (TimeLockVault.emergency_unlock e b d s) v (
        Ensures-mono _ _ (TimeLockVault.emergency_unlock e b d s) (emergency_unlock-sets e b d s)
          λ r h. h.1)
  serve-IsCovered (Request.set_condition b d m) s w v =
      condition-IsCovered b d m s w (TimeLockVault.set_condition e b d m s) v (
        Ensures-mono _ _ (TimeLockVault.set_condition e b d m s) (set_condition-sets e b d m s)
          λ r h. h.1)

-- What the entry points reach.
pub data Reach {W : Type 0} (t : Tokens W) (this : Address) : Storage × W → Type 0 where
  start :
      (w : W)
      → ((d : Address) → pos 0 ≤ℤ t.balance w d this)
      → Reach t this (TimeLockVault.empty, w)
  next :
      {st st' : Storage × W} (e : Env) (q : Request)
      → Reach t this st
      → e.current_contract ≡ this
      → e.has_auth this ≡ false
      → serve t e q st ≡ ok st'
      → Reach t this st'

empty-IsCovered :
    {W : Type 0} (t : Tokens W) (this : Address) (w : W)
    → ((d : Address) → pos 0 ≤ℤ t.balance w d this)
    → IsCovered t this (TimeLockVault.empty, w)
unfolding total_by
empty-IsCovered t this w h = h

module _ {W : Type 0} (t : Tokens W) (this : Address) (laws : IsTokens t) where
  -- In every state that the entry points reach from an empty contract, in calls none of which the
  -- contract itself authorises, the contract's own balance of every token is at least the sum of
  -- what all vaults have locked in that token.
  pub reached_covered :
      {st : Storage × W} → Reach t this st → (d : Address) → locked st.0 d ≤ℤ t.balance st.1 d this
  reached_covered (start w h) = empty-IsCovered t this w h
  reached_covered (next {st = st} e q r here alone h) =
      ensured (IsCovered t this) (serve t e q st)
        (subst
          (λ a. e.has_auth a ≡ false → IsCovered t a st → Ensures (IsCovered t a) (serve t e q st))
          here (λ l v. serve-IsCovered t laws e l q st.0 st.1 v) alone (reached_covered r))
        h
