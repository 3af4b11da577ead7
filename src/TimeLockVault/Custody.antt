-- ===== src/TimeLockVault/Custody.antt =====
-- What contracts/timelock_vault/src/lib.rs owes for each token, and what it holds.
use mindmint_contracts.Base.{
  ℕ, ◌≡◌, ◌⊎◌, ◌≤◌, refl, Bool, true, some, if◌then◌else◌, ◌==◌, arith, inl, inr, Option-cases,
}
use mindmint_contracts.Base.Int.{ℤ, pos, ◌+ℤ◌, ◌-ℤ◌, ◌≤ℤ◌, int_laws}
use mindmint_contracts.Base.Map.{pair_key, lookup}
use mindmint_contracts.Base.Map.Laws.{total_by, total_by-insert}
use mindmint_contracts.Host.Call.{
  Address, Env, Ensures, Ensures, Ensures->>=, expect, require_auth, expect-Ensures,
  require_auth-Ensures,
}
use mindmint_contracts.Host.Tokens.{Tokens}
use mindmint_contracts.TimeLockVault.{
  Storage, VaultStatus, Error, vault_of, set_vault, later, deposit, withdraw, set_condition,
  emergency_unlock,
}

-- The part of a vault that is locked in the token `d`.
abbrev locked_in : Address → Address × Address → VaultStatus → ℤ
locked_in d key v = if key.1 == d then v.locked_amount else pos 0

-- What all vaults together hold of the token `d`.
abbrev pub locked : Storage → Address → ℤ
locked s d = total_by (locked_in d) s.vaults

pub set_vault-locked :
    (b d o : Address) (v : VaultStatus) (s : Storage)
    → locked (set_vault b d v s) o
      ≡ locked s o +ℤ (if d == o then v.locked_amount -ℤ (vault_of s b d).locked_amount else pos 0)
set_vault-locked b d o v s = elim (Option-cases (lookup (b, d) s.vaults)) [
  | inl e ↦ grind (int_laws, total_by-insert (locked_in o) (b, d) v s.vaults, e)
  | inr (u, e) ↦ grind (int_laws, total_by-insert (locked_in o) (b, d) v s.vaults, e)
]

-- A vault after a deposit of `x` that is to be locked until `u`.
abbrev pub deposited : Storage → Address → Address → ℤ → ℕ → VaultStatus
deposited s b d x u = record (vault_of s b d) {
  locked_amount = (vault_of s b d).locked_amount +ℤ x;
  unlock_time = later u (vault_of s b d).unlock_time;
}

module _ {W : Type 0} (t : Tokens W) where
  pub deposit-moves :
      (e : Env) (from token : Address) (x : ℤ) (b : Address) (u : ℕ) (s : Storage) (w : W)
      → Ensures
          (λ r.
            (e.has_auth from ≡ true)
            × (pos 1 ≤ℤ x)
            × (t.transfer w token from e.current_contract x ≡ some r.1)
            × (r.0 ≡ set_vault b token (deposited s b token x u) s))
          (deposit t e from token x b u (s, w))
  unfolding deposit
  deposit-moves e from token x b u s w = ground arith

  pub withdraw-moves :
      (e : Env) (b token : Address) (s : Storage) (w : W)
      → Ensures
          (λ r.
            (e.has_auth b ≡ true)
            × (pos 1 ≤ℤ (vault_of s b token).locked_amount)
            × ((vault_of s b token).unlock_time ≤ e.timestamp
                ⊎ (vault_of s b token).is_condition_met ≡ true)
            × (t.transfer w token e.current_contract b (vault_of s b token).locked_amount
                ≡ some r.1)
            × (r.0 ≡ set_vault b token (record (vault_of s b token) { locked_amount = pos 0 }) s))
          (withdraw t e b token (s, w))
  unfolding withdraw
  withdraw-moves e b token s w = ground arith

-- The admin has authorised the call.
abbrev pub IsAdminCall : Env → Storage → Type 0
IsAdminCall e s = (a : Address) × (s.admin ≡ some a) × (e.has_auth a ≡ true)

pub set_condition-sets :
    (e : Env) (b d : Address) (m : Bool) (s : Storage)
    → Ensures
        (λ s'.
          IsAdminCall e s
          × (s' ≡ set_vault b d (record (vault_of s b d) { is_condition_met = m }) s))
        (set_condition e b d m s)
unfolding set_condition
set_condition-sets e b d m s =
    Ensures->>= _ _ (expect s.admin Error.not_initialized) _ (expect-Ensures s.admin _) λ a set.
      Ensures->>= _ _ (require_auth e a) _ (require_auth-Ensures _ e a) λ _ signed.
        Ensures->>= _ _ (expect (lookup (b, d) s.vaults) Error.vault_not_found) _
          (expect-Ensures (lookup (b, d) s.vaults) _) λ v found. ((a, set, signed), rw found refl)

pub emergency_unlock-sets :
    (e : Env) (b d : Address) (s : Storage)
    → Ensures
        (λ s'.
          IsAdminCall e s
          × (s' ≡ set_vault b d (record (vault_of s b d) { is_condition_met = true }) s))
        (emergency_unlock e b d s)
unfolding emergency_unlock set_condition
emergency_unlock-sets e b d s = set_condition-sets e b d true s
