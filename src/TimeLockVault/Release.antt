-- ===== src/TimeLockVault/Release.antt =====
-- When the contract of contracts/timelock_vault/src/lib.rs releases a vault's funds, and who
-- decides it.
use mindmint_contracts.Base.{
  ℕ, ◌≡◌, ◌≢◌, ◌⊎◌, ◌≤◌, ◌<◌, refl, ◌&&◌, true, false, some, if◌then◌else◌, ◌==◌, arith,
}
use mindmint_contracts.Base.Int.{ℤ, pos, ◌+ℤ◌, ◌≤ℤ◌, int_laws}
use mindmint_contracts.Base.Map.{pair_key, lookup}
use mindmint_contracts.Base.Map.Laws.{lookup-insert, lookup-insert_self}
use mindmint_contracts.Host.Call.{Address, Env, ok, Ensures->>=, ensured}
use mindmint_contracts.Host.Tokens.{Tokens}
use mindmint_contracts.TimeLockVault
use mindmint_contracts.TimeLockVault.{
  Storage, VaultStatus, Call, vault_of, set_vault, later, deposit, withdraw, set_condition,
  emergency_unlock,
}
use mindmint_contracts.TimeLockVault.Custody.{
  deposited, deposit-moves, withdraw-moves, set_condition-sets, emergency_unlock-sets, IsAdminCall,
}
use mindmint_contracts.TimeLockVault.Entry.{Request, serve}

vault_of-set_vault_self :
    (b d : Address) (v : VaultStatus) (s : Storage) → vault_of (set_vault b d v s) b d ≡ v
vault_of-set_vault_self b d v s = simp lookup-insert_self refl

vault_of-set_vault :
    (b d b' d' : Address) (v : VaultStatus) (s : Storage)
    → vault_of (set_vault b d v s) b' d' ≡ (if b == b' && d == d' then v else vault_of s b' d')
vault_of-set_vault b d b' d' v s = simp lookup-insert (ground arith)

vault_of-after_deposit :
    (b d : Address) (s s' : Storage) (x : ℤ) (u : ℕ)
    → s' ≡ set_vault b d (deposited s b d x u) s
    → vault_of s' b d ≡ deposited s b d x u
vault_of-after_deposit b d s s' x u stored =
    rw stored (vault_of-set_vault_self b d (deposited s b d x u) s)

module _ {W : Type 0} (t : Tokens W) where
  -- A withdrawal that succeeds was authorised by the beneficiary of a vault that had a positive
  -- amount locked and whose unlock time has come or whose condition is met; it transfers the whole
  -- amount to the beneficiary, and afterwards that vault has nothing locked, while every other
  -- vault has the same amount locked as before.
  pub withdraw_effect :
      (e : Env) (b d : Address) (s : Storage) (w : W) (s' : Storage) (w' : W)
      → withdraw t e b d (s, w) ≡ ok (s', w')
      → (e.has_auth b ≡ true)
        × (pos 1 ≤ℤ (vault_of s b d).locked_amount)
        × ((vault_of s b d).unlock_time ≤ e.timestamp ⊎ (vault_of s b d).is_condition_met ≡ true)
        × (t.transfer w d e.current_contract b (vault_of s b d).locked_amount ≡ some w')
        × ((b' d' : Address)
            → (vault_of s' b' d').locked_amount
              ≡ (if b == b' && d == d' then pos 0 else (vault_of s b' d').locked_amount))
  withdraw_effect e b d s w s' w' h =
      let (auth, positive, unlocked, moved, stored) =
        ensured _ (withdraw t e b d (s, w)) (withdraw-moves t e b d s w) h in
      (auth, positive, unlocked, moved, λ b' d'. rw stored (simp lookup-insert (ground arith)))

  -- A deposit that anyone makes for a beneficiary, with an unlock time later than the one the vault
  -- has, bars the beneficiary, while the vault's condition is not met, from all that the vault had
  -- before until the new unlock time.
  pub deposit_extends_lock :
      (e e' : Env) (from d : Address) (x : ℤ) (b : Address) (u : ℕ) (s : Storage) (w : W)
      (s' : Storage) (w' w'' : W) (st : Storage × W)
      → deposit t e from d x b u (s, w) ≡ ok (s', w')
      → (vault_of s b d).is_condition_met ≡ false
      → e'.timestamp < u
      → withdraw t e' b d (s', w'') ≢ ok st
  deposit_extends_lock e e' from d x b u s w s' w' w'' st h unmet early r =
      let (auth, positive, moved, stored) =
        ensured _ (deposit t e from d x b u (s, w)) (deposit-moves t e from d x b u s w) h in
      let (auth', positive', unlocked, moved', stored') =
        ensured _ (withdraw t e' b d (s', w'')) (withdraw-moves t e' b d s' w'') r in
      let kept = vault_of-after_deposit b d s s' x u stored in grind (arith, kept, unlocked)

  withdraw_met :
      (e : Env) (b d : Address) (s : Storage) (w w' : W) (v : VaultStatus)
      → lookup (b, d) s.vaults ≡ some v
      → pos 1 ≤ℤ v.locked_amount
      → v.is_condition_met ≡ true
      → e.has_auth b ≡ true
      → t.transfer w d e.current_contract b v.locked_amount ≡ some w'
      → withdraw t e b d (s, w) ≡ ok (set_vault b d (record v { locked_amount = pos 0 }) s, w')
  unfolding withdraw
  withdraw_met e b d s w w' v found held met signed paid = ground arith

  -- Once a vault's condition is met, no deposit locks anything in it: whatever unlock time the
  -- deposit has, the beneficiary can withdraw at any time afterwards all that the vault has,
  -- provided that the token's own transfer of the amount succeeds.
  pub met_vault_never_locks :
      (e e' : Env) (from d : Address) (x : ℤ) (b : Address) (u : ℕ) (s : Storage) (w : W)
      (s' : Storage) (w' w'' : W)
      → deposit t e from d x b u (s, w) ≡ ok (s', w')
      → (vault_of s b d).is_condition_met ≡ true
      → pos 0 ≤ℤ (vault_of s b d).locked_amount
      → e'.has_auth b ≡ true
      → t.transfer w' d e'.current_contract b ((vault_of s b d).locked_amount +ℤ x) ≡ some w''
      → withdraw t e' b d (s', w')
        ≡ ok (
          set_vault b d
              (record (vault_of s b d) {
                locked_amount = pos 0;
                unlock_time = later u (vault_of s b d).unlock_time;
              })
              s',
          w'',
        )
  met_vault_never_locks e e' from d x b u s w s' w' w'' h met held signed paid =
      let (auth, positive, moved, stored) =
        ensured _ (deposit t e from d x b u (s, w)) (deposit-moves t e from d x b u s w) h in
      let found : lookup (b, d) s'.vaults ≡ some (deposited s b d x u) =
        rw stored (lookup-insert_self (b, d) (deposited s b d x u) s.vaults) in
      withdraw_met e' b d s' w' w'' (deposited s b d x u) found (grind (int_laws, held, positive))
        met signed paid

  -- A request that succeeds and after which the condition of some vault is met that was not met
  -- before it was authorised by the contract's admin.
  pub condition_by_admin :
      (e : Env) (q : Request) (s : Storage) (w : W) (s' : Storage) (w' : W) (b d : Address)
      → serve t e q (s, w) ≡ ok (s', w')
      → (vault_of s b d).is_condition_met ≡ false
      → (vault_of s' b d).is_condition_met ≡ true
      → (a : Address) × (s.admin ≡ some a) × (e.has_auth a ≡ true)
  unfolding serve
  condition_by_admin e (Request.initialize a) s w s' w' b d h before after =
      unfold TimeLockVault.initialize in absurd (ground arith)
  condition_by_admin e (Request.deposit a o x c u) s w s' w' b d h before after =
      let (auth, positive, moved, stored) =
        ensured _ (deposit t e a o x c u (s, w)) (deposit-moves t e a o x c u s w) h in
      absurd (grind (arith, stored, vault_of-set_vault c o b d (deposited s c o x u) s))
  condition_by_admin e (Request.withdraw c o) s w s' w' b d h before after =
      let (auth, positive, unlocked, moved, stored) =
        ensured _ (withdraw t e c o (s, w)) (withdraw-moves t e c o s w) h in
      absurd (
        grind (
          arith,
          stored,
          vault_of-set_vault c o b d (record (vault_of s c o) { locked_amount = pos 0 }) s,
        ))
  condition_by_admin e (Request.emergency_unlock c o) s w s' w' b d h before after =
      ensured (λ _. IsAdminCall e s) (serve t e (Request.emergency_unlock c o) (s, w))
        (Ensures->>= _ _ (emergency_unlock e c o s) _ (emergency_unlock-sets e c o s) λ r k. k.0) h
  condition_by_admin e (Request.set_condition c o m) s w s' w' b d h before after =
      ensured (λ _. IsAdminCall e s) (serve t e (Request.set_condition c o m) (s, w))
        (Ensures->>= _ _ (set_condition e c o m s) _ (set_condition-sets e c o m s) λ r k. k.0) h
