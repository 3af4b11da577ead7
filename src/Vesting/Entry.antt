-- ===== src/Vesting/Entry.antt =====
-- The entry points of contracts/vesting_schedule/src/lib.rs that change the storage, as one type of
-- requests and one function that serves them.
use mindmint_contracts.Base.{ℕ, Bool}
use mindmint_contracts.Base.Int.{ℤ}
use mindmint_contracts.Host.Call.{Address, Env, ok, ◌>>=◌}
use mindmint_contracts.Host.Tokens.{Tokens}
use mindmint_contracts.Vesting
use mindmint_contracts.Vesting.{Storage, Call}
use mindmint_contracts.Vesting.Schedules

pub data Request : Type 0 where
  initialize : Address → Address → Request
  create_schedule : Address → ℤ → ℕ → ℕ → ℕ → Bool → Request
  release revoke_schedule : ℕ → Request
  modify_schedule : ℕ → ℕ → ℕ → Request
  pause unpause : Request

module _ {W : Type 0} (t : Tokens W) where
  abbrev beside : W → Call Storage → Call (Storage × W)
  beside w m = m >>= λ s. ok (s, w)

  abbrev without : {A : Type 0} → Call (A × Storage × W) → Call (Storage × W)
  without m = m >>= λ r. ok (r.1, r.2)

  unfoldable pub serve : Env → Request → Storage × W → Call (Storage × W)
  serve e (initialize a d) (s, w) = beside w (Vesting.initialize e a d s)
  serve e (create_schedule b x start cliff duration revocable) st =
      without (Schedules.create_schedule t e b x start cliff duration revocable st)
  serve e (release i) st = without (Schedules.release t e i st)
  serve e (revoke_schedule i) st = without (Schedules.revoke_schedule t e i st)
  serve e (modify_schedule i cliff duration) (s, w) =
      beside w (Schedules.modify_schedule e i cliff duration s)
  serve e pause (s, w) = beside w (Vesting.pause e s)
  serve e unpause (s, w) = beside w (Vesting.unpause e s)
