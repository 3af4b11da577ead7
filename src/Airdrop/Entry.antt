-- ===== src/Airdrop/Entry.antt =====
-- The entry points of contracts/airdrop_merkle_claim/src/lib.rs that change the storage, as one type
-- of requests and one function that serves them.
use mindmint_contracts.Base.{ℕ, List}
use mindmint_contracts.Base.Int.{ℤ}
use mindmint_contracts.Host.Call.{Address, Env, ok, ◌>>=◌}
use mindmint_contracts.Host.Tokens.{Tokens}
use mindmint_contracts.Airdrop
use mindmint_contracts.Airdrop.{Crypto, Storage, Call}

pub data Request : Type 0 where
  initialize : Address → Request
  create_campaign : Address → List ℕ → Address → ℤ → ℕ → Request
  claim : ℕ → Address → ℤ → List (List ℕ) → Request
  reclaim_unclaimed : Address → ℕ → Request

module _ {W : Type 0} (t : Tokens W) (k : Crypto) where
  unfoldable pub serve : Env → Request → Storage × W → Call (Storage × W)
  serve e (initialize a) (s, w) = Airdrop.initialize e a s >>= λ s'. ok (s', w)
  serve e (create_campaign a root token x deadline) st =
      Airdrop.create_campaign t e a root token x deadline st >>= λ r. ok (r.1, r.2)
  serve e (claim i a x proof) st = Airdrop.claim t k e i a x proof st
  serve e (reclaim_unclaimed a i) st = Airdrop.reclaim_unclaimed t e a i st >>= λ r. ok (r.1, r.2)

-- The request takes nothing back.
abbrev pub KeepsAll : Request → Type 0
KeepsAll (reclaim_unclaimed a i) = ⊥
KeepsAll _ = Unit
