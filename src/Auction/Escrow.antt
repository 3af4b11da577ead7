-- ===== src/Auction/Escrow.antt =====
-- What contracts/auction/src/lib.rs holds for its bidders: the leading bids of the auctions that are
-- not settled.
use mindmint_contracts.Base.{ℕ, ◌≡◌, false, none, some, List, All, ◌==◌, if◌then◌else◌}
use mindmint_contracts.Base.Int.{ℤ, pos, ◌+ℤ◌, ◌≤ℤ◌, int_laws}
use mindmint_contracts.Base.Map.{nat_key, lookup, insert}
use mindmint_contracts.Base.Map.Laws.{total, weight, total-insert, all-insert}
use mindmint_contracts.Host.Call.{Address}
use mindmint_contracts.Host.Tokens.{Tokens}
use mindmint_contracts.Auction.{AuctionInfo, SealedBid, Storage}

-- What an auction holds of the token `d`: its leading bid, until it is settled.
abbrev pub leading : Address → AuctionInfo → ℤ
leading d a = if a.settled then pos 0 else elim a.highest_bidder [
  | none ↦ pos 0
  | some p ↦ if a.payment_token == d then a.current_bid else pos 0
]

-- What all auctions together hold of the token `d`.
abbrev pub escrowed : Storage → Address → ℤ
escrowed s d = total (leading d) s.auctions

-- A sealed bid that is not revealed has no amount.
abbrev pub IsClosed : SealedBid → Type 0
IsClosed b = b.revealed ≡ false → b.amount ≡ none

abbrev pub AreClosed : Storage → Type 0
AreClosed s =
    (i : ℕ) (bids : List SealedBid) → lookup i s.sealed_bids ≡ some bids → All IsClosed bids

abbrev pub AreNonneg : Storage → Type 0
AreNonneg s = (i : ℕ) (a : AuctionInfo) → lookup i s.auctions ≡ some a → pos 0 ≤ℤ a.current_bid

module _ {W : Type 0} (t : Tokens W) (this : Address) where
  abbrev pub IsFunded : Storage × W → Type 0
  IsFunded (s, w) = ((d : Address) → escrowed s d ≤ℤ t.balance w d this) × AreNonneg s × AreClosed s

  -- One auction is written, and the contract's balances pay for what it then holds.
  abbrev pub IsPaidFor : Storage × W → Storage × W → Type 0
  IsPaidFor st st' =
      (i : ℕ) × (a : AuctionInfo) × (st'.0.auctions ≡ insert i a st.0.auctions)
      × (pos 0 ≤ℤ a.current_bid)
      × ((d : Address)
          → leading d a +ℤ t.balance st.1 d this
            ≤ℤ weight (leading d) (lookup i st.0.auctions) +ℤ t.balance st'.1 d this)

  pub IsPaidFor-IsFunded :
      (st st' : Storage × W) → IsFunded st → IsPaidFor st st' → AreClosed st'.0 → IsFunded st'
  IsPaidFor-IsFunded st st' (funded, nonneg, closed) (i, a, stored, held, paid) closed' = (
    λ d. rw stored (grind (int_laws, total-insert (leading d) i a st.0.auctions, funded d, paid d)),
    rw stored (all-insert (λ _ c. pos 0 ≤ℤ c.current_bid) i a st.0.auctions held nonneg),
    closed',
  )
