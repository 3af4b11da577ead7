-- ===== src/Auction/Entry.antt =====
-- The entry points of contracts/auction/src/lib.rs that change the storage, as one type of requests
-- and one function that serves them.
use mindmint_contracts.Base.{ℕ, List}
use mindmint_contracts.Base.Int.{ℤ}
use mindmint_contracts.Host.Call.{Address, Env, ok, ◌>>=◌}
use mindmint_contracts.Host.Tokens.{Tokens}
use mindmint_contracts.Auction
use mindmint_contracts.Auction.{AuctionType, AuctionSettings, Storage, Call, Nfts}
use mindmint_contracts.Auction.English
use mindmint_contracts.Auction.Dutch
use mindmint_contracts.Auction.Sealed
use mindmint_contracts.Auction.Settlement

pub data Request : Type 0 where
  init : Request
  create_auction : Address → Address → ℕ → Address → AuctionType → AuctionSettings → Request
  place_bid buy_dutch : Address → ℕ → ℤ → Request
  submit_sealed_bid : Address → ℕ → List ℕ → Request
  reveal_sealed_bid : Address → ℕ → ℤ → List ℕ → Request
  settle_auction : ℕ → Request

module _ {W : Type 0} (t : Tokens W) (n : Nfts W) where
  abbrev beside : W → Call Storage → Call (Storage × W)
  beside w m = m >>= λ s. ok (s, w)

  unfoldable pub serve : Env → Request → Storage × W → Call (Storage × W)
  serve e init (s, w) = ok (Auction.init s, w)
  serve e (create_auction a nft id token kind settings) (s, w) =
      Auction.create_auction e a nft id token kind settings s >>= λ r. ok (r.1, w)
  serve e (place_bid a i x) st = English.place_bid t e a i x st
  serve e (buy_dutch a i x) st = Dutch.buy_dutch t e a i x st
  serve e (submit_sealed_bid a i hash) (s, w) = beside w (Sealed.submit_sealed_bid e a i hash s)
  serve e (reveal_sealed_bid a i x secret) st = Sealed.reveal_sealed_bid t e a i x secret st
  serve e (settle_auction i) st = Settlement.settle_auction t n e i st
