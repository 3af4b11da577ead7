-- ===== src/Auction/Settlement.antt =====
-- `settle_auction` of contracts/auction/src/lib.rs.
use mindmint_contracts.Base.{ℕ, true, not, none, some, List, [], ◌∷◌, ltb, if◌then◌else◌}
use mindmint_contracts.Base.Map.{nat_key, lookup, insert}
use mindmint_contracts.Host.Call.{Address, Env, ok, ◌>>=◌, ◌>>◌, panic_if, expect, unwrap, invoke}
use mindmint_contracts.Host.Tokens.{Tokens}
use mindmint_contracts.Auction.{
  AuctionError, AuctionInfo, AuctionType, SealedBid, Storage, Call, Nfts, set_auction,
}

module _ {W : Type 0} (t : Tokens W) (n : Nfts W) where
  -- The loop over the sealed bids: one that is not revealed is refunded, if it has an amount.
  unfoldable pub refund_unrevealed : Env → Address → List SealedBid → W → Call W
  refund_unrevealed e token [] w = ok w
  refund_unrevealed e token (bid ∷ bids) w =
      (if not bid.revealed
        then elim bid.amount [
          | some amount ↦ invoke (t.transfer w token e.current_contract bid.bidder amount)
          | none ↦ ok w
        ]
        else ok w)
      >>= λ w1. refund_unrevealed e token bids w1

  -- What an auction asks before it is settled, by its type.
  unfoldable pub check_end : Env → ℕ → AuctionInfo → Storage → W → Call W
  check_end e auction_id auction s w = elim auction.auction_type [
    | AuctionType.english ↦ do
      panic_if (ltb e.timestamp auction.settings.end_time) AuctionError.auction_still_ongoing
      ok w
    | AuctionType.sealed ↦ do
      panic_if (ltb e.timestamp auction.settings.reveal_end_time) AuctionError.auction_still_ongoing
      sealed_bids ← unwrap (lookup auction_id s.sealed_bids)
      refund_unrevealed e auction.payment_token sealed_bids w
    | AuctionType.dutch ↦ ok w
  ]

  -- The seller is paid, and the NFT goes from the seller to the winner.
  unfoldable pub pay_seller : Env → AuctionInfo → W → Call W
  pay_seller e auction w = elim auction.highest_bidder [
    | some winner ↦ do
      w1 ←
          invoke (
            t.transfer w auction.payment_token e.current_contract auction.seller
              auction.current_bid)
      invoke (n w1 auction.nft_contract auction.seller winner auction.nft_id)
    | none ↦ ok w
  ]

  unfoldable pub settle_auction : Env → ℕ → Storage × W → Call (Storage × W)
  settle_auction e auction_id (s, w) = do
    auction ← expect (lookup auction_id s.auctions) AuctionError.auction_not_found
    panic_if auction.settled AuctionError.auction_already_settled
    w1 ← check_end e auction_id auction s w
    w2 ← pay_seller e auction w1
    analytics ← unwrap (lookup auction_id s.auction_analytics)
    let ended = record analytics { settled_at = some e.timestamp }
    let s1 = record s { auction_analytics = insert auction_id ended s.auction_analytics }
    ok (set_auction auction_id (record auction { settled = true }) s1, w2)
