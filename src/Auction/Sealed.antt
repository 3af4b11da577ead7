-- ===== src/Auction/Sealed.antt =====
-- Sealed-bid auctions of contracts/auction/src/lib.rs: `submit_sealed_bid` and `reveal_sealed_bid`.
use mindmint_contracts.Base.{
  ℕ, Bool, true, false, not, ◌&&◌, ◌||◌, Option, none, some, List, [], ◌∷◌, ◌++◌, ltb, ◌==◌,
  if◌then◌else◌,
}
use mindmint_contracts.Base.Int.{ℤ, ltb_ℤ, leb_ℤ}
use mindmint_contracts.Base.Map.{nat_key, lookup, insert}
use mindmint_contracts.Host.Call.{
  Address, Env, ok, ◌>>=◌, ◌>>◌, panic_if, require_auth, expect, unwrap, invoke,
}
use mindmint_contracts.Host.Tokens.{Tokens}
use mindmint_contracts.Auction.{
  AuctionError, AuctionInfo, SealedBid, Storage, Call, is_sealed, set_auction, record_analytics,
}

-- Whether the bidder has a sealed bid already.
unfoldable pub has_bid : Address → List SealedBid → Bool
has_bid bidder [] = false
has_bid bidder (bid ∷ bids) = bid.bidder == bidder || has_bid bidder bids

unfoldable pub submit_sealed_bid : Env → Address → ℕ → List ℕ → Storage → Call Storage
submit_sealed_bid e bidder auction_id bid_hash s = do
  require_auth e bidder
  auction ← expect (lookup auction_id s.auctions) AuctionError.auction_not_found
  panic_if (not (is_sealed auction.auction_type)) AuctionError.sealed_bid_only
  panic_if auction.settled AuctionError.auction_already_settled
  panic_if (ltb e.timestamp auction.settings.start_time) AuctionError.auction_not_started
  panic_if (ltb auction.settings.end_time e.timestamp) AuctionError.bidding_period_ended
  sealed_bids ← unwrap (lookup auction_id s.sealed_bids)
  panic_if (has_bid bidder sealed_bids) AuctionError.bid_already_revealed
  let bid : SealedBid = record {
    bidder = bidder;
    bid_hash = bid_hash;
    revealed = false;
    amount = none;
  }
  let s1 = record s { sealed_bids = insert auction_id (sealed_bids ++ bid ∷ []) s.sealed_bids }
  record_analytics auction_id bidder (λ a. a) s1

-- The bidder's first bid that is not yet revealed, revealed: the search for the index and the write
-- at that index.
unfoldable pub reveal : Address → ℤ → List SealedBid → Option (List SealedBid)
reveal bidder amount [] = none
reveal bidder amount (bid ∷ bids) =
    let rest = reveal bidder amount bids in
    if bid.bidder == bidder && not bid.revealed
    then some (record bid { revealed = true; amount = some amount } ∷ bids)
    else elim rest [ none ↦ none | some bids' ↦ some (bid ∷ bids') ]

module _ {W : Type 0} (t : Tokens W) where
  -- The highest bid so far is taken, and the one before it refunded.
  unfoldable pub take_highest : Env → Address → ℤ → AuctionInfo → W → Call (AuctionInfo × W)
  take_highest e bidder amount auction w =
      if ltb_ℤ auction.current_bid amount && leb_ℤ auction.settings.reserve_price amount
      then (do
        w1 ← elim auction.highest_bidder [
          | some previous_bidder ↦ invoke (
              t.transfer w auction.payment_token e.current_contract previous_bidder
                auction.current_bid)
          | none ↦ ok w
        ]
        w2 ← invoke (t.transfer w1 auction.payment_token bidder e.current_contract amount)
        ok (record auction { highest_bidder = some bidder; current_bid = amount }, w2))
      else ok (auction, w)

  -- The secret is an argument that nothing looks at.
  unfoldable pub reveal_sealed_bid :
      Env → Address → ℕ → ℤ → List ℕ → Storage × W → Call (Storage × W)
  reveal_sealed_bid e bidder auction_id amount secret (s, w) = do
    require_auth e bidder
    auction ← expect (lookup auction_id s.auctions) AuctionError.auction_not_found
    panic_if (not (is_sealed auction.auction_type)) AuctionError.sealed_bid_only
    panic_if auction.settled AuctionError.auction_already_settled
    panic_if (ltb e.timestamp auction.settings.end_time) AuctionError.reveal_period_not_started
    panic_if (ltb auction.settings.reveal_end_time e.timestamp) AuctionError.reveal_period_ended
    sealed_bids ← unwrap (lookup auction_id s.sealed_bids)
    revealed ← expect (reveal bidder amount sealed_bids) AuctionError.auction_not_found
    let s1 = record s { sealed_bids = insert auction_id revealed s.sealed_bids }
    (auction1, w1) ← take_highest e bidder amount auction w
    ok (set_auction auction_id auction1 s1, w1)

-- The sealed bids are shown only after the reveal period.
unfoldable pub get_sealed_bids : Env → Storage → ℕ → Option (List SealedBid)
get_sealed_bids e s auction_id = elim (lookup auction_id s.auctions) [
  | none ↦ none
  | some auction ↦
      if is_sealed auction.auction_type && ltb auction.settings.reveal_end_time e.timestamp
      then lookup auction_id s.sealed_bids
      else none
]
