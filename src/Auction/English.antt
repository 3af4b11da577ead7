-- ===== src/Auction/English.antt =====
-- English auctions of contracts/auction/src/lib.rs: `place_bid`.
use mindmint_contracts.Base.{ℕ, not, none, some, ltb, if◌then◌else◌}
use mindmint_contracts.Base.Int.{ℤ, ltb_ℤ}
use mindmint_contracts.Base.Map.{nat_key, lookup}
use mindmint_contracts.Host.Call.{
  Address, Env, ok, ◌>>=◌, ◌>>◌, panic_if, require_auth, expect, invoke,
}
use mindmint_contracts.Host.Num.{add_i128, add_u64, sub_u64}
use mindmint_contracts.Host.Tokens.{Tokens}
use mindmint_contracts.Auction.{
  AuctionError, AuctionInfo, AuctionSettings, Storage, Call, is_english, set_auction, record_bid,
  record_analytics,
}

-- A bid in the last five minutes moves the end of the auction.
unfoldable pub extend : ℕ → AuctionSettings → Call AuctionSettings
extend now settings = do
  remaining ← sub_u64 settings.end_time now
  if ltb remaining 300
      then (do later ← add_u64 now 300; ok (record settings { end_time = later }))
      else ok settings

module _ {W : Type 0} (t : Tokens W) where
  -- The bid is high enough, and whoever it outbids is refunded.
  unfoldable pub outbid : Env → AuctionInfo → ℤ → W → Call W
  outbid e auction bid_amount w = elim auction.highest_bidder [
    | some previous_bidder ↦ do
      least ← add_i128 auction.current_bid auction.settings.min_bid_increment
      panic_if (ltb_ℤ bid_amount least) AuctionError.bid_too_low
      invoke (
          t.transfer w auction.payment_token e.current_contract previous_bidder auction.current_bid)
    | none ↦ do
      panic_if (ltb_ℤ bid_amount auction.settings.starting_price) AuctionError.bid_too_low
      ok w
  ]

  unfoldable pub place_bid : Env → Address → ℕ → ℤ → Storage × W → Call (Storage × W)
  place_bid e bidder auction_id bid_amount (s, w) = do
    require_auth e bidder
    auction ← expect (lookup auction_id s.auctions) AuctionError.auction_not_found
    panic_if (not (is_english auction.auction_type)) AuctionError.english_only
    panic_if auction.settled AuctionError.auction_already_settled
    panic_if (ltb e.timestamp auction.settings.start_time) AuctionError.auction_not_started
    panic_if (ltb auction.settings.end_time e.timestamp) AuctionError.auction_ended
    w1 ← outbid e auction bid_amount w
    w2 ← invoke (t.transfer w1 auction.payment_token bidder e.current_contract bid_amount)
    settings ← extend e.timestamp auction.settings
    s1 ←
        record_bid auction_id
          (record { bidder = bidder; amount = bid_amount; timestamp = e.timestamp }) s
    s2 ← record_analytics auction_id bidder (λ a. a) s1
    let raised = record auction {
      settings = settings;
      highest_bidder = some bidder;
      current_bid = bid_amount;
    }
    ok (set_auction auction_id raised s2, w2)
