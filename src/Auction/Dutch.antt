-- ===== src/Auction/Dutch.antt =====
-- Dutch auctions of contracts/auction/src/lib.rs: `calculate_dutch_price` and `buy_dutch`.
use mindmint_contracts.Base.{ℕ, not, true, some, leb, if◌then◌else◌}
use mindmint_contracts.Base.Int.{ℤ, pos, ltb_ℤ}
use mindmint_contracts.Base.Map.{nat_key, lookup}
use mindmint_contracts.Host.Call.{
  Address, Env, ok, ◌>>=◌, ◌>>◌, panic_if, require_auth, expect, invoke,
}
use mindmint_contracts.Host.Num.{sub_i128, mul_i128, div_i128, sub_u64}
use mindmint_contracts.Host.Tokens.{Tokens}
use mindmint_contracts.Auction.{
  AuctionError, AuctionSettings, Storage, Call, is_dutch, set_auction, record_bid, record_analytics,
}

-- The price falls from the starting price to the reserve price over the auction's time.
unfoldable pub calculate_dutch_price : AuctionSettings → ℕ → Call ℤ
calculate_dutch_price settings current_time =
    if leb current_time settings.start_time
    then ok settings.starting_price
    else if leb settings.end_time current_time
    then ok settings.reserve_price
    else do
      total_duration ← sub_u64 settings.end_time settings.start_time
      elapsed ← sub_u64 current_time settings.start_time
      price_drop_range ← sub_i128 settings.starting_price settings.reserve_price
      scaled ← mul_i128 price_drop_range (pos elapsed)
      drop_amount ← div_i128 scaled (pos total_duration)
      sub_i128 settings.starting_price drop_amount

module _ {W : Type 0} (t : Tokens W) where
  unfoldable pub buy_dutch : Env → Address → ℕ → ℤ → Storage × W → Call (Storage × W)
  buy_dutch e buyer auction_id max_amount (s, w) = do
    require_auth e buyer
    auction ← expect (lookup auction_id s.auctions) AuctionError.auction_not_found
    panic_if (not (is_dutch auction.auction_type)) AuctionError.dutch_only
    panic_if auction.settled AuctionError.auction_already_settled
    current_price ← calculate_dutch_price auction.settings e.timestamp
    panic_if (ltb_ℤ max_amount current_price) AuctionError.current_price_higher_than_max
    w1 ← invoke (t.transfer w auction.payment_token buyer e.current_contract current_price)
    let sold = record auction {
      highest_bidder = some buyer;
      current_bid = current_price;
      settled = true;
    }
    let s1 = set_auction auction_id sold s
    s2 ←
        record_bid auction_id
          (record { bidder = buyer; amount = current_price; timestamp = e.timestamp }) s1
    s3 ← record_analytics auction_id buyer (λ a. record a { settled_at = some e.timestamp }) s2
    ok (s3, w1)
