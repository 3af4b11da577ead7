-- ===== src/Auction/State.antt =====
-- The data of contracts/auction/src/lib.rs.
use mindmint_contracts.Base.{ℕ, Option, none, List, [], Bool, true, false}
use mindmint_contracts.Base.Int.{ℤ}
use mindmint_contracts.Base.Map.{Map}
use mindmint_contracts.Host.Call.{Address, Result}

pub data AuctionError : Type 0 where
  end_time_must_be_after_start_time auction_not_found english_only auction_already_settled :
      AuctionError
  auction_not_started auction_ended bid_too_low dutch_only current_price_higher_than_max :
      AuctionError
  auction_still_ongoing sealed_bid_only bidding_period_ended reveal_period_not_started :
      AuctionError
  reveal_period_ended bid_already_revealed invalid_bid_hash bids_not_revealed : AuctionError

abbrev pub Call : Type 0 → Type 0
Call A = Result AuctionError A

pub data AuctionType : Type 0 where
  english dutch sealed : AuctionType

abbrev pub is_english : AuctionType → Bool
is_english AuctionType.english = true
is_english _ = false

abbrev pub is_dutch : AuctionType → Bool
is_dutch AuctionType.dutch = true
is_dutch _ = false

abbrev pub is_sealed : AuctionType → Bool
is_sealed AuctionType.sealed = true
is_sealed _ = false

-- A hash is a list of bytes.
pub record SealedBid : Type 0 where
  pub bidder : Address
  pub bid_hash : List ℕ
  pub revealed : Bool
  pub amount : Option ℤ

pub record AuctionSettings : Type 0 where
  pub start_time : ℕ
  pub end_time : ℕ
  pub reveal_end_time : ℕ
  pub starting_price : ℤ
  pub reserve_price : ℤ
  pub buy_now_price : ℤ
  pub min_bid_increment : ℤ

pub record AuctionInfo : Type 0 where
  pub auction_id : ℕ
  pub seller : Address
  pub nft_contract : Address
  pub nft_id : ℕ
  pub payment_token : Address
  pub auction_type : AuctionType
  pub settings : AuctionSettings
  pub highest_bidder : Option Address
  pub current_bid : ℤ
  pub settled : Bool

pub record Bid : Type 0 where
  pub bidder : Address
  pub amount : ℤ
  pub timestamp : ℕ

pub record AuctionAnalytics : Type 0 where
  pub total_bids : ℕ
  pub unique_bidders : ℕ
  pub bid_count_by_bidder : Map Address ℕ
  pub created_at : ℕ
  pub settled_at : Option ℕ

-- `DataKey`
pub record Storage : Type 0 where
  pub auctions : Map ℕ AuctionInfo
  pub auction_count : Option ℕ
  pub auction_bids : Map ℕ (List Bid)
  pub sealed_bids : Map ℕ (List SealedBid)
  pub auction_analytics : Map ℕ AuctionAnalytics

abbrev pub empty : Storage
empty = record {
  auctions = [];
  auction_count = none;
  auction_bids = [];
  sealed_bids = [];
  auction_analytics = [];
}
