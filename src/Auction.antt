-- ===== src/Auction.antt =====
-- The auctions (contracts/auction/src/lib.rs): their data (State), their creation and the records of
-- bids; the three kinds of bidding and the settlement are in the children.
mod State
pub mod English
pub mod Dutch
pub mod Sealed
pub mod Settlement
pub mod Entry
pub mod Effects
pub mod Escrow
pub mod Outcomes
pub mod Custody
pub mod Reach
pub mod Prices
pub mod Deals
mod Tests
pub use State.*
use mindmint_contracts.Base.{
  ℕ, Bool, false, Option, none, some, List, [], ◌∷◌, ◌++◌, leb, ◌==◌, if◌then◌else◌, get_or,
  is_some,
}
use mindmint_contracts.Base.Int.{ℤ, pos}
use mindmint_contracts.Base.Map.{nat_key, lookup, insert}
use mindmint_contracts.Host.Call.{Address, Env, ok, ◌>>=◌, ◌>>◌, panic_if, require_auth, unwrap}
use mindmint_contracts.Host.Num.{add_u32, add_u64}

-- The NFT contracts that `settle_auction` calls, which are any contracts with a function
-- `transfer(from, to, id)`: the NFT's contract, the two holders and the id.
abbrev pub Nfts : Type 0 → Type 0
Nfts W = W → Address → Address → Address → ℕ → Option W

abbrev pub init : Storage → Storage
init s = if is_some s.auction_count then s else record s { auction_count = some 0 }

abbrev pub set_auction : ℕ → AuctionInfo → Storage → Storage
set_auction id auction s = record s { auctions = insert id auction s.auctions }

unfoldable pub create_auction :
    Env
    → Address
    → Address
    → ℕ
    → Address
    → AuctionType
    → AuctionSettings
    → Storage
    → Call (ℕ × Storage)
create_auction e seller nft_contract nft_id payment_token auction_type settings s = do
  require_auth e seller
  panic_if (leb settings.end_time settings.start_time)
      AuctionError.end_time_must_be_after_start_time
  id ← add_u64 (get_or s.auction_count 0) 1
  let s1 = record s { auction_count = some id }
  let auction : AuctionInfo = record {
    auction_id = id;
    seller = seller;
    nft_contract = nft_contract;
    nft_id = nft_id;
    payment_token = payment_token;
    auction_type = auction_type;
    settings = settings;
    highest_bidder = none;
    current_bid = pos 0;
    settled = false;
  }
  let s2 = record s1 { auction_bids = insert id [] s1.auction_bids }
  let analytics : AuctionAnalytics = record {
    total_bids = 0;
    unique_bidders = 0;
    bid_count_by_bidder = [];
    created_at = e.timestamp;
    settled_at = none;
  }
  let s3 = record s2 { auction_analytics = insert id analytics s2.auction_analytics }
  let s4 =
      if is_sealed auction_type then record s3 { sealed_bids = insert id [] s3.sealed_bids } else s3
  ok (id, set_auction id auction s4)

-- A bid is counted, and a bidder the first time.
unfoldable pub count_bid : Address → AuctionAnalytics → Call AuctionAnalytics
count_bid bidder a = do
  total ← add_u32 a.total_bids 1
  elim (lookup bidder a.bid_count_by_bidder) [
    | some count ↦ do
      more ← add_u32 count 1
      ok (record a {
        total_bids = total;
        bid_count_by_bidder = insert bidder more a.bid_count_by_bidder;
      })
    | none ↦ do
      unique ← add_u32 a.unique_bidders 1
      ok (record a {
        total_bids = total;
        bid_count_by_bidder = insert bidder 1 a.bid_count_by_bidder;
        unique_bidders = unique;
      })
  ]

-- The analytics of an auction after one more bid, `settle` of which is left to the caller.
unfoldable pub record_analytics :
    ℕ → Address → (AuctionAnalytics → AuctionAnalytics) → Storage → Call Storage
record_analytics id bidder settle s = do
  analytics ← unwrap (lookup id s.auction_analytics)
  counted ← count_bid bidder analytics
  ok (record s { auction_analytics = insert id (settle counted) s.auction_analytics })

-- The bid is added to the auction's history.
unfoldable pub record_bid : ℕ → Bid → Storage → Call Storage
record_bid id bid s = do
  bids ← unwrap (lookup id s.auction_bids)
  ok (record s { auction_bids = insert id (bids ++ bid ∷ []) s.auction_bids })

abbrev pub get_auction : Storage → ℕ → Option AuctionInfo
get_auction s auction_id = lookup auction_id s.auctions

abbrev pub get_auction_bids : Storage → ℕ → Option (List Bid)
get_auction_bids s auction_id = lookup auction_id s.auction_bids

abbrev pub get_auction_analytics : Storage → ℕ → Option AuctionAnalytics
get_auction_analytics s auction_id = lookup auction_id s.auction_analytics
