-- ===== src/Auction/Tests.antt =====
-- Runs of the auctions, and their theorems at concrete inputs.
use mindmint_contracts.Base.{
  ℕ, ◌≡◌, ◌≢◌, ◌≤◌, refl, Bool, true, false, Option, none, some, List, [], ◌∷◌, if◌then◌else◌,
  arith, ◌==◌,
}
use mindmint_contracts.Base.Int.{ℤ, pos, ◌+ℤ◌, ◌-ℤ◌, ◌*ℤ◌, ◌/ℤ◌, ◌≤ℤ◌}
use mindmint_contracts.Base.Map.{Map, nat_key, lookup, insert}
use mindmint_contracts.Base.Map.Laws.{total}
use mindmint_contracts.Host.Call.{Address, Env, ok, panic}
use mindmint_contracts.Host.Num.{fits_i128, fits_u64, fits_u32}
use mindmint_contracts.Host.Tokens.Ledger.{Balances, ledger, ledger-IsTokens, balance_of, move}
use mindmint_contracts.Auction
use mindmint_contracts.Auction.{
  AuctionInfo, AuctionSettings, AuctionType, Bid, SealedBid, AuctionAnalytics, Storage, Nfts,
  create_auction, count_bid, record_bid, record_analytics,
}
use mindmint_contracts.Auction.English.{place_bid, outbid, extend}
use mindmint_contracts.Auction.Dutch.{calculate_dutch_price, buy_dutch}
use mindmint_contracts.Auction.Sealed.{
  get_sealed_bids, submit_sealed_bid, reveal_sealed_bid, has_bid, reveal, take_highest,
}
use mindmint_contracts.Auction.Settlement.{settle_auction, check_end, pay_seller}
use mindmint_contracts.Auction.Effects.{IsHighEnough, IsRefunded, extended, led}
use mindmint_contracts.Auction.Escrow.{escrowed}
use mindmint_contracts.Auction.Outcomes.{HasEnded, IsPaidOut}
use mindmint_contracts.Auction.Reach.{Reach, start, next, reached_escrowed}
use mindmint_contracts.Auction.Prices.{IsPriceOf, dutch_price_falls}
use mindmint_contracts.Auction.Deals.{about, dutch_sale_unpaid, place_bid_effect, settle_effect}
use mindmint_contracts.Auction.Entry.{Request, serve}

-- The contract is 7, the seller 3, the NFT contract 8, the token 5; 1 and 2 bid.
abbrev call_at : ℕ → Env
call_at now = record {
  timestamp = now;
  current_contract = 7;
  has_auth = λ a. if a == 7 then false else true;
}

abbrev world : ℤ → ℤ → ℤ → ℤ → Balances
world one two own seller = ((5, 1), one) ∷ ((5, 2), two) ∷ ((5, 7), own) ∷ ((5, 3), seller) ∷ []

-- NFT contracts that know the NFT 11 alone.
abbrev give : Nfts Balances
give w c a b id = if id == 11 then some w else none

give_pays_nothing :
    (w : Balances) (c a b : Address) (id : ℕ) (w' : Balances)
    → give w c a b id ≡ some w'
    → (d : Address) → balance_of w d 7 ≤ℤ balance_of w' d 7
give_pays_nothing w c a b id w' h d = ground (arith, h)

abbrev settings : ℕ → AuctionSettings
settings end = record {
  start_time = 100;
  end_time = end;
  reveal_end_time = 2000;
  starting_price = pos 50;
  reserve_price = pos 30;
  buy_now_price = pos 0;
  min_bid_increment = pos 10;
}

abbrev auction : AuctionType → ℕ → Option Address → ℤ → Bool → AuctionInfo
auction kind end leader bid settled = record {
  auction_id = 1;
  seller = 3;
  nft_contract = 8;
  nft_id = 11;
  payment_token = 5;
  auction_type = kind;
  settings = settings end;
  highest_bidder = leader;
  current_bid = bid;
  settled = settled;
}

abbrev counted : ℕ → ℕ → Map Address ℕ → Option ℕ → AuctionAnalytics
counted total unique counts settled = record {
  total_bids = total;
  unique_bidders = unique;
  bid_count_by_bidder = counts;
  created_at = 100;
  settled_at = settled;
}

abbrev stored : AuctionInfo → List Bid → AuctionAnalytics → Storage
stored a bids analytics = record {
  auctions = (1, a) ∷ [];
  auction_count = some 1;
  auction_bids = (1, bids) ∷ [];
  sealed_bids = [];
  auction_analytics = (1, analytics) ∷ [];
}

abbrev bid : Address → ℤ → ℕ → Bid
bid b x now = record { bidder = b; amount = x; timestamp = now }

abbrev before : Storage
before = stored (auction AuctionType.english 1000 none (pos 0) false) [] (counted 0 0 [] none)

abbrev led_by_one : Storage
led_by_one =
    stored (auction AuctionType.english 1200 (some 1) (pos 60) false) (bid 1 (pos 60) 900 ∷ [])
      (counted 1 1 ((1, 1) ∷ []) none)

abbrev led_by_two : Storage
led_by_two =
    stored (auction AuctionType.english 1250 (some 2) (pos 70) false)
      (bid 1 (pos 60) 900 ∷ bid 2 (pos 70) 950 ∷ []) (counted 2 2 ((1, 1) ∷ (2, 1) ∷ []) none)

abbrev settled_by_two : Storage
settled_by_two =
    stored (auction AuctionType.english 1250 (some 2) (pos 70) true)
      (bid 1 (pos 60) 900 ∷ bid 2 (pos 70) 950 ∷ [])
      (counted 2 2 ((1, 1) ∷ (2, 1) ∷ []) (some 1300))

create_run :
    serve ledger give
      (call_at 100)
      (Request.create_auction 3 8 11 5 AuctionType.english (settings 1000))
      (Auction.empty, world (pos 100) (pos 100) (pos 0) (pos 0))
    ≡ ok (before, world (pos 100) (pos 100) (pos 0) (pos 0))
unfolding serve create_auction insert fits_u64
create_run = refl

bid_run :
    serve ledger give
      (call_at 900)
      (Request.place_bid 1 1 (pos 60))
      (before, world (pos 100) (pos 100) (pos 0) (pos 0))
    ≡ ok (led_by_one, world (pos 40) (pos 100) (pos 60) (pos 0))
unfolding serve place_bid outbid extend record_bid record_analytics count_bid move lookup insert
    fits_u64 fits_u32 fits_i128 ◌+ℤ◌ ◌-ℤ◌
bid_run = refl

outbid_run :
    serve ledger give
      (call_at 950)
      (Request.place_bid 2 1 (pos 70))
      (led_by_one, world (pos 40) (pos 100) (pos 60) (pos 0))
    ≡ ok (led_by_two, world (pos 100) (pos 30) (pos 70) (pos 0))
unfolding serve place_bid outbid extend record_bid record_analytics count_bid move lookup insert
    fits_u64 fits_u32 fits_i128 ◌+ℤ◌ ◌-ℤ◌
outbid_run = refl

settle_run :
    serve ledger give
      (call_at 1300)
      (Request.settle_auction 1)
      (led_by_two, world (pos 100) (pos 30) (pos 70) (pos 0))
    ≡ ok (settled_by_two, world (pos 100) (pos 30) (pos 0) (pos 70))
unfolding serve settle_auction check_end pay_seller move lookup insert ◌+ℤ◌ ◌-ℤ◌
settle_run = refl

early_settle_run :
    serve ledger give
      (call_at 1200)
      (Request.settle_auction 1)
      (led_by_two, world (pos 100) (pos 30) (pos 70) (pos 0))
    ≡ panic Auction.AuctionError.auction_still_ongoing
unfolding serve settle_auction check_end lookup
early_settle_run = refl

start_nonneg : (d : Address) → pos 0 ≤ℤ balance_of (world (pos 100) (pos 100) (pos 0) (pos 0)) d 7
unfolding balance_of lookup
start_nonneg d = ground arith

reached : Reach ledger give 7 (led_by_two, world (pos 100) (pos 30) (pos 70) (pos 0))
reached =
    next (call_at 950) (Request.place_bid 2 1 (pos 70))
      (next (call_at 900) (Request.place_bid 1 1 (pos 60))
        (next (call_at 100) (Request.create_auction 3 8 11 5 AuctionType.english (settings 1000))
          (start (world (pos 100) (pos 100) (pos 0) (pos 0)) start_nonneg) refl refl create_run)
        refl refl bid_run)
      refl refl outbid_run

reached_escrowed_example :
    escrowed led_by_two 5 ≤ℤ balance_of (world (pos 100) (pos 30) (pos 70) (pos 0)) 5 7
reached_escrowed_example =
    reached_escrowed ledger give 7 ledger-IsTokens give_pays_nothing reached 5

settle_effect_example :
    (a : AuctionInfo) × ((lookup 1 led_by_two.auctions ≡ some a)
      × (a.settled ≡ false)
      × HasEnded ledger give (call_at 1300) a
      × IsPaidOut ledger give
          (call_at 1300)
          a
          (world (pos 100) (pos 30) (pos 70) (pos 0))
          (world (pos 100) (pos 30) (pos 0) (pos 70))
      × (lookup 1 settled_by_two.auctions ≡ some (record a { settled = true })))
unfolding serve
settle_effect_example =
    settle_effect ledger give 7 ledger-IsTokens give_pays_nothing led_by_two
      (world (pos 100) (pos 30) (pos 70) (pos 0)) (call_at 1300) 1 settled_by_two
      (world (pos 100) (pos 30) (pos 0) (pos 70)) reached settle_run

place_bid_effect_example :
    (a : AuctionInfo) × ((lookup 1 led_by_one.auctions ≡ some a)
      × (true ≡ true)
      × (a.settled ≡ false)
      × (a.settings.start_time ≤ 950)
      × (950 ≤ a.settings.end_time)
      × IsHighEnough ledger a (pos 70)
      × ((w1 : Balances) × IsRefunded ledger
            (call_at 950)
            a
            (world (pos 40) (pos 100) (pos 60) (pos 0))
            w1
          × (move w1 a.payment_token 2 7 (pos 70)
              ≡ some (world (pos 100) (pos 30) (pos 70) (pos 0))))
      × (lookup 1 led_by_two.auctions
          ≡ some (led 2 (pos 70) (record a { settings = extended 950 a.settings })))
      × ((j : ℕ) → 1 ≢ j → lookup j led_by_two.auctions ≡ lookup j led_by_one.auctions))
unfolding serve
place_bid_effect_example =
    place_bid_effect ledger give (call_at 950) 2 1 (pos 70) led_by_one
      (world (pos 40) (pos 100) (pos 60) (pos 0)) led_by_two
      (world (pos 100) (pos 30) (pos 70) (pos 0)) outbid_run

abbrev on_sale : Storage
on_sale = stored (auction AuctionType.dutch 1100 none (pos 0) false) [] (counted 0 0 [] none)

abbrev sold : Storage
sold =
    stored (auction AuctionType.dutch 1100 (some 1) (pos 40) true) (bid 1 (pos 40) 600 ∷ [])
      (counted 1 1 ((1, 1) ∷ []) (some 600))

price_run : calculate_dutch_price (settings 1100) 600 ≡ ok (pos 40)
unfolding calculate_dutch_price fits_i128 ◌+ℤ◌ ◌-ℤ◌ ◌*ℤ◌ ◌/ℤ◌
price_run = refl

later_price_run : calculate_dutch_price (settings 1100) 870 ≡ ok (pos 35)
unfolding calculate_dutch_price fits_i128 ◌+ℤ◌ ◌-ℤ◌ ◌*ℤ◌ ◌/ℤ◌
later_price_run = refl

sale_run :
    buy_dutch ledger (call_at 600) 1 1 (pos 45) (on_sale, world (pos 100) (pos 0) (pos 0) (pos 0))
    ≡ ok (sold, world (pos 60) (pos 0) (pos 40) (pos 0))
unfolding buy_dutch calculate_dutch_price record_bid record_analytics count_bid move lookup insert
    fits_u32 fits_i128 ◌+ℤ◌ ◌-ℤ◌ ◌*ℤ◌ ◌/ℤ◌
sale_run = refl

dutch_price_falls_example : (pos 30 ≤ℤ pos 35) × (pos 35 ≤ℤ pos 40) × (pos 40 ≤ℤ pos 50)
dutch_price_falls_example =
    dutch_price_falls (settings 1100) 600 870 (pos 40) (pos 35) (omega arith) (omega arith)
      price_run later_price_run

dutch_sale_unpaid_example :
    (a : AuctionInfo) × (price : ℤ) × (lookup 1 on_sale.auctions ≡ some a)
    × ((call_at 600).has_auth 1 ≡ true)
    × (a.settled ≡ false)
    × (calculate_dutch_price a.settings 600 ≡ ok price)
    × IsPriceOf a.settings 600 price
    × (price ≤ℤ pos 45)
    × (move (world (pos 100) (pos 0) (pos 0) (pos 0)) a.payment_token 1 7 price
        ≡ some (world (pos 60) (pos 0) (pos 40) (pos 0)))
    × (lookup 1 sold.auctions ≡ some (record (led 1 price a) { settled = true }))
    × ((e' : Env) (q : Request) (w'' : Balances) (st : Storage × Balances)
        → about q ≡ some 1
        → serve ledger give e' q (sold, w'') ≢ ok st)
    × ((j : ℕ) → 1 ≢ j → lookup j sold.auctions ≡ lookup j on_sale.auctions)
dutch_sale_unpaid_example =
    dutch_sale_unpaid ledger give (call_at 600) 1 1 (pos 45) on_sale
      (world (pos 100) (pos 0) (pos 0) (pos 0)) sold (world (pos 60) (pos 0) (pos 40) (pos 0))
      sale_run

-- A sealed auction: the bid is hidden, revealed with an amount that nothing ties to the hash, and
-- paid only then.
abbrev hidden : Bool → Option ℤ → AuctionInfo → ℕ → ℕ → Map Address ℕ → Storage
hidden revealed amount a total unique counts =
    record (stored a [] (counted total unique counts none)) {
      sealed_bids =
          (1, record { bidder = 1; bid_hash = 9 ∷ []; revealed = revealed; amount = amount } ∷ [])
          ∷ [];
    }

submit_run :
    serve ledger give (call_at 500) (Request.submit_sealed_bid 1 1 (9 ∷ [])) (
      record (stored
          (auction AuctionType.sealed 1000 none (pos 0) false)
          []
          (counted 0 0 [] none)) { sealed_bids = (1, []) ∷ [] },
      world (pos 100) (pos 0) (pos 0) (pos 0),
    )
    ≡ ok (
      hidden false none (auction AuctionType.sealed 1000 none (pos 0) false) 1 1 ((1, 1) ∷ []),
      world (pos 100) (pos 0) (pos 0) (pos 0),
    )
unfolding serve submit_sealed_bid has_bid record_analytics count_bid lookup insert fits_u32
submit_run = refl

reveal_run :
    serve ledger give (call_at 1500) (Request.reveal_sealed_bid 1 1 (pos 80) []) (
      hidden false none (auction AuctionType.sealed 1000 none (pos 0) false) 1 1 ((1, 1) ∷ []),
      world (pos 100) (pos 0) (pos 0) (pos 0),
    )
    ≡ ok (
      hidden true
          (some (pos 80))
          (auction AuctionType.sealed 1000 (some 1) (pos 80) false)
          1
          1
          ((1, 1) ∷ []),
      world (pos 20) (pos 0) (pos 80) (pos 0),
    )
unfolding serve reveal_sealed_bid reveal take_highest move lookup insert ◌+ℤ◌ ◌-ℤ◌
reveal_run = refl

get_sealed_bids_run :
    get_sealed_bids
      (call_at 2000)
      (hidden false none (auction AuctionType.sealed 1000 none (pos 0) false) 1 1 [])
      1
    ≡ none
unfolding get_sealed_bids lookup
get_sealed_bids_run = refl
