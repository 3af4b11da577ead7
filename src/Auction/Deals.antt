-- ===== src/Auction/Deals.antt =====
-- What a bid and a settlement of contracts/auction/src/lib.rs do, and what an auction refuses once it
-- is settled.
use mindmint_contracts.Base.{
  ℕ, ◌≡◌, ◌≢◌, refl, ap, sym, ◌∙◌, ◌≤◌, Option, none, some, true, false, not, get_or, arith, List,
}
use mindmint_contracts.Base.Int.{ℤ, ◌≤ℤ◌}
use mathlib.Core.Path.{subst}
use mindmint_contracts.Base.Map.{nat_key, lookup}
use mindmint_contracts.Base.Map.Laws.{lookup-insert_self, lookup-insert_ne}
use mindmint_contracts.Host.Call.{
  Address, Env, ok, Ensures, Ensures->>=, Ensures-mono, Ensures-const, ensured, after_auth,
  after_expect, after_panic_if,
}
use mindmint_contracts.Host.Tokens.{Tokens, IsTokens}
use mindmint_contracts.Auction.{AuctionInfo, Storage, Nfts, is_sealed}
use mindmint_contracts.Auction.English.{place_bid}
use mindmint_contracts.Auction.Dutch.{calculate_dutch_price, buy_dutch}
use mindmint_contracts.Auction.Sealed.{submit_sealed_bid, reveal_sealed_bid}
use mindmint_contracts.Auction.Settlement.{settle_auction}
use mindmint_contracts.Auction.Effects.{IsRefunded, IsHighEnough, place_bid-IsBidOn, extended, led}
use mindmint_contracts.Auction.Outcomes.{
  HasEnded, IsPaidOut, buy_dutch-IsSold, reveal_sealed_bid-IsRevealed, settle_auction-IsSettled,
}
use mindmint_contracts.Auction.Prices.{IsPriceOf, calculate_dutch_price-IsPriceOf}
use mindmint_contracts.Auction.Reach.{Reach, reached-IsFunded}
use mindmint_contracts.Auction.Entry.{Request, serve}

-- The auction that a request bids on or settles.
abbrev pub about : Request → Option ℕ
about Request.init = none
about (Request.create_auction a nft id token kind settings) = none
about (Request.place_bid a i x) = some i
about (Request.buy_dutch a i x) = some i
about (Request.submit_sealed_bid a i hash) = some i
about (Request.reveal_sealed_bid a i x secret) = some i
about (Request.settle_auction i) = some i

-- The storage has the auction `i`, not settled.
abbrev IsLive : ℕ → Storage → Type 0
IsLive i s = (a : AuctionInfo) × (lookup i s.auctions ≡ some a) × (a.settled ≡ false)

submit_sealed_bid-IsLive :
    (e : Env) (b : Address) (i : ℕ) (hash : List ℕ) (s : Storage)
    → Ensures (λ _. IsLive i s) (submit_sealed_bid e b i hash s)
unfolding submit_sealed_bid
submit_sealed_bid-IsLive e b i hash s = after_auth _ e b _ λ signed.
    after_expect _ (lookup i s.auctions) _ _ λ a found.
      after_panic_if _ (not (is_sealed a.auction_type)) _ _ λ kind.
        after_panic_if _ a.settled _ _
          λ unsettled. Ensures-const (IsLive i s) _ (a, found, unsettled)

module _ {W : Type 0} (t : Tokens W) (n : Nfts W) where
  settle_auction-IsLive :
      (e : Env) (i : ℕ) (s : Storage) (w : W)
      → Ensures (λ _. IsLive i s) (settle_auction t n e i (s, w))
  unfolding settle_auction
  settle_auction-IsLive e i s w = after_expect _ (lookup i s.auctions) _ _ λ a found.
      after_panic_if _ a.settled _ _ λ unsettled. Ensures-const (IsLive i s) _ (a, found, unsettled)

  serve-IsLive :
      (e : Env) (q : Request) (i : ℕ) (s : Storage) (w : W)
      → about q ≡ some i
      → Ensures (λ _. IsLive i s) (serve t n e q (s, w))
  unfolding serve
  serve-IsLive e Request.init i s w h = absurd (ground (arith, h))
  serve-IsLive e (Request.create_auction a nft id token kind settings) i s w h =
      absurd (ground (arith, h))
  serve-IsLive e (Request.place_bid b j x) i s w h =
      subst (λ o. Ensures (λ _. IsLive (get_or o i) s) (place_bid t e b j x (s, w))) h
        (Ensures-mono _ _ (place_bid t e b j x (s, w)) (place_bid-IsBidOn t e b j x s w)
          λ r (a, sold). (a, sold.0, sold.2))
  serve-IsLive e (Request.buy_dutch b j x) i s w h =
      subst (λ o. Ensures (λ _. IsLive (get_or o i) s) (buy_dutch t e b j x (s, w))) h
        (Ensures-mono _ _ (buy_dutch t e b j x (s, w)) (buy_dutch-IsSold t e b j x s w)
          λ r (a, sold). (a, sold.0, sold.2))
  serve-IsLive e (Request.submit_sealed_bid b j hash) i s w h =
      subst
        (λ o.
          Ensures (λ _. IsLive (get_or o i) s)
            (serve t n e (Request.submit_sealed_bid b j hash) (s, w)))
        h
        (Ensures->>= _ _ (submit_sealed_bid e b j hash s) _ (submit_sealed_bid-IsLive e b j hash s)
          λ r k. k)
  serve-IsLive e (Request.reveal_sealed_bid b j x secret) i s w h =
      subst (λ o. Ensures (λ _. IsLive (get_or o i) s) (reveal_sealed_bid t e b j x secret (s, w)))
        h
        (Ensures-mono _ _ (reveal_sealed_bid t e b j x secret (s, w))
          (reveal_sealed_bid-IsRevealed t e b j x secret s w) λ r (a, sold). (a, sold.0, sold.2))
  serve-IsLive e (Request.settle_auction j) i s w h =
      subst (λ o. Ensures (λ _. IsLive (get_or o i) s) (settle_auction t n e j (s, w))) h
        (settle_auction-IsLive e j s w)

  -- No bid on an auction that is settled succeeds, of any kind, and neither does its settlement.
  pub settled_refuses :
      (e : Env) (q : Request) (i : ℕ) (s : Storage) (w : W) (a : AuctionInfo) (st : Storage × W)
      → about q ≡ some i
      → lookup i s.auctions ≡ some a
      → a.settled ≡ true
      → serve t n e q (s, w) ≢ ok st
  settled_refuses e q i s w a st on found settled h =
      let (c, found', unsettled) =
        ensured (λ _. IsLive i s) (serve t n e q (s, w)) (serve-IsLive e q i s w on) h in
      let same = ap (λ o. get_or o a) (sym found ∙ found') in
      absurd (ground (arith, sym settled ∙ ap (λ d. d.settled) same ∙ unsettled))

  -- A Dutch sale that succeeds is authorised by the buyer, of an unsettled auction, and takes
  -- exactly the price of that time, which is at most what the buyer offered, from the buyer into the
  -- contract: the starting price until the start, the reserve price from the end, and in between the
  -- starting price less the difference's share for the time passed, rounded towards zero; the auction then has the buyer as its leader at that
  -- price and is settled, no other auction changes, and afterwards no bid on the auction, purchase
  -- or settlement of it succeeds, whoever makes it and whenever.
  pub dutch_sale_unpaid :
      (e : Env) (b : Address) (i : ℕ) (most : ℤ) (s : Storage) (w : W) (s' : Storage) (w' : W)
      → buy_dutch t e b i most (s, w) ≡ ok (s', w')
      → (a : AuctionInfo) × (price : ℤ) × (lookup i s.auctions ≡ some a)
        × (e.has_auth b ≡ true)
        × (a.settled ≡ false)
        × (calculate_dutch_price a.settings e.timestamp ≡ ok price)
        × IsPriceOf a.settings e.timestamp price
        × (price ≤ℤ most)
        × (t.transfer w a.payment_token b e.current_contract price ≡ some w')
        × (lookup i s'.auctions ≡ some (record (led b price a) { settled = true }))
        × ((e' : Env) (q : Request) (w'' : W) (st : Storage × W)
            → about q ≡ some i
            → serve t n e' q (s', w'') ≢ ok st)
        × ((j : ℕ) → i ≢ j → lookup j s'.auctions ≡ lookup j s.auctions)
  dutch_sale_unpaid e b i most s w s' w' h =
      let (a, (found, signed, unsettled, (price, priced, willing, paid, stored), sealed)) =
        ensured _ (buy_dutch t e b i most (s, w)) (buy_dutch-IsSold t e b i most s w) h in
      let sold = record (led b price a) { settled = true } in
      let kept : lookup i s'.auctions ≡ some sold =
        rw stored (lookup-insert_self i sold s.auctions) in
      (
        a,
        price,
        found,
        signed,
        unsettled,
        priced,
        ensured (IsPriceOf a.settings e.timestamp) (calculate_dutch_price a.settings e.timestamp)
            (calculate_dutch_price-IsPriceOf a.settings e.timestamp) priced,
        willing,
        paid,
        kept,
        λ e' q w'' st on. settled_refuses e' q i s' w'' sold st on kept refl,
        λ j other. rw stored (lookup-insert_ne i j sold s.auctions other),
      )

  -- A bid on an English auction that succeeds is authorised by the bidder, is made while the
  -- unsettled auction runs, and is at least the starting price or, when the auction has a leader,
  -- the leading bid and the increment; the contract gives the leading bid back to the leader and
  -- takes the new one from the bidder, who leads the auction afterwards; an auction that would end
  -- in less than 300 seconds then ends 300 seconds after the bid; no other auction changes.
  pub place_bid_effect :
      (e : Env) (b : Address) (i : ℕ) (x : ℤ) (s : Storage) (w : W) (s' : Storage) (w' : W)
      → place_bid t e b i x (s, w) ≡ ok (s', w')
      → (a : AuctionInfo) × ((lookup i s.auctions ≡ some a)
          × (e.has_auth b ≡ true)
          × (a.settled ≡ false)
          × (a.settings.start_time ≤ e.timestamp)
          × (e.timestamp ≤ a.settings.end_time)
          × IsHighEnough t a x
          × ((w1 : W) × IsRefunded t e a w w1
              × (t.transfer w1 a.payment_token b e.current_contract x ≡ some w'))
          × (lookup i s'.auctions
              ≡ some (led b x (record a { settings = extended e.timestamp a.settings })))
          × ((j : ℕ) → i ≢ j → lookup j s'.auctions ≡ lookup j s.auctions))
  place_bid_effect e b i x s w s' w' h =
      let (a, (found, signed, unsettled, started, going, high, moved, stored, sealed)) =
        ensured _ (place_bid t e b i x (s, w)) (place_bid-IsBidOn t e b i x s w) h in
      let raised = led b x (record a { settings = extended e.timestamp a.settings }) in
      (
        a,
        (
          found,
          signed,
          unsettled,
          started,
          going,
          high,
          moved,
          rw stored (lookup-insert_self i raised s.auctions),
          λ j other. rw stored (lookup-insert_ne i j raised s.auctions other),
        ),
      )

module _ {W : Type 0} (t : Tokens W) (n : Nfts W) (this : Address) (laws : IsTokens t)
    (pays_nothing : (w : W) (c a b : Address) (id : ℕ) (w' : W)
      → n w c a b id ≡ some w'
      → (d : Address) → t.balance w d this ≤ℤ t.balance w' d this) where
  -- In a state that the entry points reach, a settlement that succeeds is of an auction that was
  -- not settled and whose time is over, unless it is a Dutch one; without a leader it moves
  -- nothing, and otherwise it pays exactly the leading bid to the seller and transfers the NFT from
  -- the seller to the leader, in this order and nothing else, sealed bids included; afterwards the
  -- auction is settled and otherwise the same.
  pub settle_effect :
      (s : Storage) (w : W) (e : Env) (i : ℕ) (s' : Storage) (w' : W)
      → Reach t n this (s, w)
      → settle_auction t n e i (s, w) ≡ ok (s', w')
      → (a : AuctionInfo) × ((lookup i s.auctions ≡ some a)
          × (a.settled ≡ false)
          × HasEnded t n e a
          × IsPaidOut t n e a w w'
          × (lookup i s'.auctions ≡ some (record a { settled = true })))
  settle_effect s w e i s' w' r h =
      let (a, (found, unsettled, ended, out, stored, sealed)) =
        ensured _ (settle_auction t n e i (s, w))
          (settle_auction-IsSettled t n e i s w (reached-IsFunded t n this laws pays_nothing r).2)
          h in
      (
        a,
        (
          found,
          unsettled,
          ended,
          out,
          rw stored (lookup-insert_self i (record a { settled = true }) s.auctions),
        ),
      )
