-- ===== src/Auction/Effects.antt =====
-- What the calls of contracts/auction/src/lib.rs do when they succeed.
use mindmint_contracts.Base.{
  ℕ, ◌≡◌, ◌⊎◌, refl, sym, ◌∙◌, ◌+◌, ◌-◌, ◌≤◌, true, false, not, none, some, [], get_or, ltb, leb,
  arith, inl, inr, if◌then◌else◌, Bool-cases, Option-cases,
}
use mindmint_contracts.Base.Int.{ℤ, pos, ◌+ℤ◌, ◌≤ℤ◌, ltb_ℤ}
use mindmint_contracts.Base.Map.{nat_key, lookup, insert}
use mindmint_contracts.Host.Call.{
  Address, Env, invoke, Ensures, invoke-Ensures, Ensures->>=, Ensures-mono, Ensures-any, after_auth,
  after_panic_if, after_expect, after_unwrap, after_invoke,
}
use mindmint_contracts.Host.Num.{
  add_i128, add_u64, sub_u64, checked-Ensures, add_u64-Ensures, sub_u64-Ensures,
}
use mindmint_contracts.Host.Tokens.{Tokens}
use mindmint_contracts.Auction.{
  AuctionType, AuctionInfo, AuctionSettings, Bid, AuctionAnalytics, Storage, is_english, is_sealed,
  create_auction, record_bid, record_analytics, count_bid,
}
use mindmint_contracts.Auction.English.{extend, outbid, place_bid}

-- Bids and analytics are recorded beside the auctions.
abbrev pub SameAuctions : Storage → Storage → Type 0
SameAuctions s s' = (s'.auctions ≡ s.auctions) × (s'.sealed_bids ≡ s.sealed_bids)

pub record_bid-SameAuctions :
    (i : ℕ) (b : Bid) (s : Storage) → Ensures (SameAuctions s) (record_bid i b s)
unfolding record_bid
record_bid-SameAuctions i b s =
    after_unwrap _ (lookup i s.auction_bids) _ λ bids found. (refl, refl)

pub record_analytics-SameAuctions :
    (i : ℕ) (b : Address) (f : AuctionAnalytics → AuctionAnalytics) (s : Storage)
    → Ensures (SameAuctions s) (record_analytics i b f s)
unfolding record_analytics
record_analytics-SameAuctions i b f s =
    after_unwrap _ (lookup i s.auction_analytics) _
      λ a found. Ensures->>= _ _ (count_bid b a) _ (Ensures-any _) λ counted _. (refl, refl)

-- A new auction has no bid.
abbrev pub IsOpened : Storage → Storage → Type 0
IsOpened s s' =
    (i : ℕ) × (a : AuctionInfo) × (a.highest_bidder ≡ none)
    × (a.current_bid ≡ pos 0)
    × (a.settled ≡ false)
    × (s'.auctions ≡ insert i a s.auctions)
    × ((s'.sealed_bids ≡ s.sealed_bids) ⊎ (s'.sealed_bids ≡ insert i [] s.sealed_bids))

pub create_auction-IsOpened :
    (e : Env) (a nft : Address) (id : ℕ) (token : Address) (kind : AuctionType)
    (settings : AuctionSettings) (s : Storage)
    → Ensures (λ r. IsOpened s r.1) (create_auction e a nft id token kind settings s)
unfolding create_auction
create_auction-IsOpened e a nft id token kind settings s = after_auth _ e a _ λ signed.
    after_panic_if _ (leb settings.end_time settings.start_time) _ _ λ lasting.
      Ensures->>= _ _ (add_u64 (get_or s.auction_count 0) 1) _ (Ensures-any _) λ i _.
        elim (Bool-cases (is_sealed kind)) [
          | inl yes_sealed ↦ rw yes_sealed (i, _, refl, refl, refl, refl, inr refl)
          | inr other ↦ rw other (i, _, refl, refl, refl, refl, inl refl)
        ]

module _ {W : Type 0} (t : Tokens W) where
  -- Whoever led the auction has been refunded.
  abbrev pub IsRefunded : Env → AuctionInfo → W → W → Type 0
  IsRefunded e a w w1 =
      ((a.highest_bidder ≡ none) × (w1 ≡ w))
      ⊎ ((p : Address) × (a.highest_bidder ≡ some p)
          × (t.transfer w a.payment_token e.current_contract p a.current_bid ≡ some w1))

  -- The bid is at least what the auction asks for.
  abbrev pub IsHighEnough : AuctionInfo → ℤ → Type 0
  IsHighEnough a x =
      ((a.highest_bidder ≡ none) × (a.settings.starting_price ≤ℤ x))
      ⊎ ((p : Address) × (a.highest_bidder ≡ some p)
          × (a.current_bid +ℤ a.settings.min_bid_increment ≤ℤ x))

  outbid-IsRefunded :
      (e : Env) (a : AuctionInfo) (x : ℤ) (w : W)
      → Ensures (λ w1. IsRefunded e a w w1 × IsHighEnough a x) (outbid t e a x w)
  unfolding outbid
  outbid-IsRefunded e a x w = elim (Option-cases a.highest_bidder) [
    | inl nobody ↦ rw nobody (
        after_panic_if _ (ltb_ℤ x a.settings.starting_price) _ _
          λ enough. (inl (refl, refl), inl (refl, ground arith)))
    | inr (p, leader) ↦ rw leader (
        Ensures->>= _ _ (add_i128 a.current_bid a.settings.min_bid_increment) _
          (checked-Ensures _ (a.current_bid +ℤ a.settings.min_bid_increment))
          λ least r. after_panic_if _ (ltb_ℤ x least) _ _ λ enough.
            Ensures-mono _ _
              (invoke (t.transfer w a.payment_token e.current_contract p a.current_bid))
              (invoke-Ensures _ (t.transfer w a.payment_token e.current_contract p a.current_bid))
              λ w1 moved. (inr (p, refl, moved), inr (p, refl, ground (arith, r, enough))))
  ]

-- The times of an auction after a bid.
abbrev pub extended : ℕ → AuctionSettings → AuctionSettings
extended now settings =
    if ltb (settings.end_time - now) 300 then record settings { end_time = now + 300 } else settings

extend-Ensures :
    (now : ℕ) (settings : AuctionSettings)
    → Ensures (λ r. r ≡ extended now settings) (extend now settings)
unfolding extend
extend-Ensures now settings =
    Ensures->>= _ _ (sub_u64 settings.end_time now) _ (sub_u64-Ensures _ settings.end_time now)
      λ remaining r. elim (Bool-cases (ltb remaining 300)) [
        | inl short ↦ rw short (
            Ensures->>= _ _ (add_u64 now 300) _ (add_u64-Ensures _ now 300)
              λ later l. rw (l, sym r, short) refl)
        | inr long ↦ rw long (rw (sym r, long) refl)
      ]

-- An auction that `bidder` leads with `x`.
abbrev pub led : Address → ℤ → AuctionInfo → AuctionInfo
led bidder x a = record a { highest_bidder = some bidder; current_bid = x }

module _ {W : Type 0} (t : Tokens W) where
  abbrev pub IsBidOn : Env → Address → ℕ → ℤ → Storage × W → Storage × W → AuctionInfo → Type 0
  IsBidOn e b i x st st' a =
      (lookup i st.0.auctions ≡ some a)
      × (e.has_auth b ≡ true)
      × (a.settled ≡ false)
      × (a.settings.start_time ≤ e.timestamp)
      × (e.timestamp ≤ a.settings.end_time)
      × IsHighEnough t a x
      × ((w1 : W) × IsRefunded t e a st.1 w1
          × (t.transfer w1 a.payment_token b e.current_contract x ≡ some st'.1))
      × (st'.0.auctions
          ≡ insert i (led b x (record a { settings = extended e.timestamp a.settings }))
              st.0.auctions)
      × (st'.0.sealed_bids ≡ st.0.sealed_bids)

  pub place_bid-IsBidOn :
      (e : Env) (b : Address) (i : ℕ) (x : ℤ) (s : Storage) (w : W)
      → Ensures (λ r. (a : AuctionInfo) × IsBidOn e b i x (s, w) r a) (place_bid t e b i x (s, w))
  unfolding place_bid
  place_bid-IsBidOn e b i x s w = after_auth _ e b _ λ signed.
      after_expect _ (lookup i s.auctions) _ _ λ a found.
        after_panic_if _ (not (is_english a.auction_type)) _ _ λ kind.
          after_panic_if _ a.settled _ _ λ unsettled.
            after_panic_if _ (ltb e.timestamp a.settings.start_time) _ _ λ started.
              after_panic_if _ (ltb a.settings.end_time e.timestamp) _ _ λ going.
                Ensures->>= _ _ (outbid t e a x w) _ (outbid-IsRefunded t e a x w)
                  λ w1 (back, high).
                    after_invoke _ (t.transfer w1 a.payment_token b e.current_contract x) _
                      λ w2 paid.
                        Ensures->>= _ _ (extend e.timestamp a.settings) _
                          (extend-Ensures e.timestamp a.settings)
                          λ settings later.
                            Ensures->>= _ _ (record_bid i _ s) _ (record_bid-SameAuctions i _ s)
                              λ s1 (k, l).
                                Ensures->>= _ _ (record_analytics i b (λ c. c) s1) _
                                  (record_analytics-SameAuctions i b (λ c. c) s1)
                                  λ s2 (k', l'). (
                                    a,
                                    (
                                      found,
                                      signed,
                                      unsettled,
                                      ground arith,
                                      ground arith,
                                      high,
                                      (w1, back, paid),
                                      rw (later, k', k) refl,
                                      l' ∙ l,
                                    ),
                                  )
