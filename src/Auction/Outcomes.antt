-- ===== src/Auction/Outcomes.antt =====
-- What the sales, the sealed bids and the settlements of contracts/auction/src/lib.rs do when they
-- succeed.
use mindmint_contracts.Base.{
  ℕ, ◌≡◌, ◌⊎◌, refl, ◌∙◌, ◌≤◌, true, false, not, ◌&&◌, none, some, List, [], ◌∷◌, ◌++◌, All, ltb,
  arith, inl, inr, Bool-cases, Option-cases,
}
use mindmint_contracts.Base.Int.{ℤ, ◌≤ℤ◌, leb_ℤ, ltb_ℤ}
use mindmint_contracts.Base.Map.{nat_key, lookup, insert}
use mindmint_contracts.Host.Call.{
  Address, Env, ok, invoke, Ensures, Ensures->>=, Ensures-mono, Result-Ensures, invoke-Ensures,
  after_auth, after_panic_if, after_expect, after_unwrap, after_invoke,
}
use mindmint_contracts.Host.Tokens.{Tokens}
use mindmint_contracts.Auction.{
  AuctionType, AuctionInfo, SealedBid, Storage, Nfts, is_dutch, is_sealed, record_bid,
  record_analytics,
}
use mindmint_contracts.Auction.Dutch.{calculate_dutch_price, buy_dutch}
use mindmint_contracts.Auction.Sealed.{
  has_bid, submit_sealed_bid, reveal, take_highest, reveal_sealed_bid,
}
use mindmint_contracts.Auction.Settlement.{refund_unrevealed, check_end, pay_seller, settle_auction}
use mindmint_contracts.Auction.Effects.{
  record_bid-SameAuctions, record_analytics-SameAuctions, IsRefunded, led,
}
use mindmint_contracts.Auction.Escrow.{IsClosed, AreClosed}

abbrev pub IsSubmitted : Address → ℕ → List ℕ → Storage → Storage → Type 0
IsSubmitted b i hash s s' =
    (bids : List SealedBid) × (lookup i s.sealed_bids ≡ some bids)
    × (s'.sealed_bids
        ≡ insert i
            (bids ++ (record { bidder = b; bid_hash = hash; revealed = false; amount = none }) ∷ [])
            s.sealed_bids)
    × (s'.auctions ≡ s.auctions)

pub submit_sealed_bid-IsSubmitted :
    (e : Env) (b : Address) (i : ℕ) (hash : List ℕ) (s : Storage)
    → Ensures (IsSubmitted b i hash s) (submit_sealed_bid e b i hash s)
unfolding submit_sealed_bid
submit_sealed_bid-IsSubmitted e b i hash s = after_auth _ e b _ λ signed.
    after_expect _ (lookup i s.auctions) _ _ λ a found.
      after_panic_if _ (not (is_sealed a.auction_type)) _ _ λ kind.
        after_panic_if _ a.settled _ _ λ unsettled.
          after_panic_if _ (ltb e.timestamp a.settings.start_time) _ _ λ started.
            after_panic_if _ (ltb a.settings.end_time e.timestamp) _ _ λ going.
              after_unwrap _ (lookup i s.sealed_bids) _ λ bids held.
                after_panic_if _ (has_bid b bids) _ _ λ first.
                  Ensures-mono _ _ (record_analytics i b (λ c. c) _)
                    (record_analytics-SameAuctions i b (λ c. c) _) λ r (k, l). (bids, held, l, k)

module _ {W : Type 0} (t : Tokens W) where
  abbrev pub IsSold : Env → Address → ℕ → ℤ → Storage × W → Storage × W → AuctionInfo → Type 0
  IsSold e b i most st st' a =
      (lookup i st.0.auctions ≡ some a)
      × (e.has_auth b ≡ true)
      × (a.settled ≡ false)
      × ((price : ℤ) × (calculate_dutch_price a.settings e.timestamp ≡ ok price)
          × (price ≤ℤ most)
          × (t.transfer st.1 a.payment_token b e.current_contract price ≡ some st'.1)
          × (st'.0.auctions ≡ insert i (record (led b price a) { settled = true }) st.0.auctions))
      × (st'.0.sealed_bids ≡ st.0.sealed_bids)

  pub buy_dutch-IsSold :
      (e : Env) (b : Address) (i : ℕ) (x : ℤ) (s : Storage) (w : W)
      → Ensures (λ r. (a : AuctionInfo) × IsSold e b i x (s, w) r a) (buy_dutch t e b i x (s, w))
  unfolding buy_dutch
  buy_dutch-IsSold e b i x s w = after_auth _ e b _ λ signed.
      after_expect _ (lookup i s.auctions) _ _ λ a found.
        after_panic_if _ (not (is_dutch a.auction_type)) _ _ λ kind.
          after_panic_if _ a.settled _ _ λ unsettled.
            Ensures->>= _ _ (calculate_dutch_price a.settings e.timestamp) _
              (Result-Ensures (calculate_dutch_price a.settings e.timestamp))
              λ price priced. after_panic_if _ (ltb_ℤ x price) _ _ λ willing.
                after_invoke _ (t.transfer w a.payment_token b e.current_contract price) _
                  λ w1 paid.
                    Ensures->>= _ _ (record_bid i _ _) _ (record_bid-SameAuctions i _ _)
                      λ s1 (k, l).
                        Ensures->>= _ _ (record_analytics i b _ s1) _
                          (record_analytics-SameAuctions i b _ s1)
                          λ s2 (k', l'). (
                            a,
                            (
                              found,
                              signed,
                              unsettled,
                              (price, priced, ground arith, paid, k' ∙ k),
                              l' ∙ l,
                            ),
                          )

  -- The auction and the tokens after a bid of `x` is revealed.
  abbrev pub IsTaken : Env → Address → ℤ → AuctionInfo → W → AuctionInfo × W → Type 0
  IsTaken e b x a w (a', w') =
      ((a' ≡ a) × (w' ≡ w))
      ⊎ ((w1 : W) × IsRefunded t e a w w1
          × (t.transfer w1 a.payment_token b e.current_contract x ≡ some w')
          × (a' ≡ led b x a))

  take_highest-IsTaken :
      (e : Env) (b : Address) (x : ℤ) (a : AuctionInfo) (w : W)
      → Ensures (IsTaken e b x a w) (take_highest t e b x a w)
  unfolding take_highest
  take_highest-IsTaken e b x a w =
      elim (Bool-cases (ltb_ℤ a.current_bid x && leb_ℤ a.settings.reserve_price x)) [
        | inr low ↦ rw low (inl (refl, refl))
        | inl high ↦ elim (Option-cases a.highest_bidder) [
          | inl nobody ↦
              rw (high, nobody)
                (after_invoke _ (t.transfer w a.payment_token b e.current_contract x) _
                  λ w1 paid. inr (w, inl (refl, refl), paid, refl))
          | inr (p, leader) ↦
              rw (high, leader)
                (after_invoke _ (t.transfer w a.payment_token e.current_contract p a.current_bid) _
                  λ w1 back.
                    after_invoke _ (t.transfer w1 a.payment_token b e.current_contract x) _
                      λ w2 paid. inr (w1, inr (p, refl, back), paid, refl))
        ]
      ]

  abbrev pub IsRevealed : Env → Address → ℕ → ℤ → Storage × W → Storage × W → AuctionInfo → Type 0
  IsRevealed e b i x st st' a =
      (lookup i st.0.auctions ≡ some a)
      × (e.has_auth b ≡ true)
      × (a.settled ≡ false)
      × ((bids : List SealedBid) × (bids' : List SealedBid) × (lookup i st.0.sealed_bids
            ≡ some bids)
          × (reveal b x bids ≡ some bids')
          × (st'.0.sealed_bids ≡ insert i bids' st.0.sealed_bids))
      × ((a' : AuctionInfo) × IsTaken e b x a st.1 (a', st'.1)
          × (st'.0.auctions ≡ insert i a' st.0.auctions))

  pub reveal_sealed_bid-IsRevealed :
      (e : Env) (b : Address) (i : ℕ) (x : ℤ) (secret : List ℕ) (s : Storage) (w : W)
      → Ensures
          (λ r. (a : AuctionInfo) × IsRevealed e b i x (s, w) r a)
          (reveal_sealed_bid t e b i x secret (s, w))
  unfolding reveal_sealed_bid
  reveal_sealed_bid-IsRevealed e b i x secret s w = after_auth _ e b _ λ signed.
      after_expect _ (lookup i s.auctions) _ _ λ a found.
        after_panic_if _ (not (is_sealed a.auction_type)) _ _ λ kind.
          after_panic_if _ a.settled _ _ λ unsettled.
            after_panic_if _ (ltb e.timestamp a.settings.end_time) _ _ λ ended.
              after_panic_if _ (ltb a.settings.reveal_end_time e.timestamp) _ _ λ going.
                after_unwrap _ (lookup i s.sealed_bids) _ λ bids held.
                  after_expect _ (reveal b x bids) _ _ λ bids' revealed.
                    Ensures->>= _ _ (take_highest t e b x a w) _ (take_highest-IsTaken e b x a w)
                      λ (a', w') taken. (
                        a,
                        (
                          found,
                          signed,
                          unsettled,
                          (bids, bids', held, revealed, refl),
                          (a', taken, refl),
                        ),
                      )

kind_cases :
    (k : AuctionType)
    → (k ≡ AuctionType.dutch) ⊎ (k ≡ AuctionType.english) ⊎ (k ≡ AuctionType.sealed)
kind_cases AuctionType.dutch = inl refl
kind_cases AuctionType.english = inr (inl refl)
kind_cases AuctionType.sealed = inr (inr refl)

module _ {W : Type 0} (t : Tokens W) (n : Nfts W) where
  -- Bids that are not revealed have no amount, so nothing is refunded.
  refund_unrevealed-IsClosed :
      (e : Env) (token : Address) (bids : List SealedBid) (w : W)
      → All IsClosed bids
      → refund_unrevealed t n e token bids w ≡ ok w
  unfolding refund_unrevealed
  refund_unrevealed-IsClosed e token [] w closed = refl
  refund_unrevealed-IsClosed e token (bid ∷ bids) w (here, closed) =
      elim (Bool-cases bid.revealed) [
        | inl opened ↦ rw opened (refund_unrevealed-IsClosed e token bids w closed)
        | inr shut ↦ rw (shut, here shut) (refund_unrevealed-IsClosed e token bids w closed)
      ]

  -- The tokens and the NFT after the seller is paid.
  abbrev pub IsPaidOut : Env → AuctionInfo → W → W → Type 0
  IsPaidOut e a w w' =
      ((a.highest_bidder ≡ none) × (w' ≡ w))
      ⊎ ((p : Address) × (w1 : W) × (a.highest_bidder ≡ some p)
          × (t.transfer w a.payment_token e.current_contract a.seller a.current_bid ≡ some w1)
          × (n w1 a.nft_contract a.seller p a.nft_id ≡ some w'))

  pay_seller-IsPaidOut :
      (e : Env) (a : AuctionInfo) (w : W) → Ensures (IsPaidOut e a w) (pay_seller t n e a w)
  unfolding pay_seller
  pay_seller-IsPaidOut e a w = elim (Option-cases a.highest_bidder) [
    | inl nobody ↦ rw nobody (inl (refl, refl))
    | inr (p, leader) ↦ rw leader (
        after_invoke _ (t.transfer w a.payment_token e.current_contract a.seller a.current_bid) _
          λ w1 paid.
            Ensures-mono _ _ (invoke (n w1 a.nft_contract a.seller p a.nft_id))
              (invoke-Ensures _ (n w1 a.nft_contract a.seller p a.nft_id))
              λ w2 given. inr (p, w1, refl, paid, given))
  ]

  -- The time at which an auction may be settled.
  abbrev pub HasEnded : Env → AuctionInfo → Type 0
  HasEnded e a =
      (a.auction_type ≡ AuctionType.dutch)
      ⊎ ((a.auction_type ≡ AuctionType.english) × a.settings.end_time ≤ e.timestamp)
      ⊎ ((a.auction_type ≡ AuctionType.sealed) × a.settings.reveal_end_time ≤ e.timestamp)

  check_end-HasEnded :
      (e : Env) (i : ℕ) (a : AuctionInfo) (s : Storage) (w : W)
      → AreClosed s
      → Ensures (λ w'. HasEnded e a × (w' ≡ w)) (check_end t n e i a s w)
  unfolding check_end
  check_end-HasEnded e i a s w closed = elim (kind_cases a.auction_type) [
    | inl dutch ↦ rw dutch (inl refl, refl)
    | inr (inl english) ↦ rw english (
        after_panic_if _ (ltb e.timestamp a.settings.end_time) _ _
          λ over. (inr (inl (refl, ground arith)), refl))
    | inr (inr sealed) ↦ rw sealed (
        after_panic_if _ (ltb e.timestamp a.settings.reveal_end_time) _ _ λ over.
          after_unwrap _ (lookup i s.sealed_bids) _ λ bids held.
            rw (refund_unrevealed-IsClosed e a.payment_token bids w (closed i bids held))
              (inr (inr (refl, ground arith)), refl))
  ]

  abbrev pub IsSettled : Env → ℕ → Storage × W → Storage × W → AuctionInfo → Type 0
  IsSettled e i st st' a =
      (lookup i st.0.auctions ≡ some a)
      × (a.settled ≡ false)
      × HasEnded e a
      × IsPaidOut e a st.1 st'.1
      × (st'.0.auctions ≡ insert i (record a { settled = true }) st.0.auctions)
      × (st'.0.sealed_bids ≡ st.0.sealed_bids)

  pub settle_auction-IsSettled :
      (e : Env) (i : ℕ) (s : Storage) (w : W)
      → AreClosed s
      → Ensures (λ r. (a : AuctionInfo) × IsSettled e i (s, w) r a) (settle_auction t n e i (s, w))
  unfolding settle_auction
  settle_auction-IsSettled e i s w closed = after_expect _ (lookup i s.auctions) _ _ λ a found.
      after_panic_if _ a.settled _ _ λ unsettled.
        Ensures->>= _ _ (check_end t n e i a s w) _ (check_end-HasEnded e i a s w closed)
          λ w1 (ended, same).
            Ensures->>= _ _ (pay_seller t n e a w1) _ (pay_seller-IsPaidOut e a w1) λ w2 out.
              after_unwrap _ (lookup i s.auction_analytics) _
                λ analytics kept. (a, (found, unsettled, ended, rw same at out, refl, refl))
