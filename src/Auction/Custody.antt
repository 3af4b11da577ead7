-- ===== src/Auction/Custody.antt =====
-- Whether the contract of contracts/auction/src/lib.rs holds the leading bids of its auctions, request
-- by request.
use mindmint_contracts.Base.{
  ℕ, ◌≡◌, refl, ap, true, false, not, ◌&&◌, some, List, [], ◌∷◌, ◌++◌, All, ◌==◌, if◌then◌else◌,
  inl, inr, arith, Bool-cases, get_or, Option-cases,
}
use mindmint_contracts.Base.Int.{ℤ, pos, ◌+ℤ◌, ◌≤ℤ◌, int_laws}
use mathlib.Core.Path.{subst}
use mindmint_contracts.Base.Map.{nat_key, lookup, insert}
use mindmint_contracts.Base.Map.Laws.{weight, all-insert}
use mindmint_contracts.Host.Call.{Address, Env, Ensures, Ensures-mono}
use mindmint_contracts.Host.Tokens.{Tokens, IsTokens}
use mindmint_contracts.Auction.{AuctionInfo, SealedBid, Storage, Nfts}
use mindmint_contracts.Auction.English.{place_bid}
use mindmint_contracts.Auction.Dutch.{buy_dutch}
use mindmint_contracts.Auction.Sealed.{submit_sealed_bid, reveal, reveal_sealed_bid}
use mindmint_contracts.Auction.Settlement.{settle_auction}
use mindmint_contracts.Auction.Effects.{IsRefunded, place_bid-IsBidOn}
use mindmint_contracts.Auction.Escrow.{
  leading, IsClosed, AreClosed, IsFunded, IsPaidFor-IsFunded, AreNonneg,
}
use mindmint_contracts.Auction.Outcomes.{
  IsTaken, submit_sealed_bid-IsSubmitted, buy_dutch-IsSold, reveal_sealed_bid-IsRevealed,
  settle_auction-IsSettled, IsPaidOut,
}

append-IsClosed :
    (bids : List SealedBid) (b : SealedBid)
    → All IsClosed bids
    → IsClosed b
    → All IsClosed (bids ++ b ∷ [])
append-IsClosed [] b h k = (k, tt)
append-IsClosed (c ∷ bids) b (here, h) k = (here, append-IsClosed bids b h k)

reveal-IsClosed :
    (b : Address) (x : ℤ) (bids bids' : List SealedBid)
    → All IsClosed bids
    → reveal b x bids ≡ some bids'
    → All IsClosed bids'
unfolding reveal
reveal-IsClosed b x [] bids' closed h = absurd (ground (arith, h))
reveal-IsClosed b x (c ∷ bids) bids' (here, closed) h =
    elim (Bool-cases (c.bidder == b && not c.revealed)) [
      | inl found ↦
          let head : some (record c { revealed = true; amount = some x } ∷ bids) ≡ some bids' =
            rw found at h in
          subst (λ o. All IsClosed (get_or o bids)) head ((λ e. absurd (ground (arith, e))), closed)
      | inr other ↦ elim (Option-cases (reveal b x bids)) [
        | inl nowhere ↦ absurd (ground (arith, h, other, nowhere))
        | inr (rest, later) ↦
            let tail : some (c ∷ rest) ≡ some bids' = rw (other, later) at h in
            subst (λ o. All IsClosed (get_or o bids)) tail
              (here, reveal-IsClosed b x bids rest closed later)
      ]
    ]

pub insert-AreClosed :
    (i : ℕ) (bids : List SealedBid) (s s' : Storage)
    → AreClosed s
    → All IsClosed bids
    → s'.sealed_bids ≡ insert i bids s.sealed_bids
    → AreClosed s'
insert-AreClosed i bids s s' closed h stored =
    rw stored (all-insert (λ _ c. All IsClosed c) i bids s.sealed_bids h closed)

pub same-AreClosed : (s s' : Storage) → AreClosed s → s'.sealed_bids ≡ s.sealed_bids → AreClosed s'
same-AreClosed s s' closed same = rw same closed

pub leading_nonneg :
    (s : Storage) (i : ℕ) (d : Address)
    → AreNonneg s
    → pos 0 ≤ℤ weight (leading d) (lookup i s.auctions)
leading_nonneg s i d nonneg = elim (Option-cases (lookup i s.auctions)) [
  | inl missing ↦ rw missing (ground arith)
  | inr (a, found) ↦ rw found (ground (arith, nonneg i a found))
]

module _ {W : Type 0} (t : Tokens W) (n : Nfts W) (laws : IsTokens t) (e : Env)
    (alone : e.has_auth e.current_contract ≡ false) where
  abbrev own : Address
  own = e.current_contract

  -- What the contract holds after a bid of `x` that follows a refund.
  taken-pays :
      (a : AuctionInfo) (b : Address) (x : ℤ) (w w1 w2 : W) (d : Address)
      → e.has_auth b ≡ true
      → a.settled ≡ false
      → IsRefunded t e a w w1
      → t.transfer w1 a.payment_token b own x ≡ some w2
      → (if a.settled then pos 0 else if a.payment_token == d then x else pos 0)
          +ℤ t.balance w d own
        ≤ℤ leading d a +ℤ t.balance w2 d own
  taken-pays a b x w w1 w2 d signed unsettled (inl (nobody, same)) paid = grind (
    int_laws,
    nobody,
    same,
    signed,
    alone,
    unsettled,
    laws.transfer_moves w1 a.payment_token b own x w2 paid d own,
  )
  taken-pays a b x w w1 w2 d signed unsettled (inr (p, leader, back)) paid = grind (
    int_laws,
    leader,
    signed,
    alone,
    unsettled,
    laws.transfer_moves w1 a.payment_token b own x w2 paid d own,
    laws.transfer_moves w a.payment_token own p a.current_bid w1 back d own,
    laws.transfer_nonneg w a.payment_token own p a.current_bid w1 back,
  )

  pub place_bid-IsFunded :
      (b : Address) (i : ℕ) (x : ℤ) (s : Storage) (w : W)
      → IsFunded t own (s, w)
      → Ensures (IsFunded t own) (place_bid t e b i x (s, w))
  place_bid-IsFunded b i x s w v =
      Ensures-mono _ _ (place_bid t e b i x (s, w)) (place_bid-IsBidOn t e b i x s w)
        λ r (a, (found, signed, unsettled, started, going, high, (w1, back, paid), stored, sealed)).
          IsPaidFor-IsFunded t own (s, w) r v
            (
              i,
              _,
              stored,
              laws.transfer_nonneg w1 a.payment_token b own x r.1 paid,
              λ d. rw found (taken-pays a b x w w1 r.1 d signed unsettled back paid),
            )
            (same-AreClosed s r.0 v.2 sealed)

  pub buy_dutch-IsFunded :
      (b : Address) (i : ℕ) (x : ℤ) (s : Storage) (w : W)
      → IsFunded t own (s, w)
      → Ensures (IsFunded t own) (buy_dutch t e b i x (s, w))
  buy_dutch-IsFunded b i x s w v =
      Ensures-mono _ _ (buy_dutch t e b i x (s, w)) (buy_dutch-IsSold t e b i x s w)
        λ r (a, (found, signed, unsettled, (price, priced, willing, paid, stored), sealed)).
          let positive = laws.transfer_nonneg w a.payment_token b own price r.1 paid in
          IsPaidFor-IsFunded t own (s, w) r v
            (
              i,
              _,
              stored,
              positive,
              λ d. grind (
                int_laws,
                leading_nonneg s i d v.1,
                signed,
                alone,
                positive,
                laws.transfer_moves w a.payment_token b own price r.1 paid d own,
              ),
            )
            (same-AreClosed s r.0 v.2 sealed)

  taken-nonneg :
      (a : AuctionInfo) (b : Address) (x : ℤ) (w : W) (r : AuctionInfo × W)
      → pos 0 ≤ℤ a.current_bid
      → IsTaken t e b x a w r
      → pos 0 ≤ℤ r.0.current_bid
  taken-nonneg a b x w r held (inl (kept, same)) = rw kept held
  taken-nonneg a b x w r held (inr (w1, back, paid, raised)) =
      rw raised (laws.transfer_nonneg w1 a.payment_token b own x r.1 paid)

  taken-covers :
      (a : AuctionInfo) (b : Address) (x : ℤ) (w : W) (r : AuctionInfo × W) (d : Address)
      → e.has_auth b ≡ true
      → a.settled ≡ false
      → IsTaken t e b x a w r
      → leading d r.0 +ℤ t.balance w d own ≤ℤ leading d a +ℤ t.balance r.1 d own
  taken-covers a b x w r d signed unsettled (inl (kept, same)) =
      grind (int_laws, ap (leading d) kept, same)
  taken-covers a b x w r d signed unsettled (inr (w1, back, paid, raised)) =
      grind
        (int_laws, ap (leading d) raised, taken-pays a b x w w1 r.1 d signed unsettled back paid)

  pub reveal_sealed_bid-IsFunded :
      (b : Address) (i : ℕ) (x : ℤ) (secret : List ℕ) (s : Storage) (w : W)
      → IsFunded t own (s, w)
      → Ensures (IsFunded t own) (reveal_sealed_bid t e b i x secret (s, w))
  reveal_sealed_bid-IsFunded b i x secret s w v =
      Ensures-mono _ _ (reveal_sealed_bid t e b i x secret (s, w))
        (reveal_sealed_bid-IsRevealed t e b i x secret s w)
        λ r
            (
              a,
              (found, signed, unsettled, (bids, bids', held, opened, sealed), (a', taken, stored)),
            ).
          IsPaidFor-IsFunded t own (s, w) r v
            (
              i,
              a',
              stored,
              taken-nonneg a b x w (a', r.1) (v.1 i a found) taken,
              λ d. rw found (taken-covers a b x w (a', r.1) d signed unsettled taken),
            )
            (insert-AreClosed i bids' s r.0 v.2
              (reveal-IsClosed b x bids bids' (v.2 i bids held) opened) sealed)

  pub submit_sealed_bid-IsFunded :
      (b : Address) (i : ℕ) (hash : List ℕ) (s : Storage) (w : W)
      → IsFunded t own (s, w)
      → Ensures (λ s'. IsFunded t own (s', w)) (submit_sealed_bid e b i hash s)
  submit_sealed_bid-IsFunded b i hash s w v =
      Ensures-mono _ _ (submit_sealed_bid e b i hash s) (submit_sealed_bid-IsSubmitted e b i hash s)
        λ s' (bids, held, sealed, stored). (
          rw stored v.0,
          rw stored v.1,
          insert-AreClosed i _ s s' v.2 (append-IsClosed bids _ (v.2 i bids held) (λ shut. refl))
              sealed,
        )

  module _
      (pays_nothing : (w : W) (c a b : Address) (id : ℕ) (w' : W)
        → n w c a b id ≡ some w'
        → (d : Address) → t.balance w d own ≤ℤ t.balance w' d own) where
    paid_out-covers :
        (a : AuctionInfo) (w w' : W) (d : Address)
        → a.settled ≡ false
        → IsPaidOut t n e a w w'
        → t.balance w d own ≤ℤ leading d a +ℤ t.balance w' d own
    paid_out-covers a w w' d unsettled (inl (nobody, same)) =
        grind (int_laws, nobody, same, unsettled)
    paid_out-covers a w w' d unsettled (inr (p, w1, leader, paid, given)) = grind (
      int_laws,
      leader,
      unsettled,
      laws.transfer_moves w a.payment_token own a.seller a.current_bid w1 paid d own,
      laws.transfer_nonneg w a.payment_token own a.seller a.current_bid w1 paid,
      pays_nothing w1 a.nft_contract a.seller p a.nft_id w' given d,
    )

    pub settle_auction-IsFunded :
        (i : ℕ) (s : Storage) (w : W)
        → IsFunded t own (s, w)
        → Ensures (IsFunded t own) (settle_auction t n e i (s, w))
    settle_auction-IsFunded i s w v =
        Ensures-mono _ _ (settle_auction t n e i (s, w)) (settle_auction-IsSettled t n e i s w v.2)
          λ r (a, (found, unsettled, ended, out, stored, sealed)).
            IsPaidFor-IsFunded t own (s, w) r v
              (
                i,
                _,
                stored,
                v.1 i a found,
                λ d. rw found (grind (int_laws, paid_out-covers a w r.1 d unsettled out)),
              )
              (same-AreClosed s r.0 v.2 sealed)
