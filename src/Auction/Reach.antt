-- ===== src/Auction/Reach.antt =====
-- The states that the entry points of contracts/auction/src/lib.rs reach: the contract holds the
-- leading bids.
use mindmint_contracts.Base.{ℕ, is_some, ◌≡◌, false, some, [], inl, inr, arith, Bool-cases}
use mindmint_contracts.Base.Int.{pos, ◌≤ℤ◌, int_laws}
use mathlib.Core.Path.{subst}
use mindmint_contracts.Base.Map.{nat_key, lookup}
use mindmint_contracts.Base.Map.Laws.{total}
use mindmint_contracts.Host.Call.{Address, Env, ok, Ensures, Ensures->>=, ensured}
use mindmint_contracts.Host.Tokens.{Tokens, IsTokens}
use mindmint_contracts.Auction
use mindmint_contracts.Auction.{AuctionInfo, SealedBid, Storage, Nfts}
use mindmint_contracts.Auction.Sealed.{submit_sealed_bid}
use mindmint_contracts.Auction.Effects.{create_auction-IsOpened}
use mindmint_contracts.Auction.Escrow.{escrowed, IsFunded, IsPaidFor-IsFunded}
use mindmint_contracts.Auction.Entry.{Request, serve}
use mindmint_contracts.Auction.Custody.{
  same-AreClosed, insert-AreClosed, leading_nonneg, place_bid-IsFunded, buy_dutch-IsFunded,
  reveal_sealed_bid-IsFunded, submit_sealed_bid-IsFunded, settle_auction-IsFunded,
}

module _ {W : Type 0} (t : Tokens W) (n : Nfts W) (laws : IsTokens t) (e : Env)
    (alone : e.has_auth e.current_contract ≡ false)
    (pays_nothing : (w : W) (c a b : Address) (id : ℕ) (w' : W)
      → n w c a b id ≡ some w'
      → (d : Address) → t.balance w d e.current_contract ≤ℤ t.balance w' d e.current_contract) where
  abbrev own : Address
  own = e.current_contract

  serve-IsFunded :
      (q : Request) (s : Storage) (w : W)
      → IsFunded t own (s, w)
      → Ensures (IsFunded t own) (serve t n e q (s, w))
  unfolding serve
  serve-IsFunded Request.init s w v = elim (Bool-cases (is_some s.auction_count)) [
    | inl set ↦ rw set v
    | inr unset ↦ rw unset v
  ]
  serve-IsFunded (Request.create_auction a nft id token kind settings) s w v =
      Ensures->>= _ _ (Auction.create_auction e a nft id token kind settings s) _
        (create_auction-IsOpened e a nft id token kind settings s)
        λ r (i, c, nobody, nothing, unsettled, stored, sealed).
          IsPaidFor-IsFunded t own (s, w) (r.1, w) v
            (
              i,
              c,
              stored,
              ground (arith, nothing),
              λ d. grind (int_laws, nobody, leading_nonneg s i d v.1),
            )
            (elim sealed [
              | inl same ↦ same-AreClosed s r.1 v.2 same
              | inr new ↦ insert-AreClosed i [] s r.1 v.2 tt new
            ])
  serve-IsFunded (Request.place_bid a i x) s w v = place_bid-IsFunded t n laws e alone a i x s w v
  serve-IsFunded (Request.buy_dutch a i x) s w v = buy_dutch-IsFunded t n laws e alone a i x s w v
  serve-IsFunded (Request.submit_sealed_bid a i hash) s w v =
      Ensures->>= _ _ (submit_sealed_bid e a i hash s) _
        (submit_sealed_bid-IsFunded t n laws e alone a i hash s w v) λ s' k. k
  serve-IsFunded (Request.reveal_sealed_bid a i x secret) s w v =
      reveal_sealed_bid-IsFunded t n laws e alone a i x secret s w v
  serve-IsFunded (Request.settle_auction i) s w v =
      settle_auction-IsFunded t n laws e alone pays_nothing i s w v

-- What the entry points reach.
pub data Reach {W : Type 0} (t : Tokens W) (n : Nfts W) (this : Address)
    : Storage × W → Type 0 where
  start :
      (w : W) → ((d : Address) → pos 0 ≤ℤ t.balance w d this) → Reach t n this (Auction.empty, w)
  next :
      {st st' : Storage × W} (e : Env) (q : Request)
      → Reach t n this st
      → e.current_contract ≡ this
      → e.has_auth this ≡ false
      → serve t n e q st ≡ ok st'
      → Reach t n this st'

empty-IsFunded :
    {W : Type 0} (t : Tokens W) (this : Address) (w : W)
    → ((d : Address) → pos 0 ≤ℤ t.balance w d this)
    → IsFunded t this (Auction.empty, w)
unfolding total lookup
empty-IsFunded t this w h = (h, λ i a k. ground (arith, k), λ i a k. ground (arith, k))

module _ {W : Type 0} (t : Tokens W) (n : Nfts W) (this : Address) (laws : IsTokens t)
    (pays_nothing : (w : W) (c a b : Address) (id : ℕ) (w' : W)
      → n w c a b id ≡ some w'
      → (d : Address) → t.balance w d this ≤ℤ t.balance w' d this) where
  pub reached-IsFunded : {st : Storage × W} → Reach t n this st → IsFunded t this st
  reached-IsFunded (start w h) = empty-IsFunded t this w h
  reached-IsFunded (next {st = st} e q r here alone h) =
      ensured (IsFunded t this) (serve t n e q st)
        (subst
          (λ a.
            e.has_auth a ≡ false
            → ((w : W) (c o b : Address) (id : ℕ) (w' : W)
                → n w c o b id ≡ some w'
                → (d : Address) → t.balance w d a ≤ℤ t.balance w' d a)
            → IsFunded t a st
            → Ensures (IsFunded t a) (serve t n e q st))
          here (λ l p v. serve-IsFunded t n laws e l p q st.0 st.1 v) alone pays_nothing
          (reached-IsFunded r))
        h

  -- In every state that the entry points reach from an empty contract, in calls none of which the
  -- contract itself authorises, the contract's own balance of every token is at least the sum of
  -- the leading bids in that token of all auctions that are not settled, provided that no transfer
  -- of an NFT takes tokens from the contract.
  pub reached_escrowed :
      {st : Storage × W}
      → Reach t n this st
      → (d : Address) → escrowed st.0 d ≤ℤ t.balance st.1 d this
  reached_escrowed r = (reached-IsFunded r).0
