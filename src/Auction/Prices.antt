-- ===== src/Auction/Prices.antt =====
-- The price of a Dutch auction of contracts/auction/src/lib.rs over time.
use mindmint_contracts.Base.{
  ℕ, ◌≡◌, ◌⊎◌, refl, ap, ◌∙◌, ◌-◌, ◌*◌, ◌/◌, ◌≤◌, ◌<◌, leb, inl, inr, arith, Bool-cases,
}
use mindmint_contracts.Base.Int.{
  ℤ, pos, pos_part, neg_part, ◌-ℤ◌, ◌*ℤ◌, ◌/ℤ◌, ◌≤ℤ◌, int_laws, eq-pos_part, *ℤ_pos, /ℤ_pos,
}
use mathlib.Core.Path.{subst}
use native.Mathlib.Nat.{
  mul-le-mul_left, div-mul-le_self, div-le_of_le-mul, le-div_iff_mul-le, le_trans, mul_comm,
}
use mindmint_contracts.Host.Call.{ok, Ensures, Ensures->>=, Ensures-mono, ensured}
use mindmint_contracts.Host.Num.{
  sub_i128, mul_i128, div_i128, sub_u64, checked-Ensures, div_i128-Ensures, sub_u64-Ensures,
}
use mindmint_contracts.Auction.{AuctionSettings}
use mindmint_contracts.Auction.Dutch.{calculate_dutch_price}

-- The price without the contract's checks: the starting price until the start, the reserve price from
-- the end, and in between the starting price less the share of the difference that the time passed
-- has of the whole time, rounded towards zero.
abbrev pub IsPriceOf : AuctionSettings → ℕ → ℤ → Type 0
IsPriceOf s now p =
    (now ≤ s.start_time × (p ≡ s.starting_price))
    ⊎ (s.start_time < now × s.end_time ≤ now × (p ≡ s.reserve_price))
    ⊎ (s.start_time < now
        × now < s.end_time
        × (p
            ≡ s.starting_price
              -ℤ (s.starting_price -ℤ s.reserve_price)
                *ℤ pos (now - s.start_time)
                /ℤ pos (s.end_time - s.start_time)))

-- How much the price has dropped, rounded down.
abbrev drop_at : AuctionSettings → ℕ → ℕ
drop_at s now =
    pos_part (s.starting_price -ℤ s.reserve_price)
    * (now - s.start_time)
    / (s.end_time - s.start_time)

abbrev IsPriceAt : AuctionSettings → ℕ → ℤ → Type 0
IsPriceAt s now p =
    (now ≤ s.start_time × (p ≡ s.starting_price))
    ⊎ (s.start_time < now × s.end_time ≤ now × (p ≡ s.reserve_price))
    ⊎ (s.start_time < now × now < s.end_time × (p ≡ s.starting_price -ℤ pos (drop_at s now)))

pub calculate_dutch_price-IsPriceOf :
    (s : AuctionSettings) (now : ℕ) → Ensures (IsPriceOf s now) (calculate_dutch_price s now)
unfolding calculate_dutch_price
calculate_dutch_price-IsPriceOf s now = elim (Bool-cases (leb now s.start_time)) [
  | inl early ↦ rw early (inl (ground arith, refl))
  | inr started ↦ elim (Bool-cases (leb s.end_time now)) [
    | inl over ↦ rw (started, over) (inr (inl (ground arith, ground arith, refl)))
    | inr going ↦
        rw (started, going)
          (Ensures->>= _ _ (sub_u64 s.end_time s.start_time) _
            (sub_u64-Ensures _ s.end_time s.start_time)
            λ total r1.
              Ensures->>= _ _ (sub_u64 now s.start_time) _ (sub_u64-Ensures _ now s.start_time)
                λ elapsed r2.
                  Ensures->>= _ _ (sub_i128 s.starting_price s.reserve_price) _
                    (checked-Ensures _ (s.starting_price -ℤ s.reserve_price))
                    λ range r3.
                      Ensures->>= _ _ (mul_i128 range (pos elapsed)) _
                        (checked-Ensures _ (range *ℤ pos elapsed))
                        λ scaled r4.
                          Ensures->>= _ _ (div_i128 scaled (pos total)) _
                            (div_i128-Ensures _ scaled total (ground (arith, r1)))
                            λ drop r5.
                              Ensures-mono _ _ (sub_i128 s.starting_price drop)
                                (checked-Ensures _ (s.starting_price -ℤ drop))
                                λ p r6. inr (
                                  inr
                                    (ground arith, ground arith, rw (r6, r5, r4, r3, r2, r1) refl)))
  ]
]

-- Where the reserve price is at most the starting price, nothing in the price is negative.
price_of-IsPriceAt :
    (s : AuctionSettings) (now : ℕ) (p : ℤ)
    → s.reserve_price ≤ℤ s.starting_price
    → IsPriceOf s now p
    → IsPriceAt s now p
price_of-IsPriceAt s now p h (inl early) = inl early
price_of-IsPriceAt s now p h (inr (inl over)) = inr (inl over)
price_of-IsPriceAt s now p h (inr (inr (started, going, same))) =
    let exact = eq-pos_part (s.starting_price -ℤ s.reserve_price) (omega (int_laws, h)) in
    inr (inr (started, going, same ∙ rw (exact, *ℤ_pos, /ℤ_pos) refl))

calculate_dutch_price-IsPriceAt :
    (s : AuctionSettings) (now : ℕ)
    → s.reserve_price ≤ℤ s.starting_price
    → Ensures (IsPriceAt s now) (calculate_dutch_price s now)
calculate_dutch_price-IsPriceAt s now h =
    Ensures-mono _ _ (calculate_dutch_price s now) (calculate_dutch_price-IsPriceOf s now)
      λ p. price_of-IsPriceAt s now p h

minus_bounds :
    (a b : ℤ) (k : ℕ) → b ≤ℤ a → k ≤ pos_part (a -ℤ b) → b ≤ℤ a -ℤ pos k × a -ℤ pos k ≤ℤ a
minus_bounds a b k h le =
    let exact = eq-pos_part (a -ℤ b) (omega (int_laws, h)) in
    (omega (int_laws, ap neg_part exact, le), omega int_laws)

drop_mono :
    (s : AuctionSettings) (now later : ℕ)
    → s.start_time < s.end_time
    → now ≤ later
    → drop_at s now ≤ drop_at s later
drop_mono s now later lasts h =
    let d = pos_part (s.starting_price -ℤ s.reserve_price) in
    let lasting : 0 < s.end_time - s.start_time = omega arith in
    (le-div_iff_mul-le lasting).1 (
      le_trans (div-mul-le_self (d * (now - s.start_time)) (s.end_time - s.start_time))
        (mul-le-mul_left d (omega arith)))

drop_bound :
    (s : AuctionSettings) (now : ℕ)
    → s.start_time < s.end_time
    → now ≤ s.end_time
    → drop_at s now ≤ pos_part (s.starting_price -ℤ s.reserve_price)
drop_bound s now lasts h =
    let d = pos_part (s.starting_price -ℤ s.reserve_price) in
    div-le_of_le-mul (s.end_time - s.start_time) (
      subst (λ m. d * (now - s.start_time) ≤ m) (mul_comm d (s.end_time - s.start_time))
        (mul-le-mul_left d (omega arith)))

price_bounds :
    (s : AuctionSettings) (now : ℕ) (p : ℤ)
    → s.reserve_price ≤ℤ s.starting_price
    → IsPriceAt s now p
    → s.reserve_price ≤ℤ p × p ≤ℤ s.starting_price
price_bounds s now p h (inl (early, same)) = rw same (h, omega arith)
price_bounds s now p h (inr (inl (started, over, same))) = rw same (omega arith, h)
price_bounds s now p h (inr (inr (started, going, same))) =
    let b = drop_bound s now (omega arith) (omega arith) in
    rw same (minus_bounds s.starting_price s.reserve_price (drop_at s now) h b)

price_falls :
    (s : AuctionSettings) (now later : ℕ) (p q : ℤ)
    → s.reserve_price ≤ℤ s.starting_price
    → now ≤ later
    → IsPriceAt s now p
    → IsPriceAt s later q
    → q ≤ℤ p
price_falls s now later p q h le (inl (early, same)) k = rw same (price_bounds s later q h k).1
price_falls s now later p q h le k (inr (inl (started, over, same))) =
    rw same (price_bounds s now p h k).0
price_falls s now later p q h le (inr (inl (started, over, same))) (inl (early, k)) =
    absurd (omega arith)
price_falls s now later p q h le (inr (inl (started, over, same))) (inr (inr (begun, going, k))) =
    absurd (omega arith)
price_falls s now later p q h le (inr (inr (started, going, same))) (inl (early, k)) =
    absurd (omega arith)
price_falls s now later p q h le (inr (inr (started, going, same)))
      (inr (inr (begun, lasting, k))) =
    let m = drop_mono s now later (omega arith) le in rw (same, k) (omega (int_laws, m))

-- Where the reserve price is at most the starting price, the price of a Dutch auction is, whenever
-- the contract gives one, at least the reserve price and at most the starting price, and never
-- higher than the price it gave at an earlier time.
pub dutch_price_falls :
    (s : AuctionSettings) (now later : ℕ) (p q : ℤ)
    → s.reserve_price ≤ℤ s.starting_price
    → now ≤ later
    → calculate_dutch_price s now ≡ ok p
    → calculate_dutch_price s later ≡ ok q
    → s.reserve_price ≤ℤ q × q ≤ℤ p × p ≤ℤ s.starting_price
dutch_price_falls s now later p q h le first second =
    let a =
      ensured _ (calculate_dutch_price s now) (calculate_dutch_price-IsPriceAt s now h) first in
    let b =
      ensured _ (calculate_dutch_price s later) (calculate_dutch_price-IsPriceAt s later h)
        second in
    (
      (price_bounds s later q h b).0,
      price_falls s now later p q h le a b,
      (price_bounds s now p h a).1,
    )
