-- ===== src/Leaderboard/Order.antt =====
-- The order of the lists of top scores of contracts/leaderboard/src/lib.rs.
use mindmint_contracts.Base.{
  ℕ, ◌≡◌, ◌≢◌, sym, true, false, some, List, [], ◌∷◌, ◌++◌, All, length, ltb, ◌==◌, inl, inr, arith,
  Bool-cases, Option-cases,
}
use mindmint_contracts.Base.Int.{◌≤ℤ◌, ltb_ℤ}
use mindmint_contracts.Base.Map.{pair_key, lookup}
use mindmint_contracts.Base.Map.Laws.{all-insert}
use mindmint_contracts.Leaderboard.{TimePeriod, LeaderboardConfig, PlayerScore, Storage}
use mindmint_contracts.Leaderboard.Steps.{
  rank_higher, rank_passed, rank_dropped, rank_room, rank_full,
}
use mindmint_contracts.Leaderboard.Tops.{
  list_key, others, rank, finish, top_scores_of, update_top_scores_list,
}

-- The first of two entries is at least as high, and of another player.
abbrev pub IsAbove : PlayerScore → PlayerScore → Type 0
IsAbove a b = b.score ≤ℤ a.score × a.player ≢ b.player

-- Every entry is above all that follow it.
abbrev pub IsRanked : List PlayerScore → Type 0
IsRanked [] = Unit
IsRanked (a ∷ list) = All (IsAbove a) list × IsRanked list

All-snoc :
    (P : PlayerScore → Type 0) (xs : List PlayerScore) (y : PlayerScore)
    → All P xs
    → P y
    → All P (xs ++ y ∷ [])
All-snoc P [] y h k = (k, tt)
All-snoc P (x ∷ xs) y (here, h) k = (here, All-snoc P xs y h k)

All-mono :
    (P Q : PlayerScore → Type 0) (xs : List PlayerScore)
    → All P xs
    → ((x : PlayerScore) → P x → Q x)
    → All Q xs
All-mono P Q [] h k = tt
All-mono P Q (x ∷ xs) (here, h) k = (k x here, All-mono P Q xs h k)

snoc-IsRanked :
    (xs : List PlayerScore) (y : PlayerScore)
    → IsRanked xs
    → All (λ x. IsAbove x y) xs
    → IsRanked (xs ++ y ∷ [])
snoc-IsRanked [] y h k = (tt, tt)
snoc-IsRanked (x ∷ xs) y (above, h) (here, k) =
    (All-snoc (IsAbove x) xs y above here, snoc-IsRanked xs y h k)

-- The other players' entries keep their order, and the player is not among them.
others-IsRanked :
    (p : ℕ) (xs : List PlayerScore)
    → IsRanked xs
    → IsRanked (others p xs)
      × All (λ x. x.player ≢ p) (others p xs)
      × ((P : PlayerScore → Type 0) → All P xs → All P (others p xs))
unfolding others
others-IsRanked p [] h = (tt, tt, λ P k. tt)
others-IsRanked p (x ∷ xs) (above, h) =
    let (ranked, absent, kept) = others-IsRanked p xs h in
    elim (Bool-cases (x.player == p)) [
      | inl same ↦ rw same (ranked, absent, λ P k. kept P k.1)
      | inr other ↦
          let apart : x.player ≢ p = λ e. ground (arith, other, e) in
          rw other ((kept (IsAbove x) above, ranked), (apart, absent), λ P k. (k.0, kept P k.1))
    ]

-- What the loop keeps: its list so far is ranked, and above all that is left.
abbrev IsAboveAll : List PlayerScore → List PlayerScore → Type 0
IsAboveAll xs ys = All (λ x. All (IsAbove x) ys) xs

rank_inserted-IsRanked :
    (max : ℕ) (new : PlayerScore) (xs ys : List PlayerScore)
    → IsRanked xs
    → IsAboveAll xs ys
    → IsRanked ys
    → IsRanked (finish max new (rank max new true xs ys))
unfolding rank
rank_inserted-IsRanked max new xs [] h above k = h
rank_inserted-IsRanked max new xs (y ∷ ys) h above (first, k) =
    let rest =
      All-mono (λ x. All (IsAbove x) (y ∷ ys)) (λ x. All (IsAbove x) ys) xs above (λ x a. a.1) in
    elim (Bool-cases (ltb (length xs) max)) [
      | inl room ↦ rw (rank_room max new y xs ys room) (
          rank_inserted-IsRanked max new (xs ++ y ∷ []) ys
            (snoc-IsRanked xs y h (All-mono _ (λ x. IsAbove x y) xs above (λ x a. a.0)))
            (All-snoc (λ x. All (IsAbove x) ys) xs y rest first) k)
      | inr full ↦
          rw (rank_full max new y xs ys full) (rank_inserted-IsRanked max new xs ys h rest k)
    ]

-- A score above the first of a ranked list of other players is above all of it.
below-IsAbove :
    (new y : PlayerScore) (ys : List PlayerScore)
    → ltb_ℤ y.score new.score ≡ true
    → All (IsAbove y) ys
    → y.player ≢ new.player
    → All (λ z. z.player ≢ new.player) ys
    → All (IsAbove new) (y ∷ ys)
below-IsAbove new y ys higher first other apart =
    ((ground (arith, higher), λ e. other (sym e)), below-all ys first apart)
  where
    below-all :
        (zs : List PlayerScore)
        → All (IsAbove y) zs
        → All (λ z. z.player ≢ new.player) zs
        → All (IsAbove new) zs
    below-all [] a b = tt
    below-all (z ∷ zs) (a, more) (b, rest) =
        ((ground (arith, higher, a.0), λ e. b (sym e)), below-all zs more rest)

-- The new score is below all that came before it, until it is inserted.
rank-IsRanked :
    (max : ℕ) (new : PlayerScore) (xs ys : List PlayerScore)
    → IsRanked xs
    → IsAboveAll xs ys
    → All (λ x. IsAbove x new) xs
    → IsRanked ys
    → All (λ y. y.player ≢ new.player) ys
    → IsRanked (finish max new (rank max new false xs ys))
unfolding rank
rank-IsRanked max new xs [] h above over k apart = elim (Bool-cases (ltb (length xs) max)) [
  | inl room ↦ rw room (snoc-IsRanked xs new h over)
  | inr full ↦ rw full h
]
rank-IsRanked max new xs (y ∷ ys) h above over (first, k) (other, apart) =
    let rest =
      All-mono (λ x. All (IsAbove x) (y ∷ ys)) (λ x. All (IsAbove x) ys) xs above (λ x a. a.1) in
    elim (Bool-cases (ltb_ℤ y.score new.score)) [
      | inl higher ↦ rw (rank_higher max new y xs ys higher) (
          rank_inserted-IsRanked max new (xs ++ new ∷ []) (y ∷ ys) (snoc-IsRanked xs new h over)
            (All-snoc (λ x. All (IsAbove x) (y ∷ ys)) xs new above
              (below-IsAbove new y ys higher first other apart))
            (first, k))
      | inr lower ↦ elim (Bool-cases (ltb (length xs) max)) [
        | inl room ↦ rw (rank_passed max new y xs ys lower room) (
            rank-IsRanked max new (xs ++ y ∷ []) ys
              (snoc-IsRanked xs y h (All-mono _ (λ x. IsAbove x y) xs above (λ x a. a.0)))
              (All-snoc (λ x. All (IsAbove x) ys) xs y rest first)
              (All-snoc (λ x. IsAbove x new) xs y over (ground (arith, lower), other)) k apart)
        | inr full ↦
            rw (rank_dropped max new y xs ys lower full)
              (rank-IsRanked max new xs ys h rest over k apart)
      ]
    ]

abbrev pub AreRanked : Storage → Type 0
AreRanked s = (k : ℕ × ℕ) (xs : List PlayerScore) → lookup k s.top_scores ≡ some xs → IsRanked xs

top_scores_of-IsRanked :
    (period : TimePeriod) (id : ℕ) (s : Storage)
    → AreRanked s
    → IsRanked (top_scores_of s period id)
top_scores_of-IsRanked period id s h =
    elim (Option-cases (lookup (list_key period id) s.top_scores)) [
      | inl missing ↦ rw missing tt
      | inr (xs, found) ↦ rw found (h (list_key period id) xs found)
    ]

pub update_top_scores_list-AreRanked :
    (config : LeaderboardConfig) (new : PlayerScore) (period : TimePeriod) (id : ℕ) (s : Storage)
    → AreRanked s
    → AreRanked (update_top_scores_list config new period id s)
unfolding update_top_scores_list
update_top_scores_list-AreRanked config new period id s h =
    let before : IsRanked (top_scores_of s period id) = top_scores_of-IsRanked period id s h in
    let (ranked, absent, kept) = others-IsRanked new.player (top_scores_of s period id) before in
    all-insert (λ _ xs. IsRanked xs) (list_key period id) _ s.top_scores
      (rank-IsRanked config.max_top_entries new [] (others new.player (top_scores_of s period id))
        tt tt tt ranked absent)
      h
