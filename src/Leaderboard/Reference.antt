-- ===== src/Leaderboard/Reference.antt =====
-- The list of top scores of contracts/leaderboard/src/lib.rs against an insertion into a list that is
-- then cut.
use mindmint_contracts.Base.{
  ℕ, zero, suc, ◌≡◌, refl, ap, sym, ◌∙◌, ◌+◌, ◌≤◌, true, false, List, [], ◌∷◌, ◌++◌, length,
  length-append, take, ltb, if◌then◌else◌, inl, inr, arith, Bool-cases, get_or, ◌≢◌,
}
use mindmint_contracts.Base.Int.{ltb_ℤ}
use mathlib.Core.List.{append_assoc, append-nil}
use mindmint_contracts.Base.Map.{pair_key}
use mindmint_contracts.Base.Map.Laws.{lookup-insert_self, lookup-insert_ne}
use mindmint_contracts.Leaderboard.{TimePeriod, LeaderboardConfig, PlayerScore, Storage}
use mindmint_contracts.Leaderboard.Steps.{rank_higher, rank_passed, rank_room, rank_full}
use mindmint_contracts.Leaderboard.Tops.{
  list_key, others, rank, finish, top_scores_of, update_top_scores_list,
}

-- The new score before the first one that is lower.
unfoldable pub insert_score : PlayerScore → List PlayerScore → List PlayerScore
insert_score new [] = new ∷ []
insert_score new (existing ∷ list) =
    let rest = insert_score new list in
    if ltb_ℤ existing.score new.score then new ∷ existing ∷ list else existing ∷ rest

-- A list that fits is kept whole, and one that fills the room is all that is kept.
take_all : (n : ℕ) (xs : List PlayerScore) → length xs ≤ n → take n xs ≡ xs
take_all zero [] h = refl
take_all (suc n) [] h = refl
take_all zero (x ∷ xs) h = absurd (omega arith)
take_all (suc n) (x ∷ xs) h = ap (λ l. x ∷ l) (take_all n xs (omega arith))

take_full : (n : ℕ) (xs ys : List PlayerScore) → length xs ≡ n → take n (xs ++ ys) ≡ xs
take_full zero [] ys h = refl
take_full (suc n) [] ys h = absurd (omega arith)
take_full zero (x ∷ xs) ys h = absurd (omega arith)
take_full (suc n) (x ∷ xs) ys h = ap (λ l. x ∷ l) (take_full n xs ys (omega arith))

length-snoc : (xs : List PlayerScore) (x : PlayerScore) → length (xs ++ x ∷ []) ≡ length xs + 1
length-snoc xs x = length-append xs (x ∷ [])

-- After the insertion the rest fills what room there is.
rank_inserted :
    (max : ℕ) (new : PlayerScore) (final_list list : List PlayerScore)
    → length final_list ≤ max
    → rank max new true final_list list ≡ (true, take max (final_list ++ list))
unfolding rank
rank_inserted max new final_list [] h =
    ap (λ l. (true, l)) (sym (ap (take max) (append-nil final_list) ∙ take_all max final_list h))
rank_inserted max new final_list (x ∷ list) h = elim (Bool-cases (ltb (length final_list) max)) [
  | inl room ↦ rw (rank_room max new x final_list list room) (
      rank_inserted max new (final_list ++ x ∷ []) list
        (ground (arith, room, length-snoc final_list x))
      ∙ ap (λ l. (true, take max l)) (append_assoc final_list (x ∷ []) list))
  | inr full ↦
      let fills : length final_list ≡ max = ground (arith, full, h) in
      rw (rank_full max new x final_list list full) (
        rank_inserted max new final_list list h
        ∙ ap (λ l. (true, l))
            (take_full max final_list list fills ∙ sym (take_full max final_list (x ∷ list) fills)))
]

rank_reference :
    (max : ℕ) (new : PlayerScore) (final_list list : List PlayerScore)
    → length final_list + length list ≤ max
    → finish max new (rank max new false final_list list)
      ≡ take max (final_list ++ insert_score new list)
unfolding insert_score rank
rank_reference max new final_list [] h = elim (Bool-cases (ltb (length final_list) max)) [
  | inl room ↦ rw room (
      sym
        (take_all max (final_list ++ new ∷ []) (ground (arith, room, length-snoc final_list new))))
  | inr full ↦ rw full (sym (take_full max final_list (new ∷ []) (ground (arith, full, h))))
]
rank_reference max new final_list (x ∷ list) h = elim (Bool-cases (ltb_ℤ x.score new.score)) [
  | inl higher ↦
      rw (rank_higher max new x final_list list higher, higher)
        (ap (finish max new) (
            rank_inserted max new (final_list ++ new ∷ []) (x ∷ list)
              (omega (arith, length-snoc final_list new)))
          ∙ ap (take max) (append_assoc final_list (new ∷ []) (x ∷ list)))
  | inr lower ↦
      let room : ltb (length final_list) max ≡ true = ground (arith, h) in
      rw (rank_passed max new x final_list list lower room, lower)
        (rank_reference max new (final_list ++ x ∷ []) list
            (omega (arith, length-snoc final_list x))
          ∙ ap (take max) (append_assoc final_list (x ∷ []) (insert_score new list)))
]

-- Where the other players' entries in the list of a period are at most as many as the
-- configuration allows, the update of the list leaves what comes of putting the new entry before
-- the first of the other entries whose score is lower, or last, and cutting the result to the
-- allowed length; the lists of the other periods stay as they are.
pub update_top_scores_list_reference :
    (config : LeaderboardConfig) (new : PlayerScore) (period : TimePeriod) (period_id : ℕ)
    (s : Storage)
    → length (others new.player (top_scores_of s period period_id)) ≤ config.max_top_entries
    → (top_scores_of (update_top_scores_list config new period period_id s) period period_id
        ≡ take config.max_top_entries
            (insert_score new (others new.player (top_scores_of s period period_id))))
      × ((other : TimePeriod) (other_id : ℕ)
          → list_key period period_id ≢ list_key other other_id
          → top_scores_of (update_top_scores_list config new period period_id s) other other_id
            ≡ top_scores_of s other other_id)
unfolding update_top_scores_list
update_top_scores_list_reference config new period period_id s h =
    let others_list = others new.player (top_scores_of s period period_id) in
    let final_list =
      finish config.max_top_entries new (rank config.max_top_entries new false [] others_list) in
    (
      ap (λ o. get_or o []) (lookup-insert_self (list_key period period_id) final_list s.top_scores)
          ∙ rank_reference config.max_top_entries new [] others_list (omega (arith, h)),
      λ other other_id apart.
          ap (λ o. get_or o [])
            (lookup-insert_ne (list_key period period_id) (list_key other other_id) final_list
              s.top_scores apart),
    )
