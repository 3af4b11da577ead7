-- ===== src/Leaderboard/Steps.antt =====
-- The rounds of the loop of `update_top_scores_list` in contracts/leaderboard/src/lib.rs.
use mindmint_contracts.Base.{ℕ, ◌≡◌, refl, true, false, List, [], ◌∷◌, ◌++◌, length, ltb}
use mindmint_contracts.Base.Int.{ltb_ℤ}
use mindmint_contracts.Leaderboard.{PlayerScore}
use mindmint_contracts.Leaderboard.Tops.{rank}

module _ (max : ℕ) (new x : PlayerScore) (final_list list : List PlayerScore) where
  -- The new score comes before the first lower one, and after all others.
  pub rank_higher :
      ltb_ℤ x.score new.score ≡ true
      → rank max new false final_list (x ∷ list)
        ≡ rank max new true (final_list ++ new ∷ []) (x ∷ list)
  unfolding rank
  rank_higher h = rw h refl

  pub rank_passed :
      ltb_ℤ x.score new.score ≡ false
      → ltb (length final_list) max ≡ true
      → rank max new false final_list (x ∷ list) ≡ rank max new false (final_list ++ x ∷ []) list
  unfolding rank
  rank_passed h k = rw h (rw k refl)

  pub rank_dropped :
      ltb_ℤ x.score new.score ≡ false
      → ltb (length final_list) max ≡ false
      → rank max new false final_list (x ∷ list) ≡ rank max new false final_list list
  unfolding rank
  rank_dropped h k = rw h (rw k refl)

  -- After the insertion an entry is passed on while there is room.
  pub rank_room :
      ltb (length final_list) max ≡ true
      → rank max new true final_list (x ∷ list) ≡ rank max new true (final_list ++ x ∷ []) list
  unfolding rank
  rank_room h = rw h refl

  pub rank_full :
      ltb (length final_list) max ≡ false
      → rank max new true final_list (x ∷ list) ≡ rank max new true final_list list
  unfolding rank
  rank_full h = rw h refl
