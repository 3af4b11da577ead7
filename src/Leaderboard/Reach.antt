-- ===== src/Leaderboard/Reach.antt =====
-- The states that the entry points of contracts/leaderboard/src/lib.rs reach: their lists are ranked.
use mindmint_contracts.Base.{
  ℕ, ◌≡◌, refl, Bool, true, false, some, List, is_some, ◌==◌, inl, inr, arith, Bool-cases,
}
use mindmint_contracts.Base.Int.{ℤ, pos, ltb_ℤ}
use mindmint_contracts.Base.Map.{pair_key, nat_key, lookup, insert}
use mindmint_contracts.Host.Call.{
  Address, Env, ok, Ensures, Ensures->>=, Ensures-mono, Ensures-any, ensured, after_auth,
  after_panic_if, after_unwrap,
}
use mindmint_contracts.Host.Num.{div_u64, add_i128, add_u32}
use mindmint_contracts.Leaderboard
use mindmint_contracts.Leaderboard.{
  Error, TimePeriod, LeaderboardConfig, PlayerScore, Storage, Call, assert_admin, assert_not_paused,
  assert_authorized_submitter, configure, get_current_period_id,
}
use mindmint_contracts.Leaderboard.Tops.{update_top_scores_list}
use mindmint_contracts.Leaderboard.Scores.{
  set_player_score, get_high_score, add_score, update_period_score, get_total_players,
  get_player_all_time_total, count_player, submit_score, update_score,
}
use mindmint_contracts.Leaderboard.Order.{IsRanked, AreRanked, update_top_scores_list-AreRanked}
use mindmint_contracts.Leaderboard.Entry.{Request, serve}

-- The lists of top scores stay as they are.
abbrev SameLists : Storage → Storage → Type 0
SameLists s s' = s'.top_scores ≡ s.top_scores

same-AreRanked :
    (s : Storage) (call : Call Storage)
    → AreRanked s
    → Ensures (SameLists s) call
    → Ensures AreRanked call
same-AreRanked s call v h = Ensures-mono _ _ call h λ s' same. rw same v

configure-SameLists :
    (e : Env) (a : Address) (f : LeaderboardConfig → LeaderboardConfig) (s : Storage)
    → Ensures (SameLists s) (configure e a f s)
configure-SameLists e a f s = after_auth _ e a _ λ signed.
    Ensures->>= _ _ (assert_admin s a) _ (Ensures-any _)
      λ _ _. after_unwrap _ s.config _ λ c found. refl

update_max_entries-SameLists :
    (e : Env) (a : Address) (max : ℕ) (s : Storage)
    → Ensures (SameLists s) (Leaderboard.update_max_entries e a max s)
unfolding Leaderboard.update_max_entries
update_max_entries-SameLists e a max s = after_auth _ e a _ λ signed.
    Ensures->>= _ _ (assert_admin s a) _ (Ensures-any _)
      λ _ _. after_panic_if _ (max == 0) _ _ λ positive. after_unwrap _ s.config _ λ c found. refl

initialize-SameLists :
    (e : Env) (a : Address) (max : ℕ) (s : Storage)
    → Ensures (SameLists s) (Leaderboard.initialize e a max s)
unfolding Leaderboard.initialize
initialize-SameLists e a max s =
    after_auth _ e a _ λ signed. after_panic_if _ (is_some s.config) _ _ λ fresh. refl

add_verifier-SameLists :
    (e : Env) (a u : Address) (s : Storage)
    → Ensures (SameLists s) (Leaderboard.add_verifier e a u s)
unfolding Leaderboard.add_verifier
add_verifier-SameLists e a u s =
    after_auth _ e a _ λ signed. Ensures->>= _ _ (assert_admin s a) _ (Ensures-any _) λ _ _. refl

remove_verifier-SameLists :
    (e : Env) (a u : Address) (s : Storage)
    → Ensures (SameLists s) (Leaderboard.remove_verifier e a u s)
unfolding Leaderboard.remove_verifier
remove_verifier-SameLists e a u s =
    after_auth _ e a _ λ signed. Ensures->>= _ _ (assert_admin s a) _ (Ensures-any _) λ _ _. refl

count_player-SameLists : (b : Bool) (s : Storage) → Ensures (SameLists s) (count_player b s)
unfolding count_player
count_player-SameLists true s =
    Ensures->>= _ _ (add_u32 (get_total_players s) 1) _ (Ensures-any _) λ total _. refl
count_player-SameLists false s = refl

update_period_score-AreRanked :
    (c : LeaderboardConfig) (p : Address) (x : ℤ) (period : TimePeriod) (id now : ℕ) (s : Storage)
    → AreRanked s
    → Ensures AreRanked (update_period_score c p x period id now s)
unfolding update_period_score
update_period_score-AreRanked c p x period id now s v =
    Ensures->>= _ _ (add_score p x period id now s) _ (Ensures-any _) λ new _.
      let s1 = set_player_score new p period id s in
      let s2 = update_top_scores_list c new period id s1 in
      let ranked = update_top_scores_list-AreRanked c new period id s1 v in
      elim (Bool-cases (ltb_ℤ (get_high_score s2 period) new.score)) [
        | inl record_high ↦ rw record_high ranked
        | inr lower ↦ rw lower ranked
      ]

submit_score-AreRanked :
    (e : Env) (a p : Address) (x : ℤ) (s : Storage)
    → AreRanked s
    → Ensures AreRanked (submit_score e a p x s)
unfolding submit_score
submit_score-AreRanked e a p x s v = after_auth _ e a _ λ signed.
    Ensures->>= _ _ (assert_not_paused s) _ (Ensures-any _) λ _ _.
      Ensures->>= _ _ (assert_authorized_submitter s a) _ (Ensures-any _) λ _ _.
        after_panic_if _ (ltb_ℤ x (pos 0)) _ _ λ nonneg. after_unwrap _ s.config _ λ c found.
          Ensures->>= _ _ (div_u64 e.timestamp c.daily_period_length) _ (Ensures-any _) λ d _.
            Ensures->>= _ _ (div_u64 e.timestamp c.weekly_period_length) _ (Ensures-any _) λ w _.
              Ensures->>= _ _ (update_period_score c p x TimePeriod.daily d e.timestamp s) _
                (update_period_score-AreRanked c p x TimePeriod.daily d e.timestamp s v)
                λ s1 v1.
                  Ensures->>= _ _ (update_period_score c p x TimePeriod.weekly w e.timestamp s1) _
                    (update_period_score-AreRanked c p x TimePeriod.weekly w e.timestamp s1 v1)
                    λ s2 v2.
                      Ensures->>= _ _
                        (update_period_score c p x TimePeriod.all_time 0 e.timestamp s2) _
                        (update_period_score-AreRanked c p x TimePeriod.all_time 0 e.timestamp s2
                          v2)
                        λ s3 v3.
                          Ensures->>= _ _ (add_i128 (get_player_all_time_total s3 p) x) _
                            (Ensures-any _)
                            λ sum _.
                              same-AreRanked
                                (record s3 {
                                  player_all_time_scores = insert p sum s3.player_all_time_scores;
                                })
                                (count_player _ _) v3 (count_player-SameLists _ _)

update_score-AreRanked :
    (e : Env) (a p : Address) (x : ℤ) (period : TimePeriod) (s : Storage)
    → AreRanked s
    → Ensures AreRanked (update_score e a p x period s)
unfolding update_score
update_score-AreRanked e a p x period s v = after_auth _ e a _ λ signed.
    Ensures->>= _ _ (assert_admin s a) _ (Ensures-any _) λ _ _.
      Ensures->>= _ _ (assert_not_paused s) _ (Ensures-any _) λ _ _.
        after_panic_if _ (ltb_ℤ x (pos 0)) _ _ λ nonneg. after_unwrap _ s.config _ λ c found.
          Ensures->>= _ _ (get_current_period_id c period e.timestamp) _ (Ensures-any _) λ id _.
            update_top_scores_list-AreRanked c _ period id (set_player_score _ p period id s) v

serve-AreRanked :
    (e : Env) (q : Request) (s : Storage) → AreRanked s → Ensures AreRanked (serve e q s)
unfolding serve
serve-AreRanked e (Request.initialize a max) s v =
    same-AreRanked s (Leaderboard.initialize e a max s) v (initialize-SameLists e a max s)
serve-AreRanked e (Request.add_verifier a u) s v =
    same-AreRanked s (Leaderboard.add_verifier e a u s) v (add_verifier-SameLists e a u s)
serve-AreRanked e (Request.remove_verifier a u) s v =
    same-AreRanked s (Leaderboard.remove_verifier e a u s) v (remove_verifier-SameLists e a u s)
serve-AreRanked e (Request.set_paused a b) s v =
    unfold Leaderboard.set_paused in
    same-AreRanked s (configure e a _ s) v (configure-SameLists e a _ s)
serve-AreRanked e (Request.update_period_lengths a d w) s v =
    unfold Leaderboard.update_period_lengths in
    same-AreRanked s (configure e a _ s) v (configure-SameLists e a _ s)
serve-AreRanked e (Request.update_max_entries a max) s v =
    same-AreRanked s (Leaderboard.update_max_entries e a max s) v
      (update_max_entries-SameLists e a max s)
serve-AreRanked e (Request.submit_score a p x) s v = submit_score-AreRanked e a p x s v
serve-AreRanked e (Request.update_score a p x period) s v =
    update_score-AreRanked e a p x period s v

-- What the entry points reach.
pub data Reach : Storage → Type 0 where
  start : Reach Leaderboard.empty
  next : {s s' : Storage} (e : Env) (q : Request) → Reach s → serve e q s ≡ ok s' → Reach s'

empty-AreRanked : AreRanked Leaderboard.empty
unfolding lookup
empty-AreRanked k xs h = absurd (ground (arith, h))

-- In every state that the entry points reach from an empty contract, whatever the admin configures
-- in between, in every list of top scores no entry is lower than a later one, and no player has
-- two entries.
pub reached_sorted :
    {s : Storage} (k : ℕ × ℕ) (xs : List PlayerScore)
    → Reach s
    → lookup k s.top_scores ≡ some xs
    → IsRanked xs
reached_sorted {s = s} k xs r found = reached-AreRanked r k xs found
  where
    reached-AreRanked : {u : Storage} → Reach u → AreRanked u
    reached-AreRanked start = empty-AreRanked
    reached-AreRanked (next {s = u} e q before h) =
        ensured AreRanked (serve e q u) (serve-AreRanked e q u (reached-AreRanked before)) h
