-- ===== src/Airdrop/Claims.antt =====
-- Who can claim from a campaign of contracts/airdrop_merkle_claim/src/lib.rs, and what can be taken
-- back from it.
use mindmint_contracts.Base.{
  ℕ, ◌≡◌, ◌≢◌, ◌⊎◌, ap, sym, ◌∙◌, get_or, true, some, List, is_some, arith,
}
use mindmint_contracts.Base.Int.{ℤ}
use mathlib.Core.Path.{subst}
use mindmint_contracts.Base.Map.{nat_key, pair_key, lookup}
use mindmint_contracts.Base.Map.Laws.{lookup-insert, lookup-insert_self}
use mindmint_contracts.Host.Call.{
  Address, Env, ok, Ensures, Ensures->>=, Ensures-mono, ensured, after_auth, after_panic_if,
}
use mindmint_contracts.Host.Num.{fits_i128}
use mindmint_contracts.Host.Tokens.{Tokens}
use mindmint_contracts.Airdrop
use mindmint_contracts.Airdrop.{
  AirdropCampaign, Crypto, Storage, Error, set_campaign, create_campaign, claim, reclaim_unclaimed,
}
use mindmint_contracts.Airdrop.Effects.{
  claim-IsClaim, create_campaign-IsCreated, IsReclaim, reclaimed, reclaim_unclaimed-IsReclaim,
  reclaim_runs,
}
use mindmint_contracts.Airdrop.Entry.{Request, serve}
use mindmint_contracts.Airdrop.Merkle.{IsCrypto, IsProof, Collision, one_leaf}

module _ {W : Type 0} (t : Tokens W) (k : Crypto) where
  -- Two claims that succeed on campaigns with one Merkle root, in whatever states and calls, are by
  -- the same address for the same amount, or two inputs with one SHA-256 digest are at hand; for
  -- proofs of whole digests and amounts that fit the machine's integers.
  pub one_claimer :
      (laws : IsCrypto k) (e e' : Env) (i j : ℕ) (a b : Address) (x y : ℤ) (p q : List (List ℕ))
      (s s' : Storage) (w w' : W) (st st' : Storage × W) (c d : AirdropCampaign)
      → lookup i s.campaigns ≡ some c
      → lookup j s'.campaigns ≡ some d
      → c.merkle_root ≡ d.merkle_root
      → IsProof p
      → IsProof q
      → fits_i128 x ≡ true
      → fits_i128 y ≡ true
      → claim t k e i a x p (s, w) ≡ ok st
      → claim t k e' j b y q (s', w') ≡ ok st'
      → ((a ≡ b) × (x ≡ y)) ⊎ Collision k
  one_claimer laws e e' i j a b x y p q s s' w w' st st' c d fc fd roots hp hq hx hy h1 h2 =
      let (_, left) = ensured _ (claim t k e i a x p (s, w)) (claim-IsClaim t k e i a x p s w) h1 in
      let (_, right) =
        ensured _ (claim t k e' j b y q (s', w')) (claim-IsClaim t k e' j b y q s' w') h2 in
      one_leaf k laws s s' i j a b x y p q c d fc fd roots hp hq hx hy left.proved right.proved

  -- A reclaim that succeeds can be made again at once: in the state that it leaves, the same call
  -- succeeds and takes the same amount a second time, provided only that the token's own transfer of
  -- it succeeds.
  pub reclaim_repeats :
      (e : Env) (a : Address) (i : ℕ) (s : Storage) (w : W) (x : ℤ) (s' : Storage) (w' w'' : W)
      (c : AirdropCampaign)
      → lookup i s.campaigns ≡ some c
      → reclaim_unclaimed t e a i (s, w) ≡ ok (x, s', w')
      → t.transfer w' c.token e.current_contract a x ≡ some w''
      → (s'' : Storage) × (reclaim_unclaimed t e a i (s', w') ≡ ok (x, s'', w''))
  reclaim_repeats e a i s w x s' w' w'' c found h paid =
      let (c', done, _, stored) =
        ensured _ (reclaim_unclaimed t e a i (s, w)) (reclaim_unclaimed-IsReclaim t e a i s w) h in
      let same : c' ≡ c = ap (λ o. get_or o c) (sym done.found ∙ found) in
      let expired : AirdropCampaign = record c' { status = 1 } in
      let again : IsReclaim t e a i (reclaimed t i c' s) expired x = record {
        signed = done.signed;
        by_admin = done.by_admin;
        found = lookup-insert_self i expired s.campaigns;
        late = done.late;
        left = done.left;
        some_left = done.some_left;
      } in
      (
        reclaimed t i expired s',
        reclaim_runs t e a i s' w' w'' expired x
            (subst (λ s'. IsReclaim t e a i s' expired x) (sym stored) again)
            (subst
              (λ (k : AirdropCampaign). t.transfer w' k.token e.current_contract a x ≡ some w'')
              (sym same) paid),
      )

  serve-claimed :
      (e : Env) (q : Request) (s : Storage) (w : W) (key : ℕ × Address)
      → is_some (lookup key s.claimed) ≡ true
      → Ensures (λ st. is_some (lookup key st.0.claimed) ≡ true) (serve t k e q (s, w))
  unfolding serve Airdrop.initialize
  serve-claimed e (Request.initialize a) s w key h =
      Ensures->>= (λ s'. is_some (lookup key s'.claimed) ≡ true) _ (Airdrop.initialize e a s) _
        (after_panic_if _ (is_some s.admin) _ _ λ _. after_auth _ e a _ λ _. h) λ s' h'. h'
  serve-claimed e (Request.create_campaign a root d x deadline) s w key h =
      Ensures->>= _ _ (create_campaign t e a root d x deadline (s, w)) _
        (create_campaign-IsCreated t e a root d x deadline s w)
        λ r (i, c, _, _, _, _, _, _, stored). rw stored h
  serve-claimed e (Request.claim i a x proof) s w key h =
      Ensures-mono _ _ (claim t k e i a x proof (s, w)) (claim-IsClaim t k e i a x proof s w)
        λ r (c, done). rw done.stored (grind (arith, lookup-insert (i, a) key true s.claimed, h))
  serve-claimed e (Request.reclaim_unclaimed a i) s w key h =
      Ensures->>= _ _ (reclaim_unclaimed t e a i (s, w)) _ (reclaim_unclaimed-IsReclaim t e a i s w)
        λ r (c, _, _, stored). rw stored h

  -- Whoever is marked as having claimed from a campaign stays so through every request that succeeds,
  -- and no claim of theirs on that campaign succeeds afterwards.
  pub claimed_stays :
      (e : Env) (q : Request) (s : Storage) (w : W) (s' : Storage) (w' : W) (i : ℕ) (a : Address)
      → is_some (lookup (i, a) s.claimed) ≡ true
      → serve t k e q (s, w) ≡ ok (s', w')
      → (is_some (lookup (i, a) s'.claimed) ≡ true)
        × ((e' : Env) (x : ℤ) (proof : List (List ℕ)) (st : Storage × W)
            → claim t k e' i a x proof (s', w') ≢ ok st)
  claimed_stays e q s w s' w' i a h run =
      let still : is_some (lookup (i, a) s'.claimed) ≡ true =
        ensured (λ st. is_some (lookup (i, a) st.0.claimed) ≡ true) (serve t k e q (s, w))
          (serve-claimed e q s w (i, a) h) run in
      (
        still,
        λ e' x proof st again.
            let (_, done) =
              ensured _ (claim t k e' i a x proof (s', w')) (claim-IsClaim t k e' i a x proof s' w')
                again in
            let first = done.first in ground (arith, first, still),
      )
